-- ===== src/Board/Writing/Bytes.antt =====
-- One byte of a message on argoRFID_Writer.ino.
use secure_rfid_login.Common.{
  ℕ, zero, suc, ◌+◌, ◌<◌, ◌≡◌, ◌≢◌, refl, ap, ap₂, ◌∙◌, inl, inr, ◌⊎◌, true, false, some, List, [],
  ◌∷◌, ◌++◌, Bool-cases, length, take, get_or, ltb, ◌==◌, length-append, get_or-append, ◌-◌,
  take-append, eq→==, ==→eq, ne→==_false, lt→ltb, arith,
}
use secure_rfid_login.Board.{Uno, Mfrc522, empty_serial, to_byte}
use secure_rfid_login.Board.Layout.{put}
use secure_rfid_login.Board.Writing.Arrays.{at, array-at, put_byte_same}
use secure_rfid_login.Board.Writing.{
  Board, array, put_byte, read_byte, check_and_fill, after_byte, receive_byte,
}
use secure_rfid_login.Board.Writing.Collect.{
  Queue, Holds, Collects, whole, complete, refused, put_byte-Stored, placed,
}

List-cases : (xs : List ℕ) → (xs ≡ []) ⊎ ((x : ℕ) × (rest : List ℕ) × (xs ≡ x ∷ rest))
List-cases [] = inl refl
List-cases (x ∷ xs) = inr (x, xs, refl)

module _ {W : Type 0} (uno : Uno W) (mfrc522 : Mfrc522 W) (queue : Queue uno) where
  pub some_left :
      (w : W) {b : ℕ} {rest : List ℕ} → queue.pending w ≡ b ∷ rest → ltb 0 (uno.available w) ≡ true
  some_left w e = lt→ltb 0 (uno.available w) (omega (arith, queue.available-pending w, ap length e))

  pub none_left : (w : W) → queue.pending w ≡ [] → ltb 0 (uno.available w) ≡ false
  none_left w e = ap (ltb 0) {y = 0} (omega (arith, queue.available-pending w, ap length e))

  -- `empty_serial` comes back, and nothing is left.
  pub empty_serial_lem :
      (fuel : ℕ) (w : W)
      → length (queue.pending w) < fuel
      → (w' : W) × (empty_serial uno mfrc522 fuel w ≡ some w') × (queue.pending w' ≡ [])
  unfolding empty_serial
  empty_serial_lem zero w h = absurd (omega arith)
  empty_serial_lem (suc fuel) w h = elim (List-cases (queue.pending w)) [
    | inl e ↦ (w, rw (none_left w e) refl, e)
    | inr (b, rest, e) ↦
        let r = queue.read_pending w e in
        let ih =
          empty_serial_lem fuel (uno.read w).1 (omega (arith, h, ap length e, ap length r.2)) in
        (ih.0, rw (some_left w e) ih.1, ih.2)
  ]

  -- The byte goes where it belongs.
  read_byte_lem :
      (s : Board) (w : W) {b : ℕ} {rest : List ℕ}
      → s.num_of_block < 4
      → queue.pending w ≡ b ∷ rest
      → read_byte uno s w ≡ (put_byte s s.num_of_block b, (uno.read w).1)
  unfolding read_byte
  read_byte_lem s w h e =
      let r = queue.read_pending w e in
      rw (array-at s s.num_of_block h, read_byte)
        (ap (λ c. (put_byte s s.num_of_block c, (uno.read w).1))
          (ap to_byte r.1 ∙ omega (arith, r.0)))

  after_byte_lem :
      (drain : ℕ) (s : Board) (w : W) (s1 : Board) (w1 : W)
      → read_byte uno s w ≡ (s1, w1)
      → receive_byte uno mfrc522 drain s w ≡ after_byte uno mfrc522 drain s1 w1
  unfolding receive_byte
  after_byte_lem drain s w s1 w1 e = ap (λ (t : Board × W). after_byte uno mfrc522 drain t.0 t.1) e

  -- A byte of a block that is not whole yet.
  pub collect_byte :
      (drain : ℕ) (blocks : ℕ → List ℕ) (got : List ℕ) (s : Board) (w : W) {b : ℕ} {rest : List ℕ}
      → Holds blocks got s
      → length got < 64
      → queue.pending w ≡ b ∷ rest
      → (s' : Board) × (receive_byte uno mfrc522 drain s w ≡ some (s', (uno.read w).1))
        × Holds blocks (got ++ b ∷ []) s'
        × (s'.num_of_block ≡ s.num_of_block)
        × (s'.connection_done ≡ s.connection_done)
        × (s'.block_ready ≡ s.block_ready)
  unfolding after_byte
  collect_byte drain blocks got s w {b} {rest} h less e =
      let k = s.num_of_block in
      let s1 = put_byte s k b in
      let same = put_byte_same s k b in
      let p = put_byte-Stored blocks got b s h in
      let test : (s1.num_of_byte == 64) ≡ false =
        ne→==_false s1.num_of_byte 64 (λ z. absurd (omega (arith, z, same.1, h.byte))) in
      (
        record s1 { num_of_byte = s1.num_of_byte + 1 },
        after_byte_lem drain s w s1 (uno.read w).1 (read_byte_lem s w h.block e) ∙ rw test refl,
        record {
          block = omega (arith, same.0, h.block);
          byte = omega (arith, same.1, h.byte, length-append got (b ∷ []));
          bound = omega (arith, length-append got (b ∷ []));
          size = p.size;
          full = λ i l. p.full i (omega (arith, same.0));
          current =
              ap₂ (λ n i. take n (at s1 i)) {y = suc (length got)} (omega (arith, same.1, h.byte))
                same.0
              ∙ p.current;
        },
        same.0,
        same.2,
        same.3,
      )

  -- The byte behind a whole block.
  check_and_fill-Collects :
      (blocks : ℕ → List ℕ) (got rest : List ℕ) (b : ℕ) (s : Board) (w : W)
      → Holds blocks got s
      → length got ≡ 64
      → Collects blocks (got ++ (b ∷ rest)) s (check_and_fill uno (put_byte s s.num_of_block b) w).0
  unfolding check_and_fill
  check_and_fill-Collects blocks got rest b s w h full =
      let k = s.num_of_block in
      let s1 = put_byte s k b in
      let same = put_byte_same s k b in
      let p = put_byte-Stored blocks got b s h in
      let long : 64 < length (got ++ (b ∷ rest)) = omega (arith, length-append got (b ∷ rest)) in
      let prefix : take 64 (got ++ (b ∷ rest)) ≡ got = take-append got (b ∷ rest) full in
      let z : 64 - length got ≡ 0 = omega arith in
      let number : get_or (got ++ (b ∷ rest)) 64 0 ≡ b =
        get_or-append got (b ∷ rest) 64 0 (omega arith) ∙ ap (λ t. get_or (b ∷ rest) t 0) z in
      let found : array s1 s1.num_of_block ≡ some (at s1 k) =
        ap (array s1) same.0 ∙ array-at s1 k h.block in
      let read : get_or (at s1 k) s1.num_of_byte 0 ≡ b =
        ap (λ n. get_or (at s1 k) n 0) (same.1 ∙ h.byte) ∙ p.last in
      let at_place = placed blocks got (got ++ (b ∷ rest)) b s s1 p full prefix in
      elim (Bool-cases (b == k + 0x30)) [
        | inl good ↦ elim (Bool-cases (k == 3)) [
          | inl end ↦
              rw (found, check_and_fill, read, same.0, good, end)
                (complete long (omega (arith, number, ==→eq b (k + 0x30) good, ==→eq k 3 end))
                  (==→eq k 3 end)
                  (λ i l.
                    at_place i (omega (arith, ==→eq k 3 end))
                    ∙ ap (λ n. put n (take 64 (got ++ (b ∷ rest))) blocks i) (==→eq k 3 end))
                  (record {
                    block = omega arith;
                    byte = refl;
                    bound = omega arith;
                    size = p.size;
                    full = λ i l. absurd (omega arith);
                    current = refl;
                  })
                  refl same.2 refl)
          | inr go ↦
              let ne : k ≢ 3 = λ z. absurd (ground arith) in
              rw (found, check_and_fill, read, same.0, good, go)
                (whole long (number ∙ ==→eq b (k + 0x30) good) ne
                  (record {
                    block = omega (arith, h.block);
                    byte = refl;
                    bound = omega arith;
                    size = p.size;
                    full = at_place;
                    current = refl;
                  })
                  refl same.2 same.3)
        ]
        | inr bad ↦
            rw (found, check_and_fill, read, same.0, bad)
              (refused long (λ e. absurd (ground (arith, number)))
                (record {
                  block = h.block;
                  byte = refl;
                  bound = omega arith;
                  size = p.size;
                  full = p.full;
                  current = refl;
                })
                refl refl same.3)
      ]

  -- The byte behind a block that is whole, and what came in with it.
  pub collect_block :
      (drain : ℕ) (blocks : ℕ → List ℕ) (got rest : List ℕ) (s : Board) (w : W) {b : ℕ}
      → Holds blocks got s
      → length got ≡ 64
      → queue.capacity < drain
      → queue.pending w ≡ b ∷ rest
      → (s' : Board) × (w' : W) × (receive_byte uno mfrc522 drain s w ≡ some (s', w'))
        × (queue.pending w' ≡ [])
        × Collects blocks (got ++ (b ∷ rest)) s s'
  unfolding after_byte
  collect_block drain blocks got rest s w {b} h full room e =
      let k = s.num_of_block in
      let same = put_byte_same s k b in
      let checked = check_and_fill uno (put_byte s k b) (uno.read w).1 in
      let test : ((put_byte s k b).num_of_byte == 64) ≡ true =
        eq→== _ 64 (same.1 ∙ h.byte ∙ full) in
      let emptied =
        empty_serial_lem drain checked.1 (omega (arith, room, queue.bounded checked.1)) in
      (
        checked.0,
        emptied.0,
        after_byte_lem drain s w (put_byte s k b) (uno.read w).1 (read_byte_lem s w h.block e)
            ∙ rw (test, emptied.1, after_byte) refl,
        emptied.2,
        check_and_fill-Collects blocks got rest b s (uno.read w).1 h full,
      )
