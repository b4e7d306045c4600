-- ===== src/Board/Mifare/Reads.antt =====
-- What `read_blocks` of MifareRFID.cpp leaves in a buffer.
use secure_rfid_login.Common.{
  ℕ, ◌+◌, ◌≤◌, ◌≡◌, ◌≢◌, refl, sym, ap, ap₂, ◌∙◌, inl, inr, Bool, true, ◌&&◌, List, [], ◌∷◌, ◌++◌,
  append_assoc, append-nil, ◌==◌, Bool-cases, ==→eq, ne→==_false, length, take, length-append,
  length-write_at, take-write_at, arith,
}
use secure_rfid_login.Board.{
  Uno, Mfrc522, Field, block_name, block_cogn, block_user, block_pass, auth_trailer, error_dump,
  error_auth, error_read,
}
use secure_rfid_login.Board.Layout.{Store, Stores, field, gather}
use secure_rfid_login.Board.Mifare.{
  Statement, auth, transfer, read_steps, read_step, run_reads, read_blocks,
}

-- The offsets of the transfers, one behind the other.
abbrev is_filling : (offset : ℕ) → List Statement → Bool
is_filling offset [] = true
is_filling offset (auth t ∷ steps) = is_filling offset steps
is_filling offset (transfer b o ∷ steps) = (o == offset) && is_filling (offset + 16) steps

abbrev pub contents : List Statement → Store → List ℕ
contents [] m = []
contents (auth t ∷ steps) m = contents steps m
contents (transfer b o ∷ steps) m = m b ++ contents steps m

module _ {W : Type 0} (uno : Uno W) (mfrc522 : Mfrc522 W) (key : List ℕ)
    (card : Stores uno mfrc522 key) where
  pub error_dump_lem :
      (code res : ℕ) (w : W)
      → code ≢ 0
      → let (failed, w') = error_dump uno mfrc522 code res w in
        ((failed == 0) ≡ (res == mfrc522.status_ok))
        × (card.store w' ≡ card.store w)
        × (res ≡ mfrc522.status_ok → w' ≡ w)
  unfolding error_dump
  error_dump_lem code res w h = elim (Bool-cases (res == mfrc522.status_ok)) [
    | inl good ↦ rw good (refl, refl, λ e. refl)
    | inr bad ↦ rw bad (
      ne→==_false code 0 h,
      card.println_store _ _ ∙ card.print_store _ w,
      λ e. absurd (ground arith),
    )
  ]

  -- What one statement of `read_blocks` does: it fills the next 16 bytes, or it fails.
  read_step_lem :
      (buff : List ℕ) (s : Statement) (offset : ℕ) (w : W)
      → is_filling offset (s ∷ []) ≡ true
      → offset + length (contents (s ∷ []) (card.store w)) ≤ length buff
      → let (failed, buff', w') = read_step uno mfrc522 key buff s w in
        (card.store w' ≡ card.store w)
        × (length buff' ≡ length buff)
        × ((failed == 0) ≡ true
            → take (offset + length (contents (s ∷ []) (card.store w))) buff'
              ≡ take offset buff ++ contents (s ∷ []) (card.store w))
  unfolding read_step auth_trailer
  read_step_lem buff (auth t) offset w f h =
      let r = mfrc522.authenticate t key w in
      let d = error_dump_lem error_auth r.0 r.1 (λ e. absurd (ground arith)) in
      (
        d.1 ∙ card.auth_store t w,
        refl,
        λ good. ap (λ n. take n buff) (omega arith) ∙ sym (append-nil (take offset buff)),
      )
  read_step_lem buff (transfer b o) offset w f h =
      let r = mfrc522.mifare_read b w in
      let d = error_dump_lem error_read r.0 r.2 (λ e. absurd (ground arith)) in
      let same = card.read_store b w in
      elim (Bool-cases ((error_dump uno mfrc522 error_read r.0 r.2).0 == 0)) [
        | inl good ↦
            let got : take 16 r.1 ≡ card.store w b =
              same.0 (==→eq r.0 mfrc522.status_ok (sym d.0 ∙ good)) in
            let here : o ≡ offset = ground arith in
            let whole = append-nil (card.store w b) in
            rw good (
              d.1 ∙ same.1,
              length-write_at buff o (take 16 r.1),
              λ _.
                  rw (got, whole, here)
                    (take-write_at buff (card.store w b) offset (omega (arith, h, ap length whole))
                      refl),
            )
        | inr bad ↦ rw bad (d.1 ∙ same.1, refl, λ e. absurd (cc (sym e ∙ bad)))
      ]

  -- The statements behind the first one go on where it ends.
  is_filling-cons :
      (s : Statement) (steps : List Statement) (offset : ℕ) (w : W)
      → is_filling offset (s ∷ steps) ≡ true
      → (is_filling offset (s ∷ []) ≡ true)
        × (is_filling (offset + length (contents (s ∷ []) (card.store w))) steps ≡ true)
        × (contents (s ∷ steps) (card.store w)
            ≡ contents (s ∷ []) (card.store w) ++ contents steps (card.store w))
  is_filling-cons (auth t) steps offset w f =
      (refl, ap (λ n. is_filling n steps) (omega arith) ∙ f, refl)
  is_filling-cons (transfer b o) steps offset w f =
      let size : offset + length (card.store w b ++ []) ≡ offset + 16 =
        omega (arith, ap length (append-nil (card.store w b)), card.block_size b w) in
      (
        ground arith,
        ap (λ n. is_filling n steps) size ∙ ground arith,
        ap (λ t. t ++ contents steps (card.store w)) (sym (append-nil (card.store w b))),
      )

  run_reads_lem :
      (steps : List Statement) (offset : ℕ) (buff : List ℕ) (w : W)
      → is_filling offset steps ≡ true
      → offset + length (contents steps (card.store w)) ≤ length buff
      → let (error, buff', w') = run_reads uno mfrc522 key steps buff w in
        (card.store w' ≡ card.store w)
        × (length buff' ≡ length buff)
        × (error ≡ true
            → take (offset + length (contents steps (card.store w))) buff'
              ≡ take offset buff ++ contents steps (card.store w))
  unfolding run_reads
  run_reads_lem [] offset buff w f h =
      (refl, refl, λ _. ap (λ n. take n buff) (omega arith) ∙ sym (append-nil (take offset buff)))
  run_reads_lem (s ∷ steps) offset buff w f h =
      let r = read_step uno mfrc522 key buff s w in
      let p = is_filling-cons s steps offset w f in
      let first = contents (s ∷ []) (card.store w) in
      let rest = contents steps (card.store w) in
      let cut : length (contents (s ∷ steps) (card.store w)) ≡ length first + length rest =
        ap length p.2 ∙ length-append first rest in
      let one = read_step_lem buff s offset w p.0 (omega (arith, h, cut)) in
      let same : length (contents steps (card.store r.2)) ≡ length rest =
        ap (λ m. length (contents steps m)) one.0 in
      let ih =
        run_reads_lem steps (offset + length first) r.1 r.2 p.1
          (omega (arith, h, cut, one.1, same)) in
      elim (Bool-cases (r.0 == 0)) [
        | inl good ↦ rw good (
          ih.0 ∙ one.0,
          ih.1 ∙ one.1,
          λ e.
              ap (λ n. take n (run_reads uno mfrc522 key steps r.1 r.2).1)
                (omega (arith, cut, same))
              ∙ ih.2 e
              ∙ ap₂ ◌++◌ (one.2 good) (ap (contents steps) one.0)
              ∙ append_assoc (take offset buff) first rest
              ∙ ap (λ t. take offset buff ++ t) (sym p.2),
        )
        | inr bad ↦ rw bad (one.0, one.1, λ e. absurd (cc e))
      ]

  contents-field : (f : Field) (m : Store) → contents (read_steps f) m ≡ field f m
  unfolding read_steps
  contents-field block_name m = refl
  contents-field block_cogn m = refl
  contents-field block_user m = refl
  contents-field block_pass m = refl

  filling : (f : Field) → is_filling 0 (read_steps f) ≡ true
  unfolding read_steps
  filling block_name = refl
  filling block_cogn = refl
  filling block_user = refl
  filling block_pass = refl

  four : (w : W) (a b c d : ℕ) → length (gather (a ∷ b ∷ c ∷ d ∷ []) (card.store w)) ≡ 64
  four w a b c d =
      let m = card.store w in
      omega (
        arith,
        length-append (m a) (gather (b ∷ c ∷ d ∷ []) m),
        length-append (m b) (gather (c ∷ d ∷ []) m),
        length-append (m c) (gather (d ∷ []) m),
        length-append (m d) [],
        card.block_size a w,
        card.block_size b w,
        card.block_size c w,
        card.block_size d w,
      )

  pub length-field : (f : Field) (w : W) → length (field f (card.store w)) ≡ 64
  length-field block_name w = four w 0x04 0x05 0x06 0x08
  length-field block_cogn w = four w 0x09 0x0A 0x0C 0x0D
  length-field block_user w = four w 0x0E 0x10 0x11 0x12
  length-field block_pass w = four w 0x14 0x15 0x16 0x18

  -- Whatever calls of the library fail, `read_blocks` leaves the card and the size of the buffer as
  -- they were; and where the caller finds the value that the function worked out, and that is true,
  -- the first 64 bytes of the buffer are the field that stands on the card.
  pub read_blocks_lem :
      (returned : Bool → W → Bool) (f : Field) (buff : List ℕ) (w : W)
      → ((e : Bool) (v : W) → returned e v ≡ e)
      → 64 ≤ length buff
      → let (answer, buff', w') = read_blocks uno mfrc522 key returned f buff w in
        (card.store w' ≡ card.store w)
        × (length buff' ≡ length buff)
        × (answer ≡ true → take 64 buff' ≡ field f (card.store w))
  unfolding read_blocks
  read_blocks_lem returned f buff w honest h =
      let size = ap length (contents-field f (card.store w)) ∙ length-field f w in
      let r = run_reads_lem (read_steps f) 0 buff w (filling f) (omega (arith, size)) in
      let ends = run_reads uno mfrc522 key (read_steps f) buff w in
      (
        r.0,
        r.1,
        λ e.
            ap (λ n. take n ends.1) {x = 64} (omega (arith, size))
            ∙ r.2 (sym (honest ends.0 ends.2) ∙ e)
            ∙ contents-field f (card.store w),
      )
