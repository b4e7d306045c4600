-- ===== src/Board/Writing/Receive.antt =====
-- The loop of argoRFID_Writer.ino on what has come in.
use secure_rfid_login.Common.{
  ℕ, zero, suc, ◌+◌, ◌<◌, ◌≡◌, refl, sym, ap, subst, ◌∙◌, inl, inr, some, List, [], ◌∷◌, ◌++◌,
  append_assoc, append-nil, Bool-cases, length, take, ltb, ltb→lt, arith,
}
use secure_rfid_login.Board.{Uno, Mfrc522}
use secure_rfid_login.Board.Layout.{put}
use secure_rfid_login.Board.Writing.{Board, receive_message}
use secure_rfid_login.Board.Writing.Collect.{Queue, Holds, Collects, more, whole, complete, refused}
use secure_rfid_login.Board.Writing.Bytes.{none_left, some_left, collect_byte, collect_block}

module _ {W : Type 0} (uno : Uno W) (mfrc522 : Mfrc522 W) (queue : Queue uno) where
  idle :
      (fuel drain : ℕ) (s : Board) (w : W)
      → queue.pending w ≡ []
      → 0 < fuel
      → receive_message uno mfrc522 fuel drain s w ≡ some (s, w)
  unfolding receive_message
  idle zero drain s w e h = absurd (omega arith)
  idle (suc fuel) drain s w e h = rw (none_left uno mfrc522 queue w e) refl

  -- The rounds that follow a byte.
  pub Collects-step :
      (blocks : ℕ → List ℕ) (all : List ℕ) (s s1 s' : Board)
      → s1.num_of_block ≡ s.num_of_block
      → s1.connection_done ≡ s.connection_done
      → s1.block_ready ≡ s.block_ready
      → Collects blocks all s1 s'
      → Collects blocks all s s'
  Collects-step blocks all s s1 s' k c r (more l h k' c' r') = more l h (k' ∙ k) (c' ∙ c) (r' ∙ r)
  Collects-step blocks all s s1 s' k c r (whole l g n h k' c' r') =
      whole l (g ∙ ap (λ t. t + 0x30) k) (λ e. n (k ∙ e))
        (subst (λ t. Holds (put t (take 64 all) blocks) [] s') k h) (k' ∙ ap (λ t. t + 1) k)
        (c' ∙ c) (r' ∙ r)
  Collects-step blocks all s s1 s' k c r (complete l g n f h k' c' r') =
      complete l g (sym k ∙ n) f h k' (c' ∙ c) r'
  Collects-step blocks all s s1 s' k c r (refused l g h k' c' r') =
      refused l (λ e. g (e ∙ ap (λ t. t + 0x30) (sym k))) h (k' ∙ k) c' (r' ∙ r)

  receive_message-burst :
      (fuel drain : ℕ) (blocks : ℕ → List ℕ) (got burst : List ℕ) (s : Board) (w : W)
      → Holds blocks got s
      → queue.capacity < drain
      → queue.pending w ≡ burst
      → length burst < fuel
      → (s' : Board) × (w' : W) × (receive_message uno mfrc522 fuel drain s w ≡ some (s', w'))
        × (queue.pending w' ≡ [])
        × Collects blocks (got ++ burst) s s'
  unfolding receive_message
  receive_message-burst zero drain blocks got burst s w h room e l = absurd (omega arith)
  receive_message-burst (suc fuel) drain blocks got [] s w h room e l = (
    s,
    w,
    rw (none_left uno mfrc522 queue w e) refl,
    e,
    subst (λ t. Collects blocks t s s) (sym (append-nil got)) (more h.bound h refl refl refl),
  )
  receive_message-burst (suc fuel) drain blocks got (b ∷ rest) s w h room e l =
      elim (Bool-cases (ltb (length got) 64)) [
        | inl less ↦
            let r = queue.read_pending w e in
            let c =
              collect_byte uno mfrc522 queue drain blocks got s w h (ltb→lt (length got) 64 less)
                e in
            let ih =
              receive_message-burst fuel drain blocks (got ++ b ∷ []) rest c.0 (uno.read w).1 c.2
                room r.2 (omega arith) in
            (
              ih.0,
              ih.1,
              rw (some_left uno mfrc522 queue w e, c.1) ih.2,
              ih.3,
              subst (λ t. Collects blocks t s ih.0) (append_assoc got (b ∷ []) rest)
                  (Collects-step blocks ((got ++ b ∷ []) ++ rest) s c.0 ih.0 c.3 c.4 c.5 ih.4),
            )
        | inr last ↦
            let full : length got ≡ 64 = ground (arith, h.bound) in
            let c = collect_block uno mfrc522 queue drain blocks got rest s w h full room e in
            (
              c.0,
              c.1,
              rw (some_left uno mfrc522 queue w e, c.2) (idle fuel drain c.0 c.1 c.3 (omega arith)),
              c.3,
              c.4,
            )
      ]

  -- From any state that holds up to 64 bytes of a block, the loop of the writer's board, with fuel
  -- for what its receive buffer holds, comes back with nothing left to read, and does with the
  -- bytes that came in what Collects says: a block of up to 64 bytes is kept as it grows; at the
  -- byte behind it, it is taken over if that is its number, with the message complete at the
  -- fourth block, and otherwise the board wants a new handshake but keeps the number of the block;
  -- whatever came in behind that byte is dropped.
  pub receive_message-Collects :
      (fuel : ℕ) (blocks : ℕ → List ℕ) (got : List ℕ) (s : Board) (w : W)
      → Holds blocks got s
      → queue.capacity < fuel
      → (s' : Board) × (w' : W) × (receive_message uno mfrc522 fuel fuel s w ≡ some (s', w'))
        × (queue.pending w' ≡ [])
        × Collects blocks (got ++ queue.pending w) s s'
  receive_message-Collects fuel blocks got s w h room =
      receive_message-burst fuel fuel blocks got (queue.pending w) s w h room refl
        (omega (arith, room, queue.bounded w))
