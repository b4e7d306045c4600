-- ===== src/Device/Message/Accept.antt =====
-- When `wait_message` of ArduinoRFID.c accepts a message, and what is then in the buffer.
use secure_rfid_login.Common.{
  ℕ, ◌+◌, ◌-◌, ◌≤◌, ◌<◌, ◌≡◌, ◌≢◌, refl, sym, ap, ap₂, subst, ◌∙◌, ◌⊎◌, inl, inr, true, false, ◌&&◌,
  some, Option-cases, some_inj, List, [], ◌∷◌, ◌++◌, ℤ, if◌then◌else◌, ltb, length, drop,
  length-append, take-append-drop, append_cancel, append-nil, drop_all, drop-drop, drop-append_ge,
  arith,
}
use secure_rfid_login.Host.{Host, IsStream}
use secure_rfid_login.Device.{Wait, receive_loop, wait_message, check_blocks}
use secure_rfid_login.Device.Frame.{
  message_size, frame, length-frame, check_blocks-frame, check_blocks-drop,
}
use secure_rfid_login.Device.Message.{Received, receive_loop-Received}

nonempty : (xs : List ℕ) → xs ≢ [] → 0 < length xs
nonempty [] h = absurd (h refl)
nonempty (x ∷ xs) h = omega arith

-- The variables of `wait_message` before its loop.
abbrev pub begin : List ℕ → Wait
begin old = record { buff = old; received = 0; something_arrived = false }

module _ {W : Type 0} (host : Host W) (port : ℤ) (stream : IsStream host port) where
  -- How a call that came back has ended: what arrived, what the buffer holds, and the answer.
  pub record Outcome (timeout : ℕ) (old : List ℕ) (w : W) (answer : ℕ) (buff : List ℕ) (w' : W)
      : Type 0 where
    pub bytes : List ℕ
    pub taken : stream.input w ≡ bytes ++ stream.input w'
    pub bounded : length bytes ≤ message_size
    pub left : buff ≡ bytes ++ drop (length bytes) old
    pub size : length buff ≡ message_size
    pub judged : answer ≡ (if ltb 0 (length bytes) && check_blocks buff then 1 else 0)
    pub reason : (host.time w + timeout ≤ host.time w') ⊎ (length bytes ≡ message_size)

  of_loop :
      (timeout : ℕ) (old : List ℕ) (w : W) (s : Wait) (w' : W)
      → Received host port (host.time w + timeout) message_size stream (begin old) w s w'
      → Outcome timeout old w
          (if s.something_arrived && check_blocks s.buff then 1 else 0)
          s.buff
          w'
  of_loop timeout old w s w' r = record {
    bytes = r.bytes;
    taken = r.taken;
    bounded = omega (arith, r.counted, r.bounded);
    left =
        sym (take-append-drop s.received s.buff)
        ∙ ap₂ ◌++◌ r.stored (r.behind ∙ ap (λ n. drop n old) count);
    size = r.kept_size;
    judged = ground (arith, r.noticed);
    reason = ground (arith, r.reason, count);
  }
    where
      count : s.received ≡ length r.bytes
      count = omega (arith, r.counted)

  -- With a buffer of the right size, `wait_message` stores what arrives, at most the size of a
  -- message, at the start of the buffer, and leaves the bytes behind it as they were. It stops at
  -- the timeout or when the buffer is full, and answers 1 exactly if something arrived and the four
  -- acknowledgement bytes of the buffer are right.
  pub wait_message-Outcome :
      (fuel timeout : ℕ) (old : List ℕ) (w : W) {answer : ℕ} {buff : List ℕ} {w' : W}
      → length old ≡ message_size
      → wait_message host fuel port timeout old message_size w ≡ some (answer, buff, w')
      → Outcome timeout old w answer buff w'
  unfolding wait_message
  wait_message-Outcome fuel timeout old w {answer} {buff} {w'} size e =
      elim (Option-cases
        (receive_loop host fuel port (host.time w + timeout) message_size (begin old) w)) [
          | inl spent ↦ absurd (cc (rw (spent, wait_message) at e))
          | inr ((s, w''), ended) ↦
              let both : ◌≡◌ {A = ℕ × List ℕ × W}
                  (if s.something_arrived && check_blocks s.buff then 1 else 0, s.buff, w'')
                  (answer, buff, w') =
                some_inj _ _ (rw (ended, wait_message) at e) in
              subst (λ t. Outcome timeout old w t.0 t.1 t.2) both
                (of_loop timeout old w s w'' (
                  receive_loop-Received host port (host.time w + timeout) message_size stream fuel
                    (begin old) s w w'' (omega arith) size ended))
        ]

  -- If the board's next bytes are a whole message and the timeout did not come first, the message is
  -- accepted and the buffer holds exactly it, whatever it held before.
  pub wait_message-frame :
      (fuel timeout : ℕ) (old n s u p rest : List ℕ) (w : W) {answer : ℕ} {buff : List ℕ} {w' : W}
      → length old ≡ message_size
      → length n ≡ 64
      → length s ≡ 64
      → length u ≡ 64
      → length p ≡ 64
      → stream.input w ≡ frame n s u p ++ rest
      → wait_message host fuel port timeout old message_size w ≡ some (answer, buff, w')
      → host.time w' < host.time w + timeout
      → (answer ≡ 1) × (buff ≡ frame n s u p) × (stream.input w' ≡ rest)
  wait_message-frame fuel timeout old n s u p rest w {answer} {buff} {w'} size hn hs hu hp inp e
        early =
      let o = wait_message-Outcome fuel timeout old w size e in
      let full : length o.bytes ≡ message_size = ground (arith, o.reason) in
      let cut =
        append_cancel o.bytes (frame n s u p) (full ∙ sym (length-frame n s u p hn hs hu hp))
          (sym o.taken ∙ inp) in
      let whole : buff ≡ frame n s u p =
        o.left ∙ ap₂ ◌++◌ cut.0 (drop_all old (omega arith)) ∙ append-nil (frame n s u p) in
      (
        ground (arith, o.judged, ap check_blocks whole, check_blocks-frame n s u p hn hs hu hp),
        whole,
        cut.1,
      )

  -- The buffer is not cleared between two messages: if it holds a valid message, and a call comes back
  -- that has taken between 1 and 64 bytes from the port, it has accepted them as a message on the
  -- acknowledgement bytes of the earlier one, and everything from the first acknowledgement byte on is
  -- the earlier message, whatever the board sends later.
  pub wait_message_stale :
      (fuel timeout : ℕ) (old : List ℕ) (w : W) {answer : ℕ} {buff : List ℕ} {w' : W}
      → length old ≡ message_size
      → check_blocks old ≡ true
      → wait_message host fuel port timeout old message_size w ≡ some (answer, buff, w')
      → stream.input w ≢ stream.input w'
      → length (stream.input w) < length (stream.input w') + 65
      → (answer ≡ 1) × (drop 64 buff ≡ drop 64 old)
  wait_message_stale fuel timeout old w {answer} {buff} {w'} size valid e some_came few =
      let o = wait_message-Outcome fuel timeout old w size e in
      let short : length o.bytes ≤ 64 =
        omega (arith, ap length o.taken, length-append o.bytes (stream.input w')) in
      let behind : drop 64 buff ≡ drop 64 old =
        ap (drop 64) o.left
        ∙ drop-append_ge o.bytes (drop (length o.bytes) old) 64 short refl
        ∙ drop-drop (64 - length o.bytes) (length o.bytes) old {k = 64} (omega arith) in
      (
        ground (
          arith,
          o.judged,
          nonempty o.bytes (λ z. some_came (o.taken ∙ ap (λ t. t ++ stream.input w') z)),
          check_blocks-drop buff old behind,
        ),
        behind,
      )
