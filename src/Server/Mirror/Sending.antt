-- ===== src/Server/Mirror/Sending.antt =====
-- What the loop of `callback_lws_mirror` sends.
use secure_rfid_login.Common.{
  ℕ, zero, suc, ◌^◌, ◌<◌, ◌≡◌, ◌≢◌, refl, sym, ap, ◌∙◌, Bool, true, false, some, List, [], ◌∷◌,
  ◌++◌, append_assoc, append-nil, ℤ, pos, if◌then◌else◌, ◌==◌, le→ltb_false, Bool-cases, inl, inr,
  length, minus_one, arith, some_inj, subst,
}
use secure_rfid_login.Server.{Connection}
use secure_rfid_login.Server.Mirror.{
  Mirror, backlog, advance, payload_at, lt_size, write_loop, mirror_writeable,
}
use secure_rfid_login.Server.Mirror.Queue.{IsRing, queued, pending, advance_in, backlog-advance}

module _ {W : Type 0} (wsi : Connection W) where
  -- The world after one message was written and the flow was allowed again.
  abbrev after : Mirror → ℕ → W → W
  after m tail w =
      let w1 = (wsi.write (payload_at m.ringbuffer tail) w).1 in
      if backlog m.head (advance tail) == 17 then wsi.rx_flow_allow_all w1 else w1

  moved : (m : Mirror) (tail : ℕ) → IsRing m tail → IsRing m (advance tail)
  moved m tail r = record {
    size = r.size;
    head_in = r.head_in;
    tail_in = advance_in tail r.tail_in;
  }

  write_loop_ends :
      (fuel : ℕ) (m : Mirror) (tail : ℕ) (w : W)
      → IsRing m tail
      → backlog m.head tail < fuel
      → (r : ℤ × ℕ × W) × (write_loop wsi fuel m tail w ≡ some r)
  unfolding write_loop
  write_loop_ends zero m tail w r enough = absurd (omega arith)
  write_loop_ends (suc fuel) m tail w r enough =
      let payload = payload_at m.ringbuffer tail in
      let (n, w1) = wsi.write payload w in
      let w2 = after m tail w in
      elim (Bool-cases (tail == m.head)) [
        | inl empty ↦ ((pos 0, tail, w), rw empty)
        | inr more ↦
            let apart : tail ≢ m.head = λ e. ground (arith, e, more) in
            let rest =
              write_loop_ends fuel m (advance tail) w2 (moved m tail r)
                (omega (arith, backlog-advance m.head tail r.head_in r.tail_in apart)) in
            elim (Bool-cases (lt_size n (length payload))) [
              | inl short ↦ ((minus_one, tail, w1), rw (more, short))
              | inr whole ↦ elim (Bool-cases (wsi.send_pipe_choked w2)) [
                | inl choked ↦
                    ((pos 0, advance tail, wsi.callback_on_writable w2), rw (more, whole, choked))
                | inr free ↦ (rest.0, rw (more, whole, free) rest.1)
              ]
            ]
      ]

  -- On a well-formed ring the sending callback comes back, whatever the connection does: the 32 rounds
  -- of fuel are enough.
  pub mirror_writeable_ends :
      (close_testing : Bool) (m : Mirror) (tail : ℕ) (w : W)
      → IsRing m tail
      → (r : ℤ × ℕ × W) × (mirror_writeable wsi close_testing m tail w ≡ some r)
  unfolding mirror_writeable
  mirror_writeable_ends true m tail w r = ((pos 0, tail, w), refl)
  mirror_writeable_ends false m tail w r = write_loop_ends 32 m tail w r (omega arith)

-- A connection that writes every message whole, and what it has written.
pub record Writes {W : Type 0} (wsi : Connection W) : Type 0 where
  pub written : W → List (List ℕ)
  pub write_all : (bytes : List ℕ) (w : W) → (wsi.write bytes w).0 ≡ pos (length bytes)
  pub write_written :
      (bytes : List ℕ) (w : W) → written (wsi.write bytes w).1 ≡ written w ++ (bytes ∷ [])
  pub allow_written : (w : W) → written (wsi.rx_flow_allow_all w) ≡ written w
  pub writable_written : (w : W) → written (wsi.callback_on_writable w) ≡ written w

module _ {W : Type 0} (wsi : Connection W) (log : Writes wsi) (m : Mirror) where
  -- How a call that came back has ended.
  pub record Progress (tail : ℕ) (w : W) (value : ℤ) (tail' : ℕ) (w' : W) : Type 0 where
    pub messages : List (List ℕ)
    pub no_error : value ≡ pos 0
    pub ring : IsRing m tail'
    pub sent : log.written w' ≡ log.written w ++ messages
    pub taken : pending m tail ≡ messages ++ pending m tail'

  nothing : (tail : ℕ) (w : W) → IsRing m tail → Progress tail w (pos 0) tail w
  nothing tail w r = record {
    messages = [];
    no_error = refl;
    ring = r;
    sent = sym (append-nil (log.written w));
    taken = refl;
  }

  -- One message more in front.
  one_more :
      (tail : ℕ) (w w2 : W) {value : ℤ} {tail' : ℕ} {w' : W}
      → IsRing m tail
      → tail ≢ m.head
      → log.written w2 ≡ log.written w ++ (payload_at m.ringbuffer tail ∷ [])
      → Progress (advance tail) w2 value tail' w'
      → Progress tail w value tail' w'
  one_more tail w w2 r apart first p = record {
    messages = payload_at m.ringbuffer tail ∷ p.messages;
    no_error = p.no_error;
    ring = p.ring;
    sent =
        p.sent
        ∙ ap (λ t. t ++ p.messages) first
        ∙ append_assoc (log.written w) (payload_at m.ringbuffer tail ∷ []) p.messages;
    taken =
        ap (queued m.ringbuffer tail) (backlog-advance m.head tail r.head_in r.tail_in apart)
        ∙ ap (λ t. payload_at m.ringbuffer tail ∷ t) p.taken;
  }

  after_written :
      (tail : ℕ) (w : W)
      → log.written (after wsi m tail w) ≡ log.written w ++ (payload_at m.ringbuffer tail ∷ [])
  after_written tail w = ground (
    arith,
    log.write_written (payload_at m.ringbuffer tail) w,
    log.allow_written (wsi.write (payload_at m.ringbuffer tail) w).1,
  )

  whole_write :
      (tail : ℕ) (w : W)
      → lt_size
          (wsi.write (payload_at m.ringbuffer tail) w).0
          (length (payload_at m.ringbuffer tail))
        ≡ false
  whole_write tail w = rw (log.write_all (payload_at m.ringbuffer tail) w) (
      le→ltb_false (length (payload_at m.ringbuffer tail)) (length (payload_at m.ringbuffer tail))
        (omega arith))

  write_loop-Progress :
      (fuel : ℕ) (tail : ℕ) (w : W) {value : ℤ} {tail' : ℕ} {w' : W}
      → IsRing m tail
      → write_loop wsi fuel m tail w ≡ some (value, tail', w')
      → Progress tail w value tail' w'
  unfolding write_loop
  write_loop-Progress zero tail w r e = cc
  write_loop-Progress (suc fuel) tail w {value} {tail'} {w'} r e =
      let w2 = after wsi m tail w in
      elim (Bool-cases (tail == m.head)) [
        | inl empty ↦
            let all : ◌≡◌ {A = ℤ × ℕ × W} (pos 0, tail, w) (value, tail', w') =
              some_inj _ _ (rw empty at e) in
            subst (λ t. Progress tail w t.0 t.1 t.2) all (nothing tail w r)
        | inr more ↦
            let apart : tail ≢ m.head = λ d. ground (arith, d, more) in
            elim (Bool-cases (wsi.send_pipe_choked w2)) [
              | inl choked ↦
                  let all : ◌≡◌ {A = ℤ × ℕ × W} (pos 0, advance tail, wsi.callback_on_writable w2)
                      (value, tail', w') =
                    some_inj _ _ (rw (more, whole_write tail w, choked) at e) in
                  subst (λ t. Progress tail w t.0 t.1 t.2) all
                    (one_more tail w (wsi.callback_on_writable w2) r apart
                      (log.writable_written w2 ∙ after_written tail w)
                      (nothing (advance tail) (wsi.callback_on_writable w2) (moved wsi m tail r)))
              | inr free ↦ one_more tail w w2 r apart (after_written tail w) (
                  write_loop-Progress fuel (advance tail) w2 (moved wsi m tail r)
                    (rw (more, whole_write tail w, free) at e))
            ]
      ]

  -- On a connection that writes every message whole, the callback sends a first part of the session's
  -- queue, in order, leaves the rest pending, and reports no error.
  pub mirror_writeable-Progress :
      (close_testing : Bool) (tail : ℕ) (w : W) {value : ℤ} {tail' : ℕ} {w' : W}
      → IsRing m tail
      → mirror_writeable wsi close_testing m tail w ≡ some (value, tail', w')
      → Progress tail w value tail' w'
  unfolding mirror_writeable
  mirror_writeable-Progress true tail w {value} {tail'} {w'} r e =
      let all : ◌≡◌ {A = ℤ × ℕ × W} (pos 0, tail, w) (value, tail', w') = some_inj _ _ e in
      subst (λ t. Progress tail w t.0 t.1 t.2) all (nothing tail w r)
  mirror_writeable-Progress false tail w r e = write_loop-Progress 32 tail w r e

module _ {W : Type 0} (wsi : Connection W) (m : Mirror) where
  write_loop_failed :
      (fuel : ℕ) (tail : ℕ) (w : W) {value : ℤ} {tail' : ℕ} {w' : W}
      → ((bytes : List ℕ) (v : W) → (wsi.write bytes v).0 ≡ minus_one)
      → ((i : ℕ) → length (payload_at m.ringbuffer i) < 2 ^ 32)
      → ((v : W) → wsi.send_pipe_choked v ≡ false)
      → write_loop wsi fuel m tail w ≡ some (value, tail', w')
      → (value ≡ pos 0) × (tail' ≡ m.head)
  unfolding write_loop
  write_loop_failed zero tail w fails short free e = cc
  write_loop_failed (suc fuel) tail w {value} {tail'} {w'} fails short free e =
      let payload = payload_at m.ringbuffer tail in
      let unnoticed : lt_size (wsi.write payload w).0 (length payload) ≡ false =
        rw (fails payload w) (ground (arith, short tail)) in
      elim (Bool-cases (tail == m.head)) [
        | inl empty ↦
            let all : ◌≡◌ {A = ℤ × ℕ × W} (pos 0, tail, w) (value, tail', w') =
              some_inj _ _ (rw empty at e) in
            ground (arith, all, empty)
        | inr more ↦
            write_loop_failed fuel (advance tail) (after wsi m tail w) fails short free
              (rw (more, unnoticed, free (after wsi m tail w)) at e)
      ]

  -- The value -1 of a failed write is taken for a large size: on a connection on which every write
  -- fails and that is never choked, with messages of fewer than 2 ^ 32 bytes, the callback reports no
  -- error and counts everything as sent.
  pub mirror_writeable_failed :
      (tail : ℕ) (w : W) {value : ℤ} {tail' : ℕ} {w' : W}
      → ((bytes : List ℕ) (v : W) → (wsi.write bytes v).0 ≡ minus_one)
      → ((i : ℕ) → length (payload_at m.ringbuffer i) < 2 ^ 32)
      → ((v : W) → wsi.send_pipe_choked v ≡ false)
      → mirror_writeable wsi false m tail w ≡ some (value, tail', w')
      → (value ≡ pos 0) × (tail' ≡ m.head)
  unfolding mirror_writeable
  mirror_writeable_failed tail w fails short free e = write_loop_failed 32 tail w fails short free e
