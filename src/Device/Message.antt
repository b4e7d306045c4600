-- ===== src/Device/Message.antt =====
-- The loop of `wait_message` of ArduinoRFID.c: what it takes from the port and leaves in the buffer.
pub mod Accept
pub mod Ends
use secure_rfid_login.Common.{
  ℕ, zero, suc, ◌+◌, ◌-◌, ◌≤◌, ◌≡◌, refl, sym, ap, subst, ◌∙◌, ◌⊎◌, inl, inr, false, ◌&&◌, ◌||◌,
  some, List, [], ◌∷◌, ◌++◌, append_assoc, append-nil, ℤ, ltb, Bool-cases, length, take, drop,
  length-append, length-write_at, take-write_at, drop-write_at, write_at, write_at-nil, arith,
}
use secure_rfid_login.Host.{Host, IsStream}
use secure_rfid_login.Device.{Wait, absorb, receive_loop}

absorb_lem :
    (bytes : List ℕ) (s : Wait)
    → ((absorb bytes s).received ≡ s.received + length bytes)
      × ((absorb bytes s).buff ≡ write_at s.buff s.received bytes)
      × ((absorb bytes s).something_arrived ≡ (s.something_arrived || ltb 0 (length bytes)))
unfolding absorb
absorb_lem [] s = ground (arith, write_at-nil s.buff s.received)
absorb_lem (b ∷ bytes) s = ground arith

module _ {W : Type 0} (host : Host W) (port : ℤ) (end_time len : ℕ) where
  -- What the loop has done when it ends at `s'` and `w'`, started at `s` and `w`.
  pub record Received (stream : IsStream host port) (s : Wait) (w : W) (s' : Wait) (w' : W)
      : Type 0 where
    pub bytes : List ℕ
    pub taken : stream.input w ≡ bytes ++ stream.input w'
    pub counted : s'.received ≡ s.received + length bytes
    pub bounded : s'.received ≤ len
    pub kept_size : length s'.buff ≡ len
    pub stored : take s'.received s'.buff ≡ take s.received s.buff ++ bytes
    pub behind : drop s'.received s'.buff ≡ drop s'.received s.buff
    pub noticed : s'.something_arrived ≡ (s.something_arrived || ltb 0 (length bytes))
    pub reason : (end_time ≤ host.time w') ⊎ (s'.received ≡ len)

  module _ (stream : IsStream host port) where
    -- A loop that ends at once.
    stop :
        (s : Wait) (w : W)
        → s.received ≤ len
        → length s.buff ≡ len
        → (ltb (host.time w) end_time && ltb s.received len) ≡ false
        → Received stream s w s w
    stop s w h k e = record {
      bytes = [];
      taken = refl;
      counted = omega arith;
      bounded = h;
      kept_size = k;
      stored = sym (append-nil (take s.received s.buff));
      behind = refl;
      noticed = ground arith;
      reason = ground arith;
    }

    -- A round before the rest of the loop.
    go_on :
        (s s' : Wait) (w w' : W)
        → s.received ≤ len
        → length s.buff ≡ len
        → (let (bytes, w1) = host.poll_comport port (len - s.received) w in
            Received stream (absorb bytes s) w1 s' w')
        → Received stream s w s' w'
    go_on s s' w w' h k r = record {
      bytes = now ++ r.bytes;
      taken = p.1 ∙ ap (λ t. now ++ t) r.taken ∙ sym (append_assoc now r.bytes (stream.input w'));
      counted = omega (arith, r.counted, a.0, length-append now r.bytes);
      bounded = r.bounded;
      kept_size = r.kept_size;
      stored =
          r.stored
          ∙ ap (λ t. t ++ r.bytes) prefix
          ∙ append_assoc (take s.received s.buff) now r.bytes;
      behind =
          r.behind
          ∙ ap (drop s'.received) a.1
          ∙ drop-write_at s.buff now s.received (omega (arith, r.counted, a.0));
      noticed = ground (arith, r.noticed, a.2, length-append now r.bytes);
      reason = r.reason;
    }
      where
        now : List ℕ
        now = (host.poll_comport port (len - s.received) w).0

        p :
            (length now ≤ len - s.received)
            × (stream.input w ≡ now ++ stream.input (host.poll_comport port (len - s.received) w).1)
        p = stream.poll_input (len - s.received) w

        a :
            ((absorb now s).received ≡ s.received + length now)
            × ((absorb now s).buff ≡ write_at s.buff s.received now)
            × ((absorb now s).something_arrived ≡ (s.something_arrived || ltb 0 (length now)))
        a = absorb_lem now s

        prefix : take (absorb now s).received (absorb now s).buff ≡ take s.received s.buff ++ now
        prefix =
            ap (take (absorb now s).received) a.1
            ∙ take-write_at s.buff now s.received (omega (arith, p.0)) a.0

    pub receive_loop-Received :
        (fuel : ℕ) (s s' : Wait) (w w' : W)
        → s.received ≤ len
        → length s.buff ≡ len
        → receive_loop host fuel port end_time len s w ≡ some (s', w')
        → Received stream s w s' w'
    unfolding receive_loop
    receive_loop-Received zero s s' w w' h k e = cc
    receive_loop-Received (suc fuel) s s' w w' h k e =
        elim (Bool-cases (ltb (host.time w) end_time && ltb s.received len)) [
          | inl more ↦
              let polled = host.poll_comport port (len - s.received) w in
              go_on s s' w w' h k (
                receive_loop-Received fuel (absorb polled.0 s) s' polled.1 w'
                  (omega (arith, absorb_lem polled.0 s, stream.poll_input (len - s.received) w))
                  (ap length (absorb_lem polled.0 s).1
                    ∙ length-write_at s.buff s.received polled.0
                    ∙ k)
                  (rw more at e))
          | inr done ↦
              let both : ◌≡◌ {A = Wait × W} (s, w) (s', w') = ground (arith, rw done at e) in
              subst (λ t. Received stream s w t.0 t.1) both (stop s w h k done)
        ]
