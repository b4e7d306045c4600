-- ===== src/Device/Serial.antt =====
-- `wait_serial_number` of ArduinoRFID.c: it reads exactly four bytes, and has no timeout.
use secure_rfid_login.Common.{
  ℕ, zero, suc, ◌+◌, ◌-◌, ◌≤◌, ◌≡◌, refl, sym, ap, subst, ◌∙◌, inl, inr, none, some, List, [], ◌++◌,
  append_assoc, append-nil, ℤ, Bool-cases, some_inj, ltb, lt→ltb, length, take, take_all, write_at,
  length-write_at, take-write_at, arith,
}
use secure_rfid_login.Host.{Host, IsStream}
use secure_rfid_login.Device.{serial_loop, wait_serial_number, serial_length}

module _ {W : Type 0} (host : Host W) (port : ℤ) where
  -- What the loop has read.
  record Read (stream : IsStream host port) (received : ℕ) (buffer : List ℕ) (w : W) (out : List ℕ)
      (w' : W) : Type 0 where
    bytes : List ℕ
    taken : stream.input w ≡ bytes ++ stream.input w'
    stored : out ≡ take received buffer ++ bytes

  serial_loop-Read :
      (stream : IsStream host port) (fuel received : ℕ) (buffer : List ℕ) (w : W) {out : List ℕ}
      {w' : W}
      → received ≤ serial_length
      → length buffer ≡ serial_length
      → serial_loop host fuel port received buffer w ≡ some (out, w')
      → Read stream received buffer w out w' × (length out ≡ serial_length)
  unfolding serial_loop
  serial_loop-Read stream zero received buffer w h k e = cc
  serial_loop-Read stream (suc fuel) received buffer w {out} {w'} h k e =
      elim (Bool-cases (ltb received serial_length)) [
        | inl more ↦
            let polled = host.poll_comport port (serial_length - received) w in
            let p = stream.poll_input (serial_length - received) w in
            let r =
              serial_loop-Read stream fuel (received + length polled.0)
                (write_at buffer received polled.0) (host.sleep 10 polled.1) (omega (arith, p.0))
                (length-write_at buffer received polled.0 ∙ k) (rw more at e) in
            (
              record {
                bytes = polled.0 ++ r.0.bytes;
                taken =
                    p.1
                    ∙ ap (λ t. polled.0 ++ t) (sym (stream.sleep_input 10 polled.1) ∙ r.0.taken)
                    ∙ sym (append_assoc polled.0 r.0.bytes (stream.input w'));
                stored =
                    r.0.stored
                    ∙ ap (λ t. t ++ r.0.bytes)
                        (take-write_at buffer polled.0 received (omega (arith, p.0)) refl)
                    ∙ append_assoc (take received buffer) polled.0 r.0.bytes;
              },
              r.1,
            )
        | inr done ↦
            let both : ◌≡◌ {A = List ℕ × W} (buffer, w) (out, w') = some_inj _ _ (rw done at e) in
            subst (λ t. Read stream received buffer w t.0 t.1 × (length t.0 ≡ serial_length)) both
              (
                record {
                  bytes = [];
                  taken = refl;
                  stored = sym (append-nil (take received buffer) ∙ take_all buffer (ground arith));
                },
                k,
              )
      ]

  -- If `wait_serial_number` comes back, the buffer holds the next four bytes of the port, and no more
  -- are taken.
  pub wait_serial_number_lem :
      (stream : IsStream host port) (fuel : ℕ) (buffer : List ℕ) (w : W) {out : List ℕ} {w' : W}
      → length buffer ≡ serial_length
      → wait_serial_number host fuel port buffer w ≡ some (out, w')
      → (stream.input w ≡ out ++ stream.input w') × (length out ≡ serial_length)
  unfolding wait_serial_number
  wait_serial_number_lem stream fuel buffer w {w' = w'} k e =
      let r = serial_loop-Read stream fuel 0 buffer w (omega arith) k e in
      (r.0.taken ∙ ap (λ t. t ++ stream.input w') (sym r.0.stored), r.1)

  silent_loop :
      (fuel received : ℕ) (buffer : List ℕ) (w : W)
      → ((n : ℕ) (v : W) → (host.poll_comport port n v).0 ≡ [])
      → suc received ≤ serial_length
      → serial_loop host fuel port received buffer w ≡ none
  unfolding serial_loop
  silent_loop zero received buffer w quiet h = refl
  silent_loop (suc fuel) received buffer w quiet h =
      let polled = host.poll_comport port (serial_length - received) w in
      let none_came = quiet (serial_length - received) w in
      let rest =
        silent_loop fuel (received + 0) (write_at buffer received []) (host.sleep 10 polled.1) quiet
          (omega arith) in
      rw (lt→ltb received serial_length h, none_came) rest

  -- If no more bytes come, it never comes back, however long it runs.
  pub wait_serial_number_silent :
      (fuel : ℕ) (buffer : List ℕ) (w : W)
      → ((n : ℕ) (v : W) → (host.poll_comport port n v).0 ≡ [])
      → wait_serial_number host fuel port buffer w ≡ none
  unfolding wait_serial_number
  wait_serial_number_silent fuel buffer w quiet = silent_loop fuel 0 buffer w quiet (omega arith)
