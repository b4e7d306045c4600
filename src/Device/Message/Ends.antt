-- ===== src/Device/Message/Ends.antt =====
-- The loop of `wait_message` of ArduinoRFID.c ends at its timeout, since the clock goes on.
use secure_rfid_login.Common.{
  ℕ, zero, suc, ◌+◌, ◌*◌, ◌-◌, ◌≤◌, ◌<◌, ◌≡◌, ◌&&◌, inl, inr, some, Option-cases, List, ℤ, ltb,
  Bool-cases, arith,
}
use secure_rfid_login.Host.{Host, Ticks}
use secure_rfid_login.Device.{Wait, absorb, receive_loop, wait_message}
use secure_rfid_login.Device.Frame.{message_size}
use secure_rfid_login.Device.Message.Accept.{begin}

module _ {W : Type 0} (host : Host W) (port : ℤ) (clock : Ticks host port) where
  -- Past this many ticks the timeout is over.
  over : (end_time : ℕ) (w : W) → clock.rate * end_time ≤ clock.ticks w → end_time ≤ host.time w
  over end_time w h = grind (arith, clock.time-ticks w, clock.rate_pos)

  receive_loop_ends :
      (fuel end_time len : ℕ) (s : Wait) (w : W)
      → clock.rate * end_time - clock.ticks w < fuel
      → (r : Wait × W) × (receive_loop host fuel port end_time len s w ≡ some r)
  unfolding receive_loop
  receive_loop_ends zero end_time len s w h = absurd (omega arith)
  receive_loop_ends (suc fuel) end_time len s w h =
      elim (Bool-cases (ltb (host.time w) end_time && ltb s.received len)) [
        | inl more ↦
            let polled = host.poll_comport port (len - s.received) w in
            let r =
              receive_loop_ends fuel end_time len (absorb polled.0 s) polled.1
                (ground (arith, over end_time w, clock.poll_ticks (len - s.received) w)) in
            (r.0, rw more r.1)
        | inr done ↦ ((s, w), rw done)
      ]

  -- On a clock that every poll moves on, with a round of fuel for each tick until the timeout, and one
  -- more, `wait_message` comes back, whatever arrives.
  pub wait_message_ends :
      (fuel timeout : ℕ) (old : List ℕ) (w : W)
      → clock.rate * (host.time w + timeout) - clock.ticks w < fuel
      → (r : ℕ × List ℕ × W) × (wait_message host fuel port timeout old message_size w ≡ some r)
  unfolding wait_message
  wait_message_ends fuel timeout old w h =
      let ended = receive_loop_ends fuel (host.time w + timeout) message_size (begin old) w h in
      elim (Option-cases (wait_message host fuel port timeout old message_size w)) [
        | inl spent ↦ cc (rw (ended.1, wait_message) at spent)
        | inr r ↦ r
      ]
