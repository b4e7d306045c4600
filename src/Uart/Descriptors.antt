-- ===== src/Uart/Descriptors.antt =====
-- The descriptors that the stand-alone tool opens and closes.
use secure_rfid_login.Common.{
  ℕ, ◌≡◌, Bool, Bool-cases, inl, inr, refl, true, false, List, ℤ, minus_one, is_nonneg, eq_ℤ,
  if◌then◌else◌, codes, arith,
}
use secure_rfid_login.Uart.{
  Termios, Uart, settings, setting_parameters, send_on_serial, close_uart, read_serial,
  wait_for_message, init_serial, listen_for_incoming_message, read_length,
}

-- Which descriptors the process holds open: `open` opens the one that it returns, if it returns none
-- below 0; `close` closes the one that it is given; no other call opens or closes any.
pub record HoldsDescriptors {W : Type 0} (uart : Uart W) : Type 0 where
  pub is_open : ℤ → W → Bool
  pub open_opens :
      (q : ℤ) (w : W)
      → let (usb, w') = uart.open_uart w in
        is_nonneg usb ≡ true → is_open q w' ≡ (if eq_ℤ q usb then true else is_open q w)
  pub get_keeps : (q usb : ℤ) (w : W) → is_open q (uart.tcgetattr usb w).2 ≡ is_open q w
  pub set_keeps :
      (q usb : ℤ) (tty : Termios) (w : W) → is_open q (uart.tcsetattr usb tty w).1 ≡ is_open q w
  pub sleep_keeps : (q : ℤ) (us : ℕ) (w : W) → is_open q (uart.usleep us w) ≡ is_open q w
  pub flush_keeps : (q usb : ℤ) (w : W) → is_open q (uart.tcflush usb w) ≡ is_open q w
  pub read_keeps : (q usb : ℤ) (n : ℕ) (w : W) → is_open q (uart.read usb n w).2 ≡ is_open q w
  pub write_keeps :
      (q usb : ℤ) (bytes : List ℕ) (w : W) → is_open q (uart.write usb bytes w).1 ≡ is_open q w
  pub close_closes :
      (q usb : ℤ) (w : W)
      → is_open q (uart.close usb w).1 ≡ (if eq_ℤ q usb then false else is_open q w)

module _ {W : Type 0} (uart : Uart W) (c : HoldsDescriptors uart) where
  setting_keeps :
      (q usb : ℤ) (w : W) → c.is_open q (setting_parameters uart usb w).1 ≡ c.is_open q w
  unfolding setting_parameters
  setting_keeps q usb w =
      let (got, tty, w1) = uart.tcgetattr usb w in
      let w2 = (uart.tcsetattr usb (settings tty) w1).1 in
      ground (
        arith,
        c.get_keeps q usb w,
        c.set_keeps q usb (settings tty) w1,
        c.sleep_keeps q 5000000 w2,
        c.flush_keeps q usb (uart.usleep 5000000 w2),
      )

  -- `init` closes nothing: the descriptor that `open` returned is open afterwards, also where `init`
  -- then fails.
  init_opens :
      (q : ℤ) (w : W)
      → is_nonneg (uart.open_uart w).0 ≡ true
      → c.is_open q (init_serial uart w).1
        ≡ (if eq_ℤ q (uart.open_uart w).0 then true else c.is_open q w)
  unfolding init_serial send_on_serial
  init_opens q w h =
      let (usb, w1) = uart.open_uart w in
      let w2 = (setting_parameters uart usb w1).1 in
      ground
        (arith, c.open_opens q w h, setting_keeps q usb w1, c.write_keeps q usb (codes "INIT\n") w2)

  -- If `init` succeeds, it returns the descriptor that `open` returned.
  init_returns :
      (w : W)
      → eq_ℤ (init_serial uart w).0 minus_one ≡ false
      → (init_serial uart w).0 ≡ (uart.open_uart w).0
  unfolding init_serial
  init_returns w h = ground arith

  -- Let `open` return a descriptor. If `init` succeeds, that descriptor is closed when the tool has
  -- listened; if `init` fails, it is open. Every other descriptor is open
  -- exactly if it was before.
  pub listen_for_incoming_message_descriptors :
      (q : ℤ) (buf : List ℕ) (w : W)
      → is_nonneg (uart.open_uart w).0 ≡ true
      → c.is_open q (listen_for_incoming_message uart buf w).1 ≡ (
          if eq_ℤ q (uart.open_uart w).0
          then eq_ℤ (init_serial uart w).0 minus_one
          else c.is_open q w)
  unfolding listen_for_incoming_message wait_for_message read_serial close_uart
  listen_for_incoming_message_descriptors q buf w h =
      let (usb, w1) = init_serial uart w in
      let w2 = (uart.read usb read_length w1).2 in
      elim (Bool-cases (eq_ℤ usb minus_one)) [
        | inl failed ↦ rw (failed, init_opens q w h) refl
        | inr ready ↦
            rw
              (
                ready,
                c.close_closes q usb w2,
                c.read_keeps q usb read_length w1,
                init_opens q w h,
                init_returns w ready,
              )
              (ground arith)
      ]
