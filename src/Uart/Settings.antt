-- ===== src/Uart/Settings.antt =====
-- What the stand-alone tool sets on its port.
use secure_rfid_login.Common.{ℕ, ◌≡◌, refl, true, ℤ, pos, ap, ◌∙◌}
use secure_rfid_login.Uart.{Termios, Uart, settings, setting_parameters, read_length}

-- A port with its attributes: it can be read and set, and only `tcsetattr` changes them.
pub record HasAttributes {W : Type 0} (uart : Uart W) (usb : ℤ) : Type 0 where
  pub attributes : W → Termios
  pub gets :
      (w : W)
      → let (got, tty, w') = uart.tcgetattr usb w in
        (got ≡ pos 0) × (tty ≡ attributes w) × (attributes w' ≡ attributes w)
  pub sets :
      (tty : Termios) (w : W)
      → let (put, w') = uart.tcsetattr usb tty w in (put ≡ pos 0) × (attributes w' ≡ tty)
  pub sleeps : (us : ℕ) (w : W) → attributes (uart.usleep us w) ≡ attributes w
  pub flushes : (w : W) → attributes (uart.tcflush usb w) ≡ attributes w

module _ {W : Type 0} (uart : Uart W) (usb : ℤ) (a : HasAttributes uart usb) where
  -- On a port whose attributes can be read and set, `setting_parameters` succeeds; reads then wait
  -- for 129 bytes with no limit of time, and the local modes are those that the port had before:
  -- the line discipline and the echo are left as they were.
  pub setting_parameters_lem :
      (w : W)
      → let (set, w') = setting_parameters uart usb w in
        (set ≡ true)
        × ((a.attributes w').c_lflag ≡ (a.attributes w).c_lflag)
        × ((a.attributes w').vmin ≡ read_length)
        × ((a.attributes w').vtime ≡ 0)
  unfolding setting_parameters settings
  setting_parameters_lem w =
      let (got, tty, w1) = uart.tcgetattr usb w in
      let (got_ok, tty_eq, same) = a.gets w in
      let (put, w2) = uart.tcsetattr usb (settings tty) w1 in
      let (put_ok, new) = a.sets (settings tty) w1 in
      let last = a.flushes (uart.usleep 5000000 w2) ∙ a.sleeps 5000000 w2 ∙ new in
      rw (got_ok, put_ok)
        (
          refl,
          ap (λ t. t.c_lflag) last ∙ ap (λ t. t.c_lflag) tty_eq,
          ap (λ t. t.vmin) last,
          ap (λ t. t.vtime) last,
        )
