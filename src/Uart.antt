-- ===== src/Uart.antt =====
-- app/serial.c and app/ArgoPasswordManager.c: the stand-alone tool, which takes one message from a
-- board on a Linux serial port. The port's system calls stand here as an interface. The printing
-- (app/debug.c) is left out.
pub mod Settings
pub mod Descriptors
use secure_rfid_login.Common.{
  ℕ, ◌+◌, ◌-◌, ◌^◌, Bool, true, false, List, [], ◌∷◌, ◌++◌, ℤ, pos, negsuc, minus_one, is_nonneg,
  eq_ℤ, if◌then◌else◌, ltb, ◌==◌, overwrite, codes,
}
use Prim.Native.Nat.{bit_and, bit_or}

abbrev pub read_length : ℕ
read_length = 129

-- `struct termios`; of the control characters only the two that are set.
pub record Termios : Type 0 where
  pub c_iflag : ℕ
  pub c_oflag : ℕ
  pub c_cflag : ℕ
  pub c_lflag : ℕ
  pub vmin : ℕ
  pub vtime : ℕ
  pub ospeed : ℕ
  pub ispeed : ℕ

-- What serial.c calls of Linux. `read` is its result and the bytes that it has put into the buffer.
pub record Uart (W : Type 0) : Type 0 where
  pub open_uart : W → ℤ × W
  pub tcgetattr : ℤ → W → ℤ × Termios × W
  pub tcsetattr : ℤ → Termios → W → ℤ × W
  pub usleep : ℕ → W → W
  pub tcflush : ℤ → W → W
  pub read : ℤ → ℕ → W → ℤ × List ℕ × W
  pub write : ℤ → List ℕ → W → ℤ × W
  pub close : ℤ → W → ℤ × W

-- `flags &= ~mask`
abbrev pub clear : ℕ → ℕ → ℕ
clear flags mask = flags - bit_and flags mask

-- The settings of `setting_parameters`, in Linux's numbers: B9600; PARENB, CSTOPB, CSIZE, CS8,
-- CRTSCTS, CREAD and CLOCAL; 0.5 is cut down to 0; IXON, IXOFF and IXANY; ICANON, ECHO, ECHOE and
-- ISIG; OPOST.
unfoldable pub settings : Termios → Termios
settings tty = record tty {
  ospeed = 13;
  ispeed = 13;
  c_cflag =
      bit_or (clear (bit_or (clear (clear (clear tty.c_cflag 256) 64) 48) 48) (2 ^ 31))
        (128 + 2048);
  vmin = read_length;
  vtime = 0;
  c_iflag = clear (clear tty.c_iflag (1024 + 4096 + 2048)) (2 + 8 + 16 + 1);
  c_oflag = clear tty.c_oflag 1;
}

module _ {W : Type 0} (uart : Uart W) where
  pub setting_parameters : (usb : ℤ) → W → Bool × W
  unfolding settings
  setting_parameters usb w =
      let (got, tty, w1) = uart.tcgetattr usb w in
      let (put, w2) = uart.tcsetattr usb (settings tty) w1 in
      if eq_ℤ got (pos 0)
      then (if eq_ℤ put (pos 0)
          then (true, uart.tcflush usb (uart.usleep 5000000 w2))
          else (false, w2))
      else (false, w1)

  pub send_on_serial : (usb : ℤ) → W → ℤ × W
  send_on_serial usb w = uart.write usb (codes "INIT\n") w

  -- Nothing calls it.
  pub send_off_serial : (usb : ℤ) → W → ℤ × W
  send_off_serial usb w = uart.write usb (codes "STOP\n") w

  pub close_uart : (usb : ℤ) → W → Bool × W
  close_uart usb w = let (ret, w1) = uart.close usb w in (eq_ℤ ret (pos 0), w1)

  -- The buffer afterwards.
  pub read_serial : (usb : ℤ) (buf : List ℕ) → W → List ℕ × W
  unfolding close_uart
  read_serial usb buf w =
      let (ret, bytes, w1) = uart.read usb read_length w in
      let (closed, w2) = close_uart usb w1 in
      (if is_nonneg ret then overwrite buf bytes else buf, w2)

  pub wait_for_message : (usb : ℤ) (buf : List ℕ) → W → List ℕ × W
  unfolding read_serial
  wait_for_message usb buf w = read_serial usb buf w

  -- `USB > 0`
  abbrev pub is_positive : ℤ → Bool
  is_positive z = if is_nonneg z then (if eq_ℤ z (pos 0) then false else true) else false

  -- `init`
  pub init_serial : W → ℤ × W
  unfolding setting_parameters send_on_serial
  init_serial w =
      let (usb, w1) = uart.open_uart w in
      let (set, w2) = setting_parameters usb w1 in
      let (ret, w3) = send_on_serial usb w2 in
      if is_positive usb
      then (if set then (if is_nonneg ret then (usb, w3) else (minus_one, w3)) else (minus_one, w2))
      else (minus_one, w1)

  pub listen_for_incoming_message : (buf : List ℕ) → W → List ℕ × W
  unfolding init_serial wait_for_message
  listen_for_incoming_message buf w =
      let (usb, w1) = init_serial w in
      if eq_ℤ usb minus_one then (buf, w1) else wait_for_message usb buf w1
