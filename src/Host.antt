-- ===== src/Host.antt =====
-- What ArduinoRFID.c asks of the machine: the functions of rs232.c on Windows, `Sleep` and `time`.
use secure_rfid_login.Common.{ℕ, ◌≤◌, ◌<◌, ◌/◌, ◌≡◌, List, ◌++◌, ℤ, length}

-- `open_comport` returns 0 if the port was opened. `send_buf` returns the number of bytes written, or
-- -1. `poll_comport port size` returns the bytes that it stored, whose number is its C result.
pub record Host (W : Type 0) : Type 0 where
  pub open_comport : ℕ → ℕ → W → ℕ × W
  pub close_comport : ℤ → W → W
  pub send_buf : ℤ → List ℕ → W → ℤ × W
  pub cputs : ℤ → List ℕ → W → W
  pub poll_comport : ℤ → ℕ → W → List ℕ × W
  pub sleep : ℕ → W → W
  pub time : W → ℕ

-- The bytes that the board sends from now on through one port, in order: a poll takes a prefix that is
-- no longer than asked for, and nothing else takes any.
pub record IsStream {W : Type 0} (host : Host W) (port : ℤ) : Type 0 where
  pub input : W → List ℕ
  pub poll_input :
      (n : ℕ) (w : W)
      → let (bytes, w') = host.poll_comport port n w in
        (length bytes ≤ n) × (input w ≡ bytes ++ input w')
  pub sleep_input : (ms : ℕ) (w : W) → input (host.sleep ms w) ≡ input w
  pub cputs_input : (text : List ℕ) (w : W) → input (host.cputs port text w) ≡ input w

-- A clock of `rate` ticks a second that no poll leaves standing.
pub record Ticks {W : Type 0} (host : Host W) (port : ℤ) : Type 0 where
  pub ticks : W → ℕ
  pub rate : ℕ
  pub rate_pos : 0 < rate
  pub time-ticks : (w : W) → host.time w ≡ ticks w / rate
  pub poll_ticks : (n : ℕ) (w : W) → ticks w < ticks (host.poll_comport port n w).1
