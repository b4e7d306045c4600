-- ===== src/Tests/SerialPort.antt =====
-- ArduinoRFID.c at concrete inputs: a board on COM4.
use secure_rfid_login.Common.{
  ltb, ◌&&◌, same_bytes, ◌≤◌, true, length, ℕ, ◌≡◌, refl, some, List, [], ◌∷◌, ◌++◌, ℤ, pos,
  replicate, drop, zeros, codes, if◌then◌else◌, ◌==◌, arith,
}
use secure_rfid_login.Host.{Host}
use secure_rfid_login.Device.{wait_for_device, wait_serial_number, wait_message}
use secure_rfid_login.Device.Frame.{frame, check_blocks-frame}
use secure_rfid_login.Device.Message.Accept.{
  Outcome, wait_message-Outcome, wait_message-frame, wait_message_stale,
}
use secure_rfid_login.Device.Message.Ends.{wait_message_ends}
use secure_rfid_login.Device.Discovery.{IsFirstAt, wait_for_device_finds}
use secure_rfid_login.Tests.World.{Sim, sim_host, sim_stream, sim_ticks, with_input}

abbrev com_4 : ℤ
com_4 = pos 3

abbrev field : ℕ → List ℕ
field c = replicate 64 c

-- A whole message, and the four bytes of a serial number behind it.
abbrev message : List ℕ
message = frame (field 65) (field 66) (field 67) (field 68)

abbrev number : List ℕ
number = 1 ∷ 2 ∷ 3 ∷ 4 ∷ []

abbrev announced : Sim
announced = with_input (message ++ number)

-- After the message was taken.
abbrev taken : Sim
taken = record (with_input number) { clock = 1 }

whole_message :
    wait_message sim_host 50 com_4 10 (zeros 260) 260 announced ≡ some (1, message, taken)
unfolding wait_message
whole_message = refl

wait_message-Outcome_example :
    Outcome sim_host com_4 (sim_stream com_4) 10 (zeros 260) announced 1 message taken
wait_message-Outcome_example =
    wait_message-Outcome sim_host com_4 (sim_stream com_4) 50 10 (zeros 260) announced refl
      whole_message

wait_message-frame_example : (◌≡◌ {A = ℕ} 1 1) × (message ≡ message) × (number ≡ number)
wait_message-frame_example =
    wait_message-frame sim_host com_4 (sim_stream com_4) 50 10 (zeros 260) (field 65) (field 66)
      (field 67) (field 68) number announced refl refl refl refl refl refl whole_message
      (omega arith)

-- Two stray bytes after a whole message.
abbrev stray : Sim
stray = with_input (9 ∷ 9 ∷ [])

abbrev stale : List ℕ
stale = 9 ∷ 9 ∷ drop 2 message

wait_message-stray :
    wait_message sim_host 50 com_4 10 message 260 stray
    ≡ some (1, stale, record (with_input []) { clock = 40 })
unfolding wait_message
wait_message-stray = refl

wait_message_stale_example : (◌≡◌ {A = ℕ} 1 1) × (drop 64 stale ≡ drop 64 message)
wait_message_stale_example =
    wait_message_stale sim_host com_4 (sim_stream com_4) 50 10 message stray refl
      (check_blocks-frame (field 65) (field 66) (field 67) (field 68) refl refl refl refl)
      wait_message-stray (λ e. cc) (omega arith)

wait_message_ends_example :
    (r : ℕ × List ℕ × Sim) × (wait_message sim_host 41 com_4 10 (zeros 260) 260 stray ≡ some r)
wait_message_ends_example =
    wait_message_ends sim_host com_4 (sim_ticks com_4) 41 10 (zeros 260) stray (omega arith)

four_bytes :
    wait_serial_number sim_host 5 com_4 (zeros 4) (with_input number)
    ≡ some (number, record (with_input []) { clock = 1 })
unfolding wait_serial_number
four_bytes = refl

-- A machine with the board on COM4, as a number: 0 closed, 1 starting, 2 listening, 3 replying.
abbrev board_open : ℕ → ℕ → ℕ × ℕ
board_open p v = if p == 3 then (0, 1) else (1, v)

abbrev board_sleep : ℕ → ℕ → ℕ
board_sleep ms v = if v == 1 then (if ltb ms 4000 then 1 else 2) else v

abbrev board_send : ℤ → List ℕ → ℕ → ℤ × ℕ
board_send port bytes v =
    (pos (length bytes), if v == 2 && same_bytes bytes (codes "INIT\n") then 3 else v)

abbrev board_poll : ℤ → ℕ → ℕ → List ℕ × ℕ
board_poll port n v = if v == 3 then (codes "OK!", 2) else ([], v)

abbrev starting_host : Host ℕ
starting_host = record {
  open_comport = λ p b v. board_open p v;
  close_comport = λ port v. 0;
  send_buf = board_send;
  cputs = λ port text v. v;
  poll_comport = board_poll;
  sleep = board_sleep;
  time = λ v. 0;
}

board_starts : (ms v : ℕ) → 4000 ≤ ms → (board_sleep ms (board_open 3 v).1 == 2) ≡ true
board_starts ms v h = ground arith

board_hears :
    (v : ℕ)
    → (v == 2) ≡ true
    → let (sent, v') = board_send com_4 (codes "INIT\n") v in (sent ≡ pos 5) × ((v' == 3) ≡ true)
board_hears v h = rw h (refl, refl)

com_4-IsFirstAt : IsFirstAt starting_host 3
com_4-IsFirstAt = record {
  listening = λ v. v == 2;
  replying = λ v. v == 3;
  closed = λ q v h. ground arith;
  opens = λ v. refl;
  starts = board_starts;
  hears = board_hears;
  waits = λ ms v h. ground arith;
  answers = λ v h. rw h refl;
}

wait_for_device_finds_example :
    (v : ℕ) × (wait_for_device starting_host 5 (zeros 4) 0 ≡ some (3, v))
wait_for_device_finds_example =
    wait_for_device_finds starting_host 5 3 (zeros 4) 0 com_4-IsFirstAt (omega arith) refl
      (omega arith)
