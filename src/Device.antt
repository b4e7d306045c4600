-- ===== src/Device.antt =====
-- app/libwebsockets-master/srl/ArduinoRFID.c (and its copy in app/srl-rfid-writer/argoRFID-Writer):
-- the serial protocol with the Arduino board. The serial port is rs232.c's, a vendored library, and
-- stands here with the clock as an interface over a state `W` of the world. What the code prints is
-- left out. A `while` loop takes fuel; `none` means that the fuel ran out.

pub mod Discovery
pub mod KeepAlive
pub mod Frame
pub mod Message
pub mod Serial
pub mod Block
use secure_rfid_login.Common.{
  ℕ, zero, suc, ◌+◌, ◌-◌, ◌*◌, Bool, true, false, ◌&&◌, Option, none, some, List, [], ◌∷◌, ℤ, pos,
  minus_one, eq_ℤ, if◌then◌else◌, ltb, ◌==◌, length, get_or, set, take, slice, zeros, overwrite,
  write_at, c_str, same_bytes, codes, value_or,
}
use secure_rfid_login.Host.{Host}

abbrev pub max_message_length : ℕ
max_message_length = 64

abbrev pub response_buffer_length : ℕ
response_buffer_length = 2

abbrev pub serial_length : ℕ
serial_length = 4

abbrev pub ka_received : ℤ
ka_received = pos 0

abbrev pub ss_received : ℤ
ss_received = pos 1

abbrev pub baud_rate : ℕ
baud_rate = 115200

abbrev pub setup_wait : ℕ
setup_wait = 4000

abbrev pub init_message : List ℕ
init_message = 73 ∷ 78 ∷ 73 ∷ 84 ∷ 10 ∷ []

-- The variables of `wait_for_device`; `answer` is its buffer `OK`.
pub record Scan : Type 0 where
  pub port_number : ℕ
  pub port_discovered : Bool
  pub answer : List ℕ

-- The variables of `wait_message`.
pub record Wait : Type 0 where
  pub buff : List ℕ
  pub received : ℕ
  pub something_arrived : Bool

-- `compare_keep_alive`; `none` where it ends with no `return`.
pub compare_keep_alive : List ℕ → Option ℤ
compare_keep_alive response =
    if (get_or response 0 0 == b'K') && (get_or response 1 0 == b'A')
    then some ka_received
    else if (get_or response 0 0 == b'S') && (get_or response 1 0 == b'S')
    then some ss_received
    else none

-- The `switch` of `receive_keep_alive`.
pub classify_response : ℤ → ℤ
classify_response v =
    if eq_ℤ v ka_received
    then ka_received
    else if eq_ℤ v ss_received
    then ss_received
    else minus_one

pub check_message : List ℕ → ℕ → Bool
check_message buffer ack_byte = get_or buffer 64 0 == ack_byte

-- The four tests at the end of `wait_message`, on the pointers `&buff[0]` to `&buff[195]`.
pub check_blocks : List ℕ → Bool
unfolding check_message
check_blocks buff =
    check_message (slice 0 65 buff) 0x30
    && (check_message (slice 65 65 buff) 0x31
        && (check_message (slice 130 65 buff) 0x32 && check_message (slice 195 65 buff) 0x33))

-- What a round of the loop of `wait_message` does with the bytes that arrived.
pub absorb : List ℕ → Wait → Wait
absorb bytes s =
    if ltb 0 (length bytes)
    then record {
      buff = write_at s.buff s.received bytes;
      received = s.received + length bytes;
      something_arrived = true;
    }
    else s

module _ {W : Type 0} (host : Host W) where
  -- The port is open: send INIT and wait for OK!. On a refusal the number is raised before the port is
  -- closed.
  probe : Scan → W → Scan × W
  probe s w =
      let port = s.port_number in
      let (sent, w1) = host.send_buf (pos port) init_message (host.sleep setup_wait w) in
      let (bytes, w2) = host.poll_comport (pos port) 4 (host.sleep 100 w1) in
      let answer = overwrite s.answer bytes in
      let answer' = set answer 3 0 in
      if eq_ℤ sent (pos 1)
      then (s, host.close_comport (pos port) w1)
      else if ltb 0 (length bytes)
      then if same_bytes (c_str answer') (codes "OK!")
        then (record s { port_discovered = true; answer = answer' }, host.sleep 500 w2)
        else (
          record s { port_number = port + 1; answer = answer' },
          host.close_comport (pos (port + 1)) w2,
        )
      else (
        record s { port_number = port + 1; answer = answer },
        host.close_comport (pos (port + 1)) w2,
      )

  -- One round of the loop of `wait_for_device`.
  pub scan_step : Scan → W → Scan × W
  unfolding probe
  scan_step s w =
      let (failed, w1) = host.open_comport s.port_number baud_rate w in
      let (s', w2) =
        if failed == 0 then probe s w1 else (record s { port_number = s.port_number + 1 }, w1) in
      let port = if s'.port_number == 16 then 0 else s'.port_number in
      (record s' { port_number = port }, host.sleep 100 w2)

  pub scan_loop : ℕ → Scan → W → Option (ℕ × W)
  scan_loop zero s w = none
  scan_loop (suc fuel) s w =
      let next = scan_step s w in
      let rest = scan_loop fuel next.0 next.1 in
      if s.port_discovered then some (s.port_number, w) else rest

  -- `answer` is what the uninitialised buffer `OK` holds.
  unfoldable pub wait_for_device : ℕ → (answer : List ℕ) → W → Option (ℕ × W)
  unfolding scan_loop scan_step
  wait_for_device fuel answer w =
      scan_loop fuel (record { port_number = 0; port_discovered = false; answer = answer }) w

  pub serial_loop : ℕ → ℤ → ℕ → List ℕ → W → Option (List ℕ × W)
  serial_loop zero port received buffer w = none
  serial_loop (suc fuel) port received buffer w =
      let polled = host.poll_comport port (serial_length - received) w in
      let rest =
        serial_loop fuel port (received + length polled.0) (write_at buffer received polled.0)
          (host.sleep 10 polled.1) in
      if ltb received serial_length then rest else some (buffer, w)

  unfoldable pub wait_serial_number : ℕ → ℤ → List ℕ → W → Option (List ℕ × W)
  unfolding serial_loop
  wait_serial_number fuel port buffer w = serial_loop fuel port 0 buffer w

  unfoldable pub send_keep_alive : ℤ → W → W
  send_keep_alive port w = host.cputs port (codes "HEY!") w

  -- The value, the buffer `response_buffer`, and the world. `garbage` is what the caller finds where
  -- `compare_keep_alive` ends with no `return`.
  unfoldable pub receive_keep_alive : (garbage : ℤ) → ℤ → List ℕ → W → ℤ × List ℕ × W
  unfolding compare_keep_alive classify_response
  receive_keep_alive garbage port response w =
      let (bytes, w') = host.poll_comport port response_buffer_length w in
      let value = value_or garbage (compare_keep_alive (overwrite response bytes)) in
      (classify_response value, zeros response_buffer_length, w')

  -- The `n` rounds from `i` on of the loop of `write_block`.
  unfoldable pub send_chunks : ℕ → ℕ → ℤ → List ℕ → W → W
  send_chunks zero i port my_block w = w
  send_chunks (suc n) i port my_block w =
      let (_, w') = host.send_buf port (slice (i * 16) 16 my_block) (host.sleep 500 w) in
      send_chunks n (i + 1) port my_block w'

  unfoldable pub write_block : ℤ → List ℕ → ℕ → ℕ → W → W
  write_block port block len block_num w =
      let my_block = set (write_at (zeros 80) 0 (take len block)) 64 block_num in
      if len == 64 then host.sleep 500 (send_chunks 5 0 port my_block w) else w

  pub receive_loop : ℕ → ℤ → (end_time buff_length : ℕ) → Wait → W → Option (Wait × W)
  receive_loop zero port end_time buff_length s w = none
  receive_loop (suc fuel) port end_time buff_length s w =
      let polled = host.poll_comport port (buff_length - s.received) w in
      let rest = receive_loop fuel port end_time buff_length (absorb polled.0 s) polled.1 in
      if ltb (host.time w) end_time && ltb s.received buff_length then rest else some (s, w)

  -- The value (1 for a valid message), the buffer, and the world.
  unfoldable pub wait_message :
      ℕ → ℤ → (timeout : ℕ) → List ℕ → (buff_length : ℕ) → W → Option (ℕ × List ℕ × W)
  unfolding receive_loop absorb check_blocks
  wait_message fuel port timeout buff buff_length w =
      let start : Wait = record { buff = buff; received = 0; something_arrived = false } in
      let ended = receive_loop fuel port (host.time w + timeout) buff_length start w in
      if buff_length == max_message_length * 4 + 4
      then elim ended [
        | none ↦ none
        | some (s, w') ↦
            some (if s.something_arrived && check_blocks s.buff then 1 else 0, s.buff, w')
      ]
      else some (0, buff, w)
