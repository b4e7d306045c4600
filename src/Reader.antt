-- ===== src/Reader.antt =====
-- app/libwebsockets-master/srl/ArgoRFID_Reader.c: the thread that keeps in touch with the reader
-- board, takes the data of a card from it, and hands the credentials to the server thread.
pub mod Fields
pub mod Card
use secure_rfid_login.Common.{
  ℕ, zero, suc, ◌+◌, ◌*◌, Bool, true, false, none, some, List, [], ◌∷◌, ◌++◌, ℤ, pos, minus_one,
  eq_ℤ, if◌then◌else◌, ltb, ◌==◌, Run, ok, fault, out_of_fuel, ◌>>=◌, finished, in_bounds, length,
  take, slice, zeros, overwrite, strlen, strcpy, strcat, c_str, codes, Option,
}
use secure_rfid_login.Host.{Host}
use secure_rfid_login.Device.{
  max_message_length, ss_received, wait_for_device, wait_serial_number, send_keep_alive,
  receive_keep_alive, wait_message,
}
use secure_rfid_login.Database.{Mysql, is_serial_present}
use secure_rfid_login.Crypt.{Aes, decrypt_data}

abbrev pub timeout : ℕ
timeout = 10

abbrev pub buff_length : ℕ
buff_length = max_message_length * 4 + 4

-- The fields of Windows' NOTIFYICONDATA that the program sets after the icon was added.
pub record Notification : Type 0 where
  pub flags : ℕ
  pub info : List ℕ
  pub info_title : List ℕ
  pub info_flags : ℕ

-- The globals of ArgoRFID_Reader.c and of ArduinoRFID.c, and the locals of `start_rfid_reader`
-- (`enc_username`, `enc_password`, `serialnumber`).
pub record Reader : Type 0 where
  pub port : ℤ
  pub response_buffer : List ℕ
  pub buff : List ℕ
  pub name : List ℕ
  pub surname : List ℕ
  pub username : List ℕ
  pub password : List ℕ
  pub is_data_present : Bool
  pub notification : Notification
  pub enc_username : List ℕ
  pub enc_password : List ℕ
  pub serialnumber : List ℕ

-- Windows' shell: `Shell_NotifyIcon(NIM_MODIFY, ...)` and `system`.
pub record Desktop (W : Type 0) : Type 0 where
  pub modify_icon : Notification → W → W
  pub system : List ℕ → W → W

abbrev pub info_title : List ℕ
info_title = codes "Tag detected! Starting Firefox..." ++ 0 ∷ []

abbrev pub start_command : List ℕ
start_command = codes "START firefox https://www.portaleargo.it/argoweb/home.seam"

-- NIF_ICON | NIF_MESSAGE | NIF_TIP | NIF_INFO | NIF_STATE
abbrev pub notify_flags : ℕ
notify_flags = 2 + 1 + 4 + 16 + 8

-- The shape of `get_name`, `get_surname`, `get_username` and `get_password`: the result and the
-- caller's buffer, for the global that the function copies.
pub get_field : Bool → List ℕ → List ℕ → Run (ℤ × List ℕ)
get_field present field dst =
    if present
    then (do
      n ← in_bounds (strlen field)
      ok (
          if ltb max_message_length n
          then (minus_one, dst)
          else (pos n, overwrite dst (c_str field ++ 0 ∷ []))))
    else ok (minus_one, dst)

unfoldable pub get_name : Reader → List ℕ → Run (ℤ × List ℕ)
unfolding get_field
get_name g dst = get_field g.is_data_present g.name dst

unfoldable pub get_surname : Reader → List ℕ → Run (ℤ × List ℕ)
unfolding get_field
get_surname g dst = get_field g.is_data_present g.surname dst

unfoldable pub get_username : Reader → List ℕ → Run (ℤ × List ℕ)
unfolding get_field
get_username g dst = get_field g.is_data_present g.username dst

unfoldable pub get_password : Reader → List ℕ → Run (ℤ × List ℕ)
unfolding get_field
get_password g dst = get_field g.is_data_present g.password dst

pub clean_data : Reader → Reader
clean_data g = record g {
  name = zeros max_message_length;
  surname = zeros max_message_length;
  username = zeros max_message_length;
  password = zeros max_message_length;
}

-- The `memset`s and `memcpy`s that take the four blocks out of `buff`.
unfoldable pub load_fields : Reader → Reader
load_fields g = record g {
  name = overwrite (zeros max_message_length) (slice 0 max_message_length g.buff);
  surname = overwrite (zeros max_message_length) (slice 65 max_message_length g.buff);
  username = zeros max_message_length;
  password = zeros max_message_length;
  enc_username = overwrite g.enc_username (slice 130 max_message_length g.buff);
  enc_password = overwrite g.enc_password (slice 195 max_message_length g.buff);
}

module _ {W : Type 0} (host : Host W) where
  unfoldable pub close_rfid_reader : Reader → W → Reader × W
  close_rfid_reader g w = (record g { port = minus_one }, host.close_comport minus_one w)

module _ {W : Type 0} (desktop : Desktop W) where
  -- `strcat(name, surname)` leaves the joined text in `name`.
  pub send_info_notification : Reader → W → Run (Reader × W)
  send_info_notification g w = do
    name ← in_bounds (strcat g.name g.surname)
    info ← in_bounds (strcpy g.notification.info name)
    title ← in_bounds (strcpy g.notification.info_title info_title)
    let n : Notification = record {
      flags = notify_flags;
      info = info;
      info_title = title;
      info_flags = 1;
    }
    ok (record g { name = name; notification = n }, desktop.modify_icon n w)

module _ {W Context : Type 0} (db : Mysql W) (desktop : Desktop W) (aes : Aes Context)
    (static_key random_iv : List ℕ) where
  -- After the serial number: the check in the database, and what follows it.
  unfoldable pub check_card : Reader → W → Run (Reader × W)
  check_card g w = do
    let (present, w1) = is_serial_present db g.serialnumber w
    let (_, username, password) =
        decrypt_data aes static_key random_iv g.enc_username g.enc_password g.username g.password
    let g1 = record g { is_data_present = true; username = username; password = password }
    if eq_ℤ present (pos 1)
        then (do
          (g2, w2) ← send_info_notification desktop g1 w1
          ok (g2, desktop.system start_command w2))
        else ok (g, w1)

module _ {W Context : Type 0} (host : Host W) (db : Mysql W) (desktop : Desktop W)
    (aes : Aes Context) (static_key random_iv : List ℕ) where
  -- The branch of the loop for an announced message (SS).
  pub take_message : ℕ → Reader → W → Run (Reader × W)
  unfolding check_card load_fields
  take_message fuel g w = do
    (answer, buff, w1) ← finished (wait_message host fuel g.port timeout g.buff buff_length w)
    let g1 = record g { is_data_present = false; buff = buff }
    if answer == 1
        then (do
          (serial, w2) ← finished (wait_serial_number host fuel g1.port g1.serialnumber w1)
          check_card db desktop aes static_key random_iv
              (load_fields (record g1 { serialnumber = serial })) w2)
        else ok (g1, w1)

module _ {W Context : Type 0} (host : Host W) (db : Mysql W) (desktop : Desktop W)
    (aes : Aes Context) (static_key random_iv : List ℕ) (garbage : ℤ) where
  -- One round of the loop of `start_rfid_reader`.
  pub round : ℕ → Reader → W → Run (Reader × W)
  unfolding take_message
  round fuel g w = do
    let w1 = send_keep_alive host g.port w
    let (answer, response, w2) = receive_keep_alive host garbage g.port g.response_buffer w1
    let g1 = record g { response_buffer = response }
    (g2, w3) ←
        if eq_ℤ answer ss_received
        then take_message host db desktop aes static_key random_iv fuel g1 w2
        else ok (g1, w2)
    ok (g2, host.sleep 1000 w3)

  -- `while(port != -1)`, at most so many rounds.
  pub reader_loop : ℕ → ℕ → Reader → W → Run (Reader × W)
  reader_loop zero fuel g w = out_of_fuel
  reader_loop (suc rounds) fuel g w =
      let next : Run (Reader × W) = round fuel g w >>= λ (g', w'). reader_loop rounds fuel g' w' in
      if eq_ℤ g.port minus_one then ok (g, w) else next

  pub start_rfid_reader : ℕ → ℕ → List ℕ → Notification → Reader → W → Run (Reader × W)
  start_rfid_reader rounds fuel answer notify g w = do
    (port, w1) ← finished (wait_for_device host fuel answer w)
    reader_loop rounds fuel (record g { port = pos port; notification = notify }) w1
