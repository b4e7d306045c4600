-- ===== src/Tests/Cards.antt =====
-- ArgoRFID_Reader.c at concrete inputs.
use secure_rfid_login.Common.{
  ℕ, ◌+◌, ◌≤◌, ◌<◌, ◌≡◌, refl, some, List, [], ◌∷◌, ◌++◌, pos, ok, fault, zeros, c_str, codes,
  arith,
}
use secure_rfid_login.Device.{wait_message, wait_serial_number}
use secure_rfid_login.Device.Frame.{frame}
use secure_rfid_login.Reader.{Reader, send_info_notification, check_card, take_message}
use secure_rfid_login.Reader.Fields.{send_info_notification_lem}
use secure_rfid_login.Reader.Card.{
  Checked, Taken, IsSized, check_card-Checked, check_card_ok, take_message-Taken,
}
use secure_rfid_login.Tests.World.{
  Sim, sim_host, sim_stream, sim_db, sim_aes, sim_desktop, with_input, text, waiting,
}

send_info_notification_lem_example :
    let shown = send_info_notification sim_desktop waiting (with_input []) in
    (64 ≤ 1 + 1 → shown ≡ fault)
    × (1 + 1 < 64
        → (r : Reader × Sim) × (shown ≡ ok r)
          × (c_str r.0.name ≡ c_str waiting.name ++ c_str waiting.surname)
          × (r.1 ≡ sim_desktop.modify_icon r.0.notification (with_input []))
          × (c_str r.0.notification.info ≡ c_str waiting.name ++ c_str waiting.surname)
          × (c_str r.0.notification.info_title ≡ codes "Tag detected! Starting Firefox...")
          × (r.0.notification.flags ≡ 31)
          × (r.0.notification.info_flags ≡ 1))
send_info_notification_lem_example =
    send_info_notification_lem sim_desktop waiting (with_input []) 1 1 refl refl refl (omega arith)
      (omega arith)

abbrev number : List ℕ
number = 1 ∷ 2 ∷ 3 ∷ 4 ∷ []

abbrev message : List ℕ
message = frame (text 65) (text 66) (text 67) (text 68)

abbrev announced : Sim
announced = with_input (message ++ (number ++ []))

abbrev no_key : List ℕ
no_key = []

whole_message :
    wait_message sim_host 50 (pos 3) 10 (zeros 260) 260 announced
    ≡ some (1, message, record (with_input number) { clock = 1 })
unfolding wait_message
whole_message = refl

four_bytes :
    wait_serial_number sim_host 50 (pos 3) (zeros 4) (record (with_input number) { clock = 1 })
    ≡ some (number, record (with_input []) { clock = 2 })
unfolding wait_serial_number
four_bytes = refl

waiting-IsSized : IsSized sim_host sim_db sim_desktop sim_aes no_key no_key waiting
waiting-IsSized = record {
  buff = refl;
  enc_username = refl;
  enc_password = refl;
  serialnumber = refl;
}

take_message-Taken_example :
    (r : Reader × Sim) × (take_message sim_host sim_db sim_desktop sim_aes no_key no_key 50 waiting
        announced
      ≡ ok r)
    × Taken sim_host sim_db sim_desktop sim_aes no_key no_key (text 67) (text 68) number r.0
take_message-Taken_example =
    take_message-Taken sim_host sim_db sim_desktop sim_aes no_key no_key waiting
      (sim_stream (pos 3)) 50 (text 65) (text 66) (text 67) (text 68) number [] announced
      waiting-IsSized refl refl refl refl refl refl refl (omega arith) (omega arith) (omega arith)
      refl whole_message (omega arith) four_bytes

-- The table holds the card whose serial number is four zero bytes.
abbrev known : Sim
known = record (with_input []) { rows = codes "0000" ∷ [] }

known_card :
    (r : Reader × Sim) × (check_card sim_db sim_desktop sim_aes no_key no_key waiting known ≡ ok r)
known_card =
    check_card_ok sim_db sim_desktop sim_aes no_key no_key waiting known 1 1 refl refl refl
      (omega arith) (omega arith) (omega arith)

check_card-Checked_example :
    Checked sim_db sim_desktop sim_aes no_key no_key waiting known_card.0.0 known
check_card-Checked_example =
    check_card-Checked sim_db sim_desktop sim_aes no_key no_key waiting known_card.0.0 known
      known_card.0.1 known_card.1
