-- ===== src/Tests/Storage.antt =====
-- EncDec.c and DatabaseManager.c at concrete inputs.
use secure_rfid_login.Common.{
  ℕ, ◌+◌, ◌*◌, ◌≡◌, ◌≢◌, refl, true, List, [], ◌∷◌, pos, replicate, if◌then◌else◌, same_bytes,
  arith,
}
use secure_rfid_login.Crypt.{encrypt_data, decrypt_data}
use secure_rfid_login.Crypt.Laws.{decrypt_data-encrypt_data}
use secure_rfid_login.Database.{serial_text, insert_serial, is_serial_present}
use secure_rfid_login.Database.Serial.{is_serial_present_collision}
use secure_rfid_login.Database.Table.{is_serial_present-insert_serial}
use secure_rfid_login.Tests.World.{Sim, sim_db, sim-Serves, sim_aes, sim_aes-IsCfb, with_input}

abbrev user : List ℕ
user = replicate 64 117

abbrev pass : List ℕ
pass = replicate 64 112

abbrev blank : List ℕ
blank = replicate 64 0

abbrev key : List ℕ
key = replicate 16 7

abbrev iv : List ℕ
iv = replicate 16 9

abbrev card : List ℕ
card = 0x0a ∷ 0xbc ∷ 0x12 ∷ 0x34 ∷ []

abbrev other_card : List ℕ
other_card = 0xab ∷ 0x0c ∷ 0x12 ∷ 0x34 ∷ []

abbrev empty : Sim
empty = with_input []

decrypt_data-encrypt_data_example :
    let (ok, cipher_u, cipher_p) = encrypt_data sim_aes key iv user pass blank blank in
    (ok ≡ true) × (decrypt_data sim_aes key iv cipher_u cipher_p blank blank ≡ (true, user, pass))
decrypt_data-encrypt_data_example =
    decrypt_data-encrypt_data sim_aes key iv (sim_aes-IsCfb key) user pass blank blank blank blank
      refl refl refl refl refl refl

is_serial_present_collision_example :
    ◌≢◌ {A = List ℕ}
      (0xa ∷ (16 * 0xb + 0xc) ∷ 0x12 ∷ 0x34 ∷ [])
      ((16 * 0xa + 0xb) ∷ 0xc ∷ 0x12 ∷ 0x34 ∷ [])
    × (is_serial_present sim_db (0xa ∷ (16 * 0xb + 0xc) ∷ 0x12 ∷ 0x34 ∷ []) empty
        ≡ is_serial_present sim_db ((16 * 0xa + 0xb) ∷ 0xc ∷ 0x12 ∷ 0x34 ∷ []) empty)
is_serial_present_collision_example =
    is_serial_present_collision sim_db empty 0xa 0xb 0xc 0x12 0x34 (omega arith) (omega arith)
      (omega arith) (omega arith) (omega arith)

is_serial_present-insert_serial_example :
    (is_serial_present sim_db other_card (insert_serial sim_db card empty).1).0 ≡ (
      if same_bytes (serial_text other_card) (serial_text card)
      then pos 1
      else (is_serial_present sim_db other_card empty).0)
is_serial_present-insert_serial_example =
    is_serial_present-insert_serial sim_db sim-Serves card other_card empty
