-- ===== src/Tests/Writing.antt =====
-- The writing of a card in ArgoRFID-Writer.c at concrete inputs.
use secure_rfid_login.Common.{
  ℕ, ◌≡◌, refl, true, none, some, List, [], ◌∷◌, ◌++◌, pos, ok, if◌then◌else◌, zeros, replicate,
  codes,
}
use secure_rfid_login.Device.{
  wait_for_device, wait_serial_number, send_chunks, write_block, init_message,
}
use secure_rfid_login.Device.Block.{Sends}
use secure_rfid_login.Database.{serial_text}
use secure_rfid_login.Database.Table.{contains}
use secure_rfid_login.Crypt.{encrypt_data, decrypt_data, dec_cfb}
use secure_rfid_login.Writer.{write_card}
use secure_rfid_login.Writer.Card.{four_blocks, write_all, write_card_lem}
use secure_rfid_login.Tests.World.{
  Sim, sim_host, sim_db, sim-Serves, sim_aes, sim_aes-IsCfb, with_input, text,
}

abbrev number : List ℕ
number = 1 ∷ 2 ∷ 3 ∷ 4 ∷ []

abbrev key : List ℕ
key = replicate 16 7

abbrev enc_username : List ℕ
enc_username = 68 ∷ replicate 63 1

abbrev enc_psw : List ℕ
enc_psw = 69 ∷ replicate 63 1

-- The board answers on COM4 and sends the card's number later.
abbrev start : Sim
start = with_input (codes "OK!\n" ++ number)

abbrev found : Sim
found = record (with_input number) { clock = 1; sent = init_message }

abbrev written : Sim
written = write_all sim_host 3 (text 65) (text 66) enc_username enc_psw found

abbrev read : Sim
read = record written { input = []; clock = 2 }

log : Sends sim_host (pos 3)
log = record { sent = λ w. w.sent; send_sent = λ bytes w. refl; sleep_sent = λ ms w. refl }

board_found : wait_for_device sim_host 5 (zeros 4) start ≡ some (3, found)
unfolding wait_for_device
board_found = refl

number_read : wait_serial_number sim_host 5 (pos 3) (zeros 4) written ≡ some (number, read)
unfolding wait_serial_number write_block send_chunks
number_read = refl

write_card_lem_example :
    (written.sent ≡ init_message ++ four_blocks (text 65) (text 66) enc_username enc_psw)
    × (decrypt_data sim_aes key [] enc_username enc_psw (zeros 64) (zeros 64)
        ≡ (true, text 67, text 68))
    × ((w : Sim) × (write_card sim_host sim_db sim_aes key [] 5
            (zeros 4)
            (text 65)
            (text 66)
            (text 67)
            (text 68)
            start
          ≡ ok (none, w))
        × (sim-Serves.rows w ≡ (
            if contains (serial_text number) (sim-Serves.rows read)
            then sim-Serves.rows read
            else serial_text number ∷ sim-Serves.rows read)))
unfolding log encrypt_data dec_cfb
write_card_lem_example =
    write_card_lem sim_host sim_db sim_aes key [] (sim_aes-IsCfb key) sim-Serves 5 3 (zeros 4)
      (text 65) (text 66) (text 67) (text 68) number start found read log refl refl refl refl
      board_found number_read
