-- ===== src/Writer/Card.antt =====
-- What `main` of ArgoRFID-Writer.c puts on a card, and what it leaves in the database.
use secure_rfid_login.Common.{
  ℕ, ◌≡◌, refl, ap, ◌∙◌, Bool-cases, inl, inr, true, none, some, List, ◌∷◌, ◌++◌, append_assoc, pos,
  if◌then◌else◌, length, zeros, ok,
}
use secure_rfid_login.Host.{Host}
use secure_rfid_login.Device.{wait_for_device, wait_serial_number, write_block}
use secure_rfid_login.Device.Block.{Sends, write_block_sent}
use secure_rfid_login.Database.{Mysql, serial_text, is_serial_present, insert_serial}
use secure_rfid_login.Database.Table.{Serves, contains, is_serial_present_lem, insert_serial_rows}
use secure_rfid_login.Crypt.{Aes, encrypt_data, decrypt_data}
use secure_rfid_login.Crypt.Laws.{IsCfb, length-encrypt_data, decrypt_data-encrypt_data}
use secure_rfid_login.Writer.{write_card}

-- A block as it goes to the board: 64 bytes, its number, and 15 zero bytes.
abbrev pub block : (bytes : List ℕ) (number : ℕ) → List ℕ
block bytes number = bytes ++ (number ∷ zeros 15)

abbrev pub four_blocks : (nome cognome enc_username enc_psw : List ℕ) → List ℕ
four_blocks nome cognome enc_username enc_psw =
    block nome 0x30 ++ (block cognome 0x31 ++ (block enc_username 0x32 ++ block enc_psw 0x33))

module _ {W : Type 0} (host : Host W) (port : ℕ) where
  -- The four calls of `write_block`.
  abbrev pub write_all : (nome cognome enc_username enc_psw : List ℕ) → W → W
  write_all nome cognome enc_username enc_psw w = write_block host (pos port) enc_psw 64 0x33 (
      write_block host (pos port) enc_username 64 0x32
        (write_block host (pos port) cognome 64 0x31 (write_block host (pos port) nome 64 0x30 w)))

  write_all_sent :
      (log : Sends host (pos port)) (nome cognome enc_username enc_psw : List ℕ) (w : W)
      → length nome ≡ 64
      → length cognome ≡ 64
      → length enc_username ≡ 64
      → length enc_psw ≡ 64
      → log.sent (write_all nome cognome enc_username enc_psw w)
        ≡ log.sent w ++ four_blocks nome cognome enc_username enc_psw
  write_all_sent log nome cognome enc_username enc_psw w hn hc hu hp =
      let w1 = write_block host (pos port) nome 64 0x30 w in
      let w2 = write_block host (pos port) cognome 64 0x31 w1 in
      let w3 = write_block host (pos port) enc_username 64 0x32 w2 in
      (write_block_sent host (pos port) log enc_psw 64 0x33 w3 hp).0 refl
      ∙ ap (λ t. t ++ block enc_psw 0x33)
          ((write_block_sent host (pos port) log enc_username 64 0x32 w2 hu).0 refl
            ∙ ap (λ t. t ++ block enc_username 0x32)
                ((write_block_sent host (pos port) log cognome 64 0x31 w1 hc).0 refl
                  ∙ ap (λ t. t ++ block cognome 0x31)
                      ((write_block_sent host (pos port) log nome 64 0x30 w hn).0 refl)))
      ∙ joined (log.sent w) (block nome 0x30) (block cognome 0x31) (block enc_username 0x32)
          (block enc_psw 0x33)
    where
      joined : (a b c d e : List ℕ) → (((a ++ b) ++ c) ++ d) ++ e ≡ a ++ (b ++ (c ++ (d ++ e)))
      joined a b c d e =
          append_assoc ((a ++ b) ++ c) d e
          ∙ append_assoc (a ++ b) c (d ++ e)
          ∙ append_assoc a b (c ++ (d ++ e))

module _ {W Context : Type 0} (host : Host W) (db : Mysql W) (aes : Aes Context)
    (static_key random_iv : List ℕ) (cfb : IsCfb aes static_key) (server : Serves db) where
  -- Let the board be found, and let it send the card's serial number after the blocks; the name,
  -- the surname, the user name and the password have 64 bytes. Then the writer comes back; the
  -- board has got the name, the surname and two blocks that decrypt to the user name and the
  -- password, in this order, and the table has the card's text, once more than before only if it
  -- was not there.
  pub write_card_lem :
      (fuel port : ℕ) (answer nome cognome username password serial : List ℕ) (w w1 w6 : W)
      (log : Sends host (pos port))
      → length nome ≡ 64
      → length cognome ≡ 64
      → length username ≡ 64
      → length password ≡ 64
      → let (_, enc_username, enc_psw) =
          encrypt_data aes static_key random_iv username password (zeros 64) (zeros 64) in
        let w5 = write_all host port nome cognome enc_username enc_psw w1 in
        wait_for_device host fuel answer w ≡ some (port, w1)
        → wait_serial_number host fuel (pos port) (zeros 4) w5 ≡ some (serial, w6)
        → (log.sent w5 ≡ log.sent w1 ++ four_blocks nome cognome enc_username enc_psw)
          × (decrypt_data aes static_key random_iv enc_username enc_psw (zeros 64) (zeros 64)
              ≡ (true, username, password))
          × ((w7 : W) × (write_card host db aes static_key random_iv fuel answer nome cognome
                  username password w
                ≡ ok (none, w7))
              × (server.rows w7 ≡ (
                  if contains (serial_text serial) (server.rows w6)
                  then server.rows w6
                  else serial_text serial ∷ server.rows w6)))
  unfolding write_card
  write_card_lem fuel port answer nome cognome username password serial w w1 w6 log hn hc hu hp
        found read =
      let (_, enc_username, enc_psw) =
        encrypt_data aes static_key random_iv username password (zeros 64) (zeros 64) in
      let (encrypted, back) =
        decrypt_data-encrypt_data aes static_key random_iv cfb username password (zeros 64)
          (zeros 64) (zeros 64) (zeros 64) hu hp refl refl refl refl in
      let (size_u, size_p) =
        length-encrypt_data aes static_key random_iv cfb username password (zeros 64) (zeros 64) hu
          hp refl refl in
      let (answered, same) = is_serial_present_lem db server serial w6 in
      let w7 = (is_serial_present db serial w6).1 in
      let inserted = insert_serial_rows db server serial w7 in
      (
        write_all_sent host port log nome cognome enc_username enc_psw w1 hn hc size_u size_p,
        back,
        elim (Bool-cases (contains (serial_text serial) (server.rows w6))) [
          | inl there ↦ (w7, rw (encrypted, found, read, answered, there) refl, rw there same)
          | inr new ↦ (
            (insert_serial db serial w7).1,
            rw (encrypted, found, read, answered, new) refl,
            rw new (inserted ∙ ap (λ t. serial_text serial ∷ t) same),
          )
        ],
      )
