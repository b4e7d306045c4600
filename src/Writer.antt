-- ===== src/Writer.antt =====
-- app/srl-rfid-writer/argoRFID-Writer/ArgoRFID-Writer.c: the program that writes a card. What it
-- prints, and its question whether to show the data again, are left out.
pub mod Typing
pub mod Card
use secure_rfid_login.Common.{
  ℕ, zero, suc, ◌+◌, ◌-◌, Bool, true, false, not, ◌&&◌, ◌||◌, Option, none, some, List, [], ◌∷◌, ℤ,
  pos, minus_one, eq_ℤ, if◌then◌else◌, ltb, ◌==◌, set, zeros, Run, ok, finished, ◌>>=◌,
}
use secure_rfid_login.Host.{Host}
use secure_rfid_login.Device.{wait_for_device, wait_serial_number, write_block}
use secure_rfid_login.Database.{Mysql, insert_serial, is_serial_present}
use secure_rfid_login.Crypt.{Aes, encrypt_data}

abbrev pub max_length : ℕ
max_length = 64

-- The loop of `secure_input` from place `i` on: the buffer, and the keys that are not read. A key is a
-- character, or `none` for EOF; `none` where the keys end and the code waits for another.
unfoldable pub secure_input : List (Option ℕ) → List ℕ → ℕ → Option (List ℕ × List (Option ℕ))
secure_input [] buff i = none
secure_input (none ∷ keys) buff i = some (set buff i 0, keys)
secure_input (some c ∷ keys) buff i =
    let back = (c == 8) && ltb 0 i in
    let rest =
      secure_input keys (if back then set buff (i - 1) 0 else set buff i c)
        (if back then i - 1 else i + 1) in
    if (c == 10) || ((c == 13) || not (ltb i (max_length - 1)))
    then some (set buff i 0, keys)
    else rest

module _ {W Context : Type 0} (host : Host W) (db : Mysql W) (aes : Aes Context)
    (static_key random_iv : List ℕ) where
  -- `main` after the data were typed. The value is `none` where it returns without one.
  pub write_card : ℕ → (answer nome cognome username password : List ℕ) → W → Run (Option ℤ × W)
  write_card fuel answer nome cognome username password w = do
    let (encrypted, enc_username, enc_psw) =
        encrypt_data aes static_key random_iv username password (zeros max_length)
          (zeros max_length)
    if not encrypted then ok (some minus_one, w) else (do
      (port, w1) ← finished (wait_for_device host fuel answer w)
      let w2 = write_block host (pos port) nome max_length 0x30 w1
      let w3 = write_block host (pos port) cognome max_length 0x31 w2
      let w4 = write_block host (pos port) enc_username max_length 0x32 w3
      let w5 = write_block host (pos port) enc_psw max_length 0x33 w4
      (serial, w6) ← finished (wait_serial_number host fuel (pos port) (zeros 4) w5)
      let (present, w7) = is_serial_present db serial w6
      ok (
          if eq_ℤ present (pos 1)
          then (none, w7)
          else if eq_ℤ present (pos 0)
          then (none, (insert_serial db serial w7).1)
          else (some (pos 0), w7)))

  -- `nome`, `cognome` and `username` are what `scanf_s` stored, `none` where it did not return 1.
  pub main :
      ℕ
      → (answer : List ℕ) → (nome cognome username : Option (List ℕ)) → (keys : List (Option ℕ)) → W
      → Run (Option ℤ × W)
  unfolding write_card
  main fuel answer none cognome username keys w = ok (some minus_one, w)
  main fuel answer (some nome) none username keys w = ok (some minus_one, w)
  main fuel answer (some nome) (some cognome) none keys w = ok (some minus_one, w)
  main fuel answer (some nome) (some cognome) (some username) keys w = do
    (password, _) ← finished (secure_input keys (zeros max_length) 0)
    write_card fuel answer nome cognome username password w
