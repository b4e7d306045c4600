-- ===== src/Board.antt =====
-- arduino/argoRFID_Reader and arduino/argoRFID_Writer: the sketches of the two boards, and the
-- MifareRFID.h and MifareRFID.cpp that both have (the two copies are the same). The Arduino core and
-- the MFRC522 library stand here as two interfaces over a state `W` of the board. Sounds and lights
-- are left out; the delays between them are kept.
pub mod Mifare
pub mod Layout
pub mod Reading
pub mod Sending
pub mod Writing
pub mod Fields
pub mod Passage
pub mod Way
use secure_rfid_login.Common.{
  ℕ, zero, suc, ◌+◌, ◌-◌, ◌/◌, ◌%◌, Bool, true, false, not, Option, none, some, List, [], ◌∷◌, ◌++◌,
  ℤ, pos, negsuc, minus_one, if◌then◌else◌, ltb, ◌==◌, codes,
}

-- `Serial` and `delay`. `available` is the number of bytes that wait, `read` the next of them or -1,
-- `find` reads on until the text has come or a second is over. `print` is `Serial.print` and
-- `Serial.write` of bytes, `print_hex` is `Serial.print(n, HEX)`.
pub record Uno (W : Type 0) : Type 0 where
  pub available : W → ℕ
  pub read : W → ℤ × W
  pub find : List ℕ → W → Bool × W
  pub print : List ℕ → W → W
  pub println : List ℕ → W → W
  pub print_hex : ℕ → W → W
  pub delay : ℕ → W → W

-- `MFRC522`, with the card in front of it. The functions that talk to the card give a status;
-- `mifare_read` also gives the bytes it stored.
pub record Mfrc522 (W : Type 0) : Type 0 where
  pub status_ok : ℕ
  pub status_name : ℕ → List ℕ
  pub uid : W → List ℕ
  pub is_new_card_present : W → Bool × W
  pub read_card_serial : W → Bool × W
  pub halt_a : W → W
  pub stop_crypto1 : W → W
  pub authenticate : (trailer : ℕ) → (key : List ℕ) → W → ℕ × W
  pub mifare_write : (block : ℕ) → (bytes : List ℕ) → W → ℕ × W
  pub mifare_read : (block : ℕ) → W → ℕ × List ℕ × W

abbrev pub error_auth : ℕ
error_auth = 1

abbrev pub error_write : ℕ
error_write = 2

abbrev pub error_read : ℕ
error_read = 3

-- `BLOCK_NAME` to `BLOCK_PASS`, the values of `select`.
pub data Field : Type 0 where
  block_name block_cogn block_user block_pass : Field

-- What `b_key` holds after `setup`.
abbrev pub b_key : List ℕ
b_key = 255 ∷ 255 ∷ 255 ∷ 255 ∷ 255 ∷ 255 ∷ []

-- The conversion of an `int` to `unsigned char`.
abbrev pub to_byte : ℤ → ℕ
to_byte (pos n) = n % 256
to_byte (negsuc n) = 255 - n % 256

-- The text before the name of a status.
abbrev failure_text : ℕ → List ℕ
failure_text code =
    if code == error_auth
    then codes "PCD_Authenticate() failed: "
    else if code == error_write
    then codes "PCD_Write() failed: "
    else codes "PCD_Read() failed: "

module _ {W : Type 0} (uno : Uno W) (mfrc522 : Mfrc522 W) where
  -- 0 if a card was selected, and -1 if not.
  unfoldable pub select_card : W → ℤ × W
  select_card w =
      let (present, w1) = mfrc522.is_new_card_present w in
      let (selected, w2) = mfrc522.read_card_serial w1 in
      if present then if selected then (pos 0, w2) else (minus_one, w2) else (minus_one, w1)

  unfoldable pub print_bytes : List ℕ → W → W
  print_bytes [] w = w
  print_bytes (b ∷ bytes) w = print_bytes bytes (uno.print_hex b w)

  unfoldable pub print_serial : W → W
  unfolding print_bytes
  print_serial w = print_bytes (mfrc522.uid w) w

  unfoldable pub stop_write : W → W
  stop_write w = mfrc522.stop_crypto1 (mfrc522.halt_a w)

  pub auth_trailer : (key : List ℕ) (trailer : ℕ) → W → ℕ × W
  auth_trailer key trailer w = mfrc522.authenticate trailer key w

  -- For the three codes of MifareRFID.h, the only ones it is called with.
  pub error_dump : (error_code res : ℕ) → W → ℕ × W
  error_dump error_code res w = if res == mfrc522.status_ok then (0, w) else (
    error_code,
    uno.println (mfrc522.status_name res) (uno.print (failure_text error_code) w),
  )

  -- `while(Serial.available() > 0) Serial.read();`; `none` where the fuel runs out.
  unfoldable pub empty_serial : ℕ → W → Option W
  empty_serial zero w = none
  empty_serial (suc fuel) w =
      let rest = empty_serial fuel (uno.read w).1 in
      if ltb 0 (uno.available w) then rest else some w
