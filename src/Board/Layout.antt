-- ===== src/Board/Layout.antt =====
-- The card as the boards use it: the blocks of the four fields, as the header MifareRFID.h lays them
-- out, and what the MFRC522 library does to a card.
use secure_rfid_login.Common.{
  ℕ, ◌/◌, ◌%◌, ◌<◌, ◌≡◌, ◌≢◌, Bool, false, ◌||◌, Option, some, List, [], ◌∷◌, ◌++◌, ◌==◌,
  if◌then◌else◌, length, take,
}
use secure_rfid_login.Board.{Uno, Mfrc522, Field, block_name, block_cogn, block_user, block_pass}

-- What stands in the blocks of a card.
abbrev pub Store : Type 0
Store = ℕ → List ℕ

abbrev pub put : (block : ℕ) (bytes : List ℕ) → Store → Store
put block bytes m i = if i == block then bytes else m i

abbrev pub elem : ℕ → List ℕ → Bool
elem i [] = false
elem i (b ∷ blocks) = (i == b) || elem i blocks

abbrev pub layout : Field → List ℕ
layout block_name = 0x04 ∷ 0x05 ∷ 0x06 ∷ 0x08 ∷ []
layout block_cogn = 0x09 ∷ 0x0A ∷ 0x0C ∷ 0x0D ∷ []
layout block_user = 0x0E ∷ 0x10 ∷ 0x11 ∷ 0x12 ∷ []
layout block_pass = 0x14 ∷ 0x15 ∷ 0x16 ∷ 0x18 ∷ []

abbrev pub gather : List ℕ → Store → List ℕ
gather [] m = []
gather (b ∷ blocks) m = m b ++ gather blocks m

-- The bytes of a field on the card.
abbrev pub field : Field → Store → List ℕ
field f m = gather (layout f) m

module _ {W : Type 0} (uno : Uno W) (mfrc522 : Mfrc522 W) (key : List ℕ) where
  -- A card at the board: a block has 16 bytes, a read that succeeds stores them and two bytes of CRC,
  -- and neither a read nor an authentication changes a block.
  pub record Stores : Type 0 where
    pub store : W → Store
    pub block_size : (b : ℕ) (w : W) → length (store w b) ≡ 16
    pub read_store :
        (b : ℕ) (w : W)
        → let (stat, tmp, w') = mfrc522.mifare_read b w in
          (stat ≡ mfrc522.status_ok → take 16 tmp ≡ store w b) × (store w' ≡ store w)
    pub auth_store : (t : ℕ) (w : W) → store (mfrc522.authenticate t key w).1 ≡ store w
    pub print_store : (text : List ℕ) (w : W) → store (uno.print text w) ≡ store w
    pub println_store : (text : List ℕ) (w : W) → store (uno.println text w) ≡ store w

  -- A MIFARE Classic card of 1 KB that stays at the board and takes the key. An authentication opens
  -- the sector of the block it names, four blocks each, and closes the one before; the blocks of the
  -- open sector can be read, and written but for the last, the trailer.
  pub record Accepts (card : Stores) : Type 0 where
    pub sector : W → Option ℕ
    pub auth_ok :
        (t : ℕ) (w : W)
        → let (stat, w') = mfrc522.authenticate t key w in
          (stat ≡ mfrc522.status_ok) × (sector w' ≡ some (t / 4))
    pub write_ok :
        (b : ℕ) (bytes : List ℕ) (w : W)
        → sector w ≡ some (b / 4)
        → b < 64
        → b % 4 ≢ 3
        → length bytes ≡ 16
        → let (stat, w') = mfrc522.mifare_write b bytes w in
          (stat ≡ mfrc522.status_ok)
          × (sector w' ≡ sector w)
          × (card.store w' ≡ put b bytes (card.store w))
    pub read_ok :
        (b : ℕ) (w : W)
        → sector w ≡ some (b / 4)
        → b < 64
        → let (stat, tmp, w') = mfrc522.mifare_read b w in
          (stat ≡ mfrc522.status_ok) × (sector w' ≡ sector w)
    pub print_sector : (text : List ℕ) (w : W) → sector (uno.print text w) ≡ sector w
