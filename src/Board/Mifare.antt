-- ===== src/Board/Mifare.antt =====
-- `write_blocks` and `read_blocks` of MifareRFID.cpp: where on a card the four fields stand.
pub mod Reads
pub mod Writes
pub mod Accepted
use secure_rfid_login.Common.{
  ℕ, ◌+◌, Bool, true, false, not, List, [], ◌∷◌, ◌==◌, if◌then◌else◌, codes, take, slice, write_at,
}
use secure_rfid_login.Board.{
  Uno, Mfrc522, error_auth, error_write, error_read, auth_trailer, error_dump, Field, block_name,
  block_cogn, block_user, block_pass,
}

abbrev pub trailer_1 : ℕ
trailer_1 = 0x07

abbrev pub trailer_2 : ℕ
trailer_2 = 0x0B

abbrev pub trailer_3 : ℕ
trailer_3 = 0x0F

abbrev pub trailer_4 : ℕ
trailer_4 = 0x13

abbrev pub trailer_5 : ℕ
trailer_5 = 0x17

abbrev pub trailer_6 : ℕ
trailer_6 = 0x1A

-- One statement of a `case`: authenticate with a trailer, or transfer 16 bytes between a block of the
-- card and an offset in the buffer.
pub data Statement : Type 0 where
  auth : (trailer : ℕ) → Statement
  transfer : (block offset : ℕ) → Statement

-- The statements of `write_blocks` under each `case`.
pub write_steps : (select : Field) → List Statement
write_steps block_name =
    auth trailer_1
    ∷ transfer 0x04 0
    ∷ transfer 0x05 16
    ∷ transfer 0x06 32
    ∷ auth trailer_2
    ∷ transfer 0x08 48
    ∷ []
write_steps block_cogn =
    transfer 0x09 0 ∷ transfer 0x0A 16 ∷ auth trailer_3 ∷ transfer 0x0C 32 ∷ transfer 0x0D 48 ∷ []
write_steps block_user =
    transfer 0x0E 0 ∷ auth trailer_4 ∷ transfer 0x10 16 ∷ transfer 0x11 32 ∷ transfer 0x12 48 ∷ []
write_steps block_pass =
    auth trailer_5
    ∷ transfer 0x14 0
    ∷ transfer 0x15 16
    ∷ transfer 0x16 32
    ∷ auth trailer_6
    ∷ transfer 0x18 48
    ∷ []

-- The statements of `read_blocks` under each `case`.
pub read_steps : (select : Field) → List Statement
read_steps block_name =
    auth trailer_1
    ∷ transfer 0x04 0
    ∷ transfer 0x05 16
    ∷ transfer 0x06 32
    ∷ auth trailer_2
    ∷ transfer 0x08 48
    ∷ []
read_steps block_cogn =
    transfer 0x09 0 ∷ transfer 0x0A 16 ∷ auth trailer_3 ∷ transfer 0x0C 32 ∷ transfer 0x0D 48 ∷ []
read_steps block_user =
    transfer 0x0E 0 ∷ auth trailer_4 ∷ transfer 0x10 16 ∷ transfer 0x11 32 ∷ transfer 0x12 48 ∷ []
read_steps block_pass =
    auth trailer_5
    ∷ transfer 0x14 0
    ∷ transfer 0x15 16
    ∷ transfer 0x16 32
    ∷ auth trailer_6
    ∷ transfer 0x18 48
    ∷ []

-- What `write_blocks` prints when a field was written.
abbrev pub written_text : (select : Field) → List ℕ
written_text block_name = codes "Write: NAME\n"
written_text block_cogn = codes "Write: SURNAME\n"
written_text block_user = codes "Write: USERNAME\n"
written_text block_pass = codes "Write: PASSWORD\n"

module _ {W : Type 0} (uno : Uno W) (mfrc522 : Mfrc522 W) (key : List ℕ) where
  -- One statement of `write_blocks` and the `error_dump` behind it, whose value is given.
  pub write_step : (buff : List ℕ) → Statement → W → ℕ × W
  unfolding auth_trailer error_dump
  write_step buff (auth trailer) w =
      let (stat, w1) = auth_trailer uno mfrc522 key trailer w in
      error_dump uno mfrc522 error_auth stat w1
  write_step buff (transfer block offset) w =
      let (stat, w1) = mfrc522.mifare_write block (slice offset 16 buff) w in
      error_dump uno mfrc522 error_write stat w1

  -- They run until one fails; then `ending` is skipped.
  pub run_writes : (buff ending : List ℕ) → List Statement → W → W
  run_writes buff ending [] w = uno.print ending w
  run_writes buff ending (s ∷ steps) w =
      let (failed, w1) = write_step buff s w in
      let rest = run_writes buff ending steps w1 in if failed == 0 then rest else w1

  unfoldable pub write_blocks : (select : Field) (buff : List ℕ) → W → W
  unfolding write_steps run_writes write_step
  write_blocks select buff w = run_writes buff (written_text select) (write_steps select) w

  -- One statement of `read_blocks`, the `error_dump` behind it, whose value is given, and
  -- `fill_array(&tmp[0], &buff[offset], 16)`.
  pub read_step : (buff : List ℕ) → Statement → W → ℕ × List ℕ × W
  unfolding auth_trailer error_dump
  read_step buff (auth trailer) w =
      let (stat, w1) = auth_trailer uno mfrc522 key trailer w in
      let (failed, w2) = error_dump uno mfrc522 error_auth stat w1 in (failed, buff, w2)
  read_step buff (transfer block offset) w =
      let (stat, tmp, w1) = mfrc522.mifare_read block w in
      let (failed, w2) = error_dump uno mfrc522 error_read stat w1 in
      if failed == 0 then (failed, write_at buff offset (take 16 tmp), w2) else (failed, buff, w2)

  -- The last value of `error`, the buffer, and the board.
  pub run_reads : List Statement → (buff : List ℕ) → W → Bool × List ℕ × W
  run_reads [] buff w = (true, buff, w)
  run_reads (s ∷ steps) buff w =
      let (failed, buff1, w1) = read_step buff s w in
      let rest = run_reads steps buff1 w1 in if failed == 0 then rest else (false, buff1, w1)

  -- The function ends with no `return`: `returned` is what the caller finds for the value of `error`.
  unfoldable pub read_blocks :
      (returned : Bool → W → Bool) (select : Field) (buff : List ℕ) → W → Bool × List ℕ × W
  unfolding read_steps run_reads read_step
  read_blocks returned select buff w =
      let (error, buff1, w1) = run_reads (read_steps select) buff w in
      (returned error w1, buff1, w1)
