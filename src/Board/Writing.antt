-- ===== src/Board/Writing.antt =====
-- The sketch argoRFID_Writer.ino: it collects four blocks of 64 bytes from the computer and writes
-- them on the next card.
pub mod Arrays
pub mod Collect
mod Bytes
pub mod Receive
pub mod Blocks
pub mod Message
pub mod Cards
use secure_rfid_login.Common.{
  ℕ, zero, suc, ◌+◌, Bool, true, false, Option, none, some, List, [], ◌∷◌, ℤ, pos, minus_one, eq_ℤ,
  if◌then◌else◌, ltb, ◌==◌, set, get_or, codes,
}
use secure_rfid_login.Board.{
  Uno, Mfrc522, block_name, block_cogn, block_user, block_pass, b_key, to_byte, select_card,
  print_serial, stop_write, empty_serial,
}
use secure_rfid_login.Board.Mifare.{write_blocks}

-- The sketch's globals.
pub record Board : Type 0 where
  pub nome : List ℕ
  pub cognome : List ℕ
  pub user : List ℕ
  pub psw : List ℕ
  pub num_of_block : ℕ
  pub num_of_byte : ℕ
  pub connection_done : ℕ
  pub block_ready : ℕ

-- The array that the `switch` on `num_of_block` finds, if any.
abbrev pub array : Board → ℕ → Option (List ℕ)
array s zero = some s.nome
array s (suc zero) = some s.cognome
array s (suc (suc zero)) = some s.user
array s (suc (suc (suc zero))) = some s.psw
array s (suc (suc (suc (suc n)))) = none

abbrev pub put_byte : Board → (num_of_block : ℕ) → (byte : ℕ) → Board
put_byte s zero c = record s { nome = set s.nome s.num_of_byte c }
put_byte s (suc zero) c = record s { cognome = set s.cognome s.num_of_byte c }
put_byte s (suc (suc zero)) c = record s { user = set s.user s.num_of_byte c }
put_byte s (suc (suc (suc zero))) c = record s { psw = set s.psw s.num_of_byte c }
put_byte s (suc (suc (suc (suc n)))) c = s

module _ {W : Type 0} (uno : Uno W) where
  -- The `switch` that reads a byte.
  pub read_byte : Board → W → Board × W
  read_byte s w = elim (array s s.num_of_block) [
    | none ↦ (s, w)
    | some block ↦ let (c, w') = uno.read w in (put_byte s s.num_of_block (to_byte c), w')
  ]

  -- A block is whole: is its number behind it? The first three have the same text in the source, and
  -- the last one is the end of the message.
  pub check_and_fill : Board → W → Board × W
  check_and_fill s w = elim (array s s.num_of_block) [
    | none ↦ (s, w)
    | some block ↦
        if get_or block s.num_of_byte 0 == s.num_of_block + 0x30
        then if s.num_of_block == 3
          then (record s { block_ready = 1; num_of_byte = 0; num_of_block = 0 }, uno.delay 1000 w)
          else (record s { num_of_byte = 0; num_of_block = s.num_of_block + 1 }, uno.delay 200 w)
        else (
          record s { connection_done = 0; num_of_byte = 0 },
          if s.num_of_block == 3 then uno.print (codes "ERROR! Invalid message!\n") w else w,
        )
  ]

module _ {W : Type 0} (uno : Uno W) (mfrc522 : Mfrc522 W) where
  -- What follows it; `drain` is the fuel of `empty_serial`.
  pub after_byte : (drain : ℕ) → Board → W → Option (Board × W)
  after_byte drain s w =
      let (s1, w1) = check_and_fill uno s w in
      if s.num_of_byte == 64
      then elim (empty_serial uno mfrc522 drain w1) [ none ↦ none | some w2 ↦ some (s1, w2) ]
      else some (record s { num_of_byte = s.num_of_byte + 1 }, w)

  -- One round of the loop that waits for a message.
  pub receive_byte : (drain : ℕ) → Board → W → Option (Board × W)
  unfolding read_byte check_and_fill after_byte
  receive_byte drain s w = let (s1, w1) = read_byte uno s w in after_byte drain s1 w1

  unfoldable pub receive_message : (fuel drain : ℕ) → Board → W → Option (Board × W)
  unfolding receive_byte
  receive_message zero drain s w = none
  receive_message (suc fuel) drain s w =
      let rest : Option (Board × W) = elim (receive_byte drain s w) [
        | none ↦ none
        | some (s1, w1) ↦ receive_message fuel drain s1 w1
      ] in
      if ltb 0 (uno.available w) then rest else some (s, w)

  -- The five reads of the handshake: how many of the bytes are those of `init_msg`.
  pub match_init : List ℕ → W → ℕ × W
  match_init [] w = (0, w)
  match_init (c ∷ text) w =
      let (b, w1) = uno.read w in
      let (num, w2) = match_init text w1 in (if eq_ℤ b (pos c) then suc num else num, w2)

  greet_loop : ℕ → Board → W → Option (Board × W)
  unfolding match_init
  greet_loop zero s w = none
  greet_loop (suc fuel) s w =
      let (num, w1) = match_init (codes "INIT\n") w in
      let (s1, w2) : Board × W =
        if num == 5
        then (
          record s { connection_done = 1 },
          uno.delay 500 (uno.delay 200 (uno.print (codes "OK!") w1)),
        )
        else (s, w1) in
      let rest = greet_loop fuel s1 w2 in if ltb 0 (uno.available w) then rest else some (s, w)

  -- The four calls of `write_blocks`.
  unfoldable pub write_fields : (nome cognome user psw : List ℕ) → W → W
  write_fields nome cognome user psw w = write_blocks uno mfrc522 b_key block_pass psw (
      write_blocks uno mfrc522 b_key block_user user (
        write_blocks uno mfrc522 b_key block_cogn cognome
          (write_blocks uno mfrc522 b_key block_name nome w)))

  -- The message is complete: wait for a card; true if `loop` did not `return` early.
  unfoldable pub wait_card : Board → W → Bool × Board × W
  unfolding write_fields
  wait_card s w =
      let (selected, w1) = select_card uno mfrc522 w in
      let w2 = print_serial uno mfrc522 (uno.delay 200 w1) in
      let w3 = stop_write uno mfrc522 (write_fields s.nome s.cognome s.user s.psw w2) in
      if eq_ℤ selected minus_one then (false, s, w1) else (true, record s { block_ready = 0 }, w3)

  -- One call of `loop`.
  pub loop : (fuel : ℕ) → Board → W → Option (Board × W)
  unfolding greet_loop receive_message wait_card
  loop fuel s w =
      if s.connection_done == 0
      then elim (greet_loop fuel s w) [
        | none ↦ none
        | some (s1, w1) ↦ elim (empty_serial uno mfrc522 fuel w1) [
          | none ↦ none
          | some w2 ↦ some (s1, uno.delay 100 w2)
        ]
      ]
      else if s.block_ready == 0
      then elim (receive_message fuel fuel s w) [
        | none ↦ none
        | some (s1, w1) ↦ some (s1, uno.delay 100 w1)
      ]
      else elim (empty_serial uno mfrc522 fuel w) [
        | none ↦ none
        | some w1 ↦
            let (finished, s1, w2) = wait_card s w1 in
            some (s1, if finished then uno.delay 100 w2 else w2)
      ]
