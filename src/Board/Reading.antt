-- ===== src/Board/Reading.antt =====
-- The sketch argoRFID_Reader.ino: it reads the card in front of the board and sends it to the
-- computer on request.
use secure_rfid_login.Common.{
  ℕ, zero, suc, ◌+◌, ◌*◌, Bool, true, false, Option, none, some, List, [], ◌∷◌, pos, eq_ℤ,
  if◌then◌else◌, ltb, set, slice, codes,
}
use secure_rfid_login.Board.{
  Uno, Mfrc522, Field, block_name, block_cogn, block_user, block_pass, b_key, select_card,
  print_serial, stop_write, empty_serial,
}
use secure_rfid_login.Board.Mifare.{read_blocks}

-- The sketch's globals.
pub record Sketch : Type 0 where
  pub nome : List ℕ
  pub cognome : List ℕ
  pub user : List ℕ
  pub psw : List ℕ
  pub somthing_to_send : Bool
  pub connection_done : Bool

abbrev time_to_wait : ℕ
time_to_wait = 2000

abbrev wait_between_message : ℕ
wait_between_message = 100

module _ {W : Type 0} (uno : Uno W) where
  abbrev beep_done : W → W
  beep_done w = uno.delay 200 w

  abbrev beep_error : W → W
  beep_error w = uno.delay 200 (uno.delay 350 w)

module _ {W : Type 0} (uno : Uno W) (mfrc522 : Mfrc522 W) where
  -- The `n` rounds from `i` on of one of the loops of `send_data`.
  unfoldable pub send_rounds : ℕ → ℕ → List ℕ → W → W
  send_rounds zero i buff w = w
  send_rounds (suc n) i buff w =
      send_rounds n (i + 1) buff
        (uno.delay wait_between_message (uno.print (slice (i * 16) 16 buff) w))

  -- One of the four loops of `send_data`, and the number of the block behind it.
  unfoldable pub send_block : List ℕ → (num_of_block : ℕ) → W → W
  unfolding send_rounds
  send_block buff num_of_block w = uno.print ((0x30 + num_of_block) ∷ []) (send_rounds 4 0 buff w)

  unfoldable pub send_data : Sketch → W → W
  unfolding send_block
  send_data s w =
      let w1 = send_block s.nome 0 w in
      let w2 = send_block s.cognome 1 w1 in
      let w3 = send_block s.user 2 w2 in
      print_serial uno mfrc522 (uno.delay 600 (send_block s.psw 3 w3))

  -- The loop before the handshake.
  greet_loop : ℕ → Sketch → W → Option (Sketch × W)
  greet_loop zero s w = none
  greet_loop (suc fuel) s w =
      let (found, w1) = uno.find (codes "INIT\n") w in
      let (s1, w2) : Sketch × W =
        if found
        then (record s { connection_done = true }, uno.delay 500 (uno.print (codes "OK!") w1))
        else (s, w1) in
      let rest = greet_loop fuel s1 w2 in if ltb 0 (uno.available w) then rest else some (s, w)

  -- The answer to one `HEY!`.
  unfoldable pub answer_hey : Sketch → W → Sketch × W
  unfolding send_data
  answer_hey s w =
      if s.somthing_to_send
      then (
        record s { somthing_to_send = false },
        send_data s (uno.delay time_to_wait (uno.print (codes "SS") w)),
      )
      else (s, uno.print (codes "KA") w)

  -- The loop after it.
  serve_loop : ℕ → Sketch → W → Option (Sketch × W)
  unfolding answer_hey
  serve_loop zero s w = none
  serve_loop (suc fuel) s w =
      let (found, w1) = uno.find (codes "HEY!") w in
      let (s1, w2) = if found then answer_hey s w1 else (s, w1) in
      let rest = serve_loop fuel s1 w2 in if ltb 0 (uno.available w) then rest else some (s, w)

module _ {W : Type 0} (uno : Uno W) (mfrc522 : Mfrc522 W) (returned : Bool → W → Bool) where
  -- `read_blocks` under its `if`, and the number that is set behind the field.
  unfoldable pub read_field : Field → (number : ℕ) → List ℕ → W → Bool × List ℕ × W
  read_field f number buff w =
      let (answer, buff1, w1) = read_blocks uno mfrc522 b_key returned f buff w in
      (answer, if answer then set buff1 64 (0x30 + number) else buff1, w1)

  -- What `loop` does with a selected card; true if it did not `return` early.
  unfoldable pub read_fields : Sketch → W → Bool × Sketch × W
  read_fields s w =
      let (ok_1, nome, w1) = read_field block_name 0 s.nome w in
      let s1 : Sketch = record s { nome = nome } in
      let (ok_2, cognome, w2) = read_field block_cogn 1 s.cognome w1 in
      let s2 : Sketch = record s1 { cognome = cognome } in
      let (ok_3, user, w3) = read_field block_user 2 s.user w2 in
      let s3 : Sketch = record s2 { user = user } in
      let (ok_4, psw, w4) = read_field block_pass 3 s.psw w3 in
      let s4 : Sketch = record s3 { psw = psw } in
      if ok_1
      then if ok_2
        then if ok_3
          then if ok_4
            then (
              true,
              record s4 { somthing_to_send = true },
              beep_done uno (stop_write uno mfrc522 w4),
            )
            else (false, s4, beep_error uno w4)
          else (false, s3, beep_error uno w3)
        else (false, s2, beep_error uno w2)
      else (false, s1, beep_error uno w1)

  -- The end of `loop`: the card, and the delay that an early `return` skips.
  unfoldable pub look_for_card : Sketch → W → Sketch × W
  unfolding read_fields
  look_for_card s w =
      let (selected, w1) = select_card uno mfrc522 w in
      let (finished, s1, w2) = read_fields s w1 in
      if eq_ℤ selected (pos 0)
      then if finished then (s1, uno.delay 100 w2) else (s1, w2)
      else (s, uno.delay 100 w1)

  pub loop : ℕ → Sketch → W → Option (Sketch × W)
  unfolding greet_loop serve_loop look_for_card
  loop fuel s w =
      let talk =
        if s.connection_done
        then serve_loop uno mfrc522 fuel s w
        else greet_loop uno mfrc522 fuel s w in
      elim talk [
        | none ↦ none
        | some (s1, w1) ↦ elim (empty_serial uno mfrc522 fuel w1) [
          | none ↦ none
          | some w2 ↦
              some (if s.connection_done then look_for_card s1 w2 else (s1, uno.delay 100 w2))
        ]
      ]
