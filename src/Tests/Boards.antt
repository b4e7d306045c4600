-- ===== src/Tests/Boards.antt =====
-- A card on the two boards at concrete inputs.
use secure_rfid_login.Common.{
  ℕ, ◌≡◌, refl, ◌⊎◌, Bool, true, false, none, some, List, [], ◌∷◌, ◌++◌, ◌||◌, pos, minus_one, take,
  zeros, arith,
}
use secure_rfid_login.Device.{wait_message, wait_serial_number}
use secure_rfid_login.Device.Frame.{frame}
use secure_rfid_login.Board.{block_name, block_cogn, block_user, block_pass, select_card}
use secure_rfid_login.Board.Layout.{elem, layout, field}
use secure_rfid_login.Board.Sending.{hex_text, printed}
use secure_rfid_login.Board.Reading.{Sketch, read_fields, send_data}
use secure_rfid_login.Board.Fields.{IsSized, read_fields_lem}
use secure_rfid_login.Board.Passage.{
  read_fields-write_fields, wait_message-write_fields, wait_serial_number-printed,
}
use secure_rfid_login.Board.Writing.{Board, write_fields, wait_card}
use secure_rfid_login.Board.Writing.Cards.{wait_card_lem}
use secure_rfid_login.Tests.World.{Sim, sim_host, sim_stream, with_input, text}
use secure_rfid_login.Tests.Lying.{Lying, lying_uno, lying, card, stays, accepts, log}

abbrev pub as_computed : Bool → Lying → Bool
as_computed e w = e

abbrev pub blank : Lying
blank = record { blocks = λ b. zeros 16; sized = λ b. refl; open_sector = none; sent = [] }

abbrev full_array : ℕ → ℕ → List ℕ
full_array c number = text c ++ number ∷ []

abbrev ready : Board
ready = record {
  nome = full_array 65 0x30;
  cognome = full_array 66 0x31;
  user = full_array 67 0x32;
  psw = full_array 68 0x33;
  num_of_block = 0;
  num_of_byte = 0;
  connection_done = 1;
  block_ready = 1;
}

-- The card when the writer's board is done with it.
abbrev done : Lying
done = write_fields lying_uno lying ready.nome ready.cognome ready.user ready.psw blank

abbrev pub empty : Sketch
empty = record {
  nome = zeros 65;
  cognome = zeros 65;
  user = zeros 65;
  psw = zeros 65;
  somthing_to_send = false;
  connection_done = true;
}

pub empty-IsSized : IsSized empty
empty-IsSized = record { nome = refl; cognome = refl; user = refl; psw = refl }

abbrev message : List ℕ
message = frame (text 65) (text 66) (text 67) (text 68)

abbrev pub number : List ℕ
number = printed (0xDE ∷ 0xAD ∷ 0xBE ∷ 0xEF ∷ [])

wait_card_lem_example :
    let (finished, s', w') = wait_card lying_uno lying ready blank in
    (((select_card lying_uno lying blank).0 ≡ minus_one)
      × (finished ≡ false)
      × (s' ≡ ready)
      × (w'.blocks ≡ blank.blocks))
    ⊎ (((select_card lying_uno lying blank).0 ≡ pos 0)
        × (finished ≡ true)
        × (s' ≡ record ready { block_ready = 0 })
        × (field block_name w'.blocks ≡ text 65)
        × (field block_cogn w'.blocks ≡ text 66)
        × (field block_user w'.blocks ≡ text 67)
        × (field block_pass w'.blocks ≡ text 68)
        × ((i : ℕ)
            → (elem i (layout block_name)
                || (elem i (layout block_cogn)
                    || (elem i (layout block_user) || elem i (layout block_pass))))
              ≡ false
            → w'.blocks i ≡ zeros 16))
unfolding card
wait_card_lem_example =
    wait_card_lem lying_uno lying card stays accepts ready blank (omega arith) (omega arith)
      (omega arith) (omega arith)

read_fields_lem_example :
    let (finished, s', w') = read_fields lying_uno lying as_computed empty blank in
    IsSized s'
    × (finished ≡ true
        → (s'.somthing_to_send ≡ true)
          × (take 64 s'.nome ≡ field block_name blank.blocks)
          × (take 64 s'.cognome ≡ field block_cogn blank.blocks)
          × (take 64 s'.user ≡ field block_user blank.blocks)
          × (take 64 s'.psw ≡ field block_pass blank.blocks))
    × (finished ≡ false → s'.somthing_to_send ≡ false)
    × (s'.connection_done ≡ true)
unfolding card
read_fields_lem_example =
    read_fields_lem lying_uno lying as_computed card (λ e w. refl) empty blank empty-IsSized

abbrev taken : Sim
taken = record (with_input number) { clock = 1 }

whole_message :
    wait_message sim_host 50 (pos 3) 10 (zeros 260) 260 (with_input (message ++ number))
    ≡ some (1, message, taken)
unfolding wait_message
whole_message = refl

carried :
    (send_data lying_uno lying (read_fields lying_uno lying as_computed empty done).1 blank).sent
    ≡ message ++ number
unfolding log card
carried =
    (read_fields-write_fields lying_uno lying as_computed card accepts (λ e w. refl) log lying_uno
      lying card accepts ready.nome ready.cognome ready.user ready.psw blank empty done blank
      (omega arith) (omega arith) (omega arith) (omega arith) (λ f. refl) empty-IsSized).2

wait_message-write_fields_example :
    ((read_fields lying_uno lying as_computed empty done).0 ≡ true)
    × ((read_fields lying_uno lying as_computed empty done).1.somthing_to_send ≡ true)
    × (◌≡◌ {A = ℕ} 1 1)
    × (message ≡ frame (text 65) (text 66) (text 67) (text 68))
    × (number ≡ number ++ [])
unfolding log card
wait_message-write_fields_example =
    wait_message-write_fields lying_uno lying as_computed card accepts (λ e w. refl) log lying_uno
      lying card accepts sim_host (pos 3) (sim_stream (pos 3)) ready.nome ready.cognome ready.user
      ready.psw blank empty done blank 50 10 (zeros 260) (message ++ number) []
      (with_input (message ++ number)) (omega arith) (omega arith) (omega arith) (omega arith)
      (λ f. refl) empty-IsSized carried refl refl whole_message (omega arith)

half_number :
    wait_serial_number sim_host 5 (pos 3) (zeros 4) (with_input number)
    ≡ some (
      hex_text 0xDE ++ hex_text 0xAD,
      record (with_input (hex_text 0xBE ++ hex_text 0xEF)) { clock = 1 },
    )
unfolding wait_serial_number
half_number = refl

wait_serial_number-printed_example :
    (hex_text 0xDE ++ hex_text 0xAD ≡ hex_text 0xDE ++ hex_text 0xAD)
    × (hex_text 0xBE ++ hex_text 0xEF ≡ printed (0xBE ∷ 0xEF ∷ []) ++ [])
wait_serial_number-printed_example =
    wait_serial_number-printed sim_host (pos 3) (sim_stream (pos 3)) 5 (zeros 4) 0xDE 0xAD
      (0xBE ∷ 0xEF ∷ []) [] (with_input number) refl (omega arith) (omega arith) refl half_number
