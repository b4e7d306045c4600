-- ===== src/Tests/Ways.antt =====
-- The whole way of a card at concrete inputs: the computer with the board on COM4, the board's serial
-- line, and the card.
use secure_rfid_login.Common.{◌≡◌, refl, true, some, [], ◌∷◌, ◌++◌, pos, arith}
use secure_rfid_login.Device.{write_block, send_chunks}
use secure_rfid_login.Device.Block.{Sends}
use secure_rfid_login.Device.Frame.{frame}
use secure_rfid_login.Board.{select_card}
use secure_rfid_login.Board.Reading.{read_fields, send_data}
use secure_rfid_login.Board.Writing.{Board, wait_card}
use secure_rfid_login.Board.Writing.Blocks.{calls}
use secure_rfid_login.Board.Way.{Delivers, send_data-write_block}
use secure_rfid_login.Tests.World.{Sim, sim_host, with_input, text}
use secure_rfid_login.Tests.BoardLines.{
  line_uno, no_card, queue, linked, linked-Holds, nothing, chunk, chunks,
}
use secure_rfid_login.Tests.Lying.{lying_uno, lying, card, stays, accepts, log}
use secure_rfid_login.Tests.Boards.{as_computed, blank, empty, empty-IsSized, number}

sends : Sends sim_host (pos 3)
sends = record { sent = λ w. w.sent; send_sent = λ bytes w. refl; sleep_sent = λ ms w. refl }

abbrev sender : Sim
sender = with_input []

delivered_1 :
    Delivers sim_host
      (pos 3)
      sends
      line_uno
      no_card
      queue
      (text 65)
      0x30
      (chunks 65)
      (chunk 0x30)
      sender
unfolding queue sends write_block send_chunks
delivered_1 = record { before = omega arith; comes = refl }

delivered_2 :
    Delivers sim_host
      (pos 3)
      sends
      line_uno
      no_card
      queue
      (text 66)
      0x31
      (chunks 66)
      (chunk 0x31)
      sender
unfolding queue sends write_block send_chunks
delivered_2 = record { before = omega arith; comes = refl }

delivered_3 :
    Delivers sim_host
      (pos 3)
      sends
      line_uno
      no_card
      queue
      (text 67)
      0x32
      (chunks 67)
      (chunk 0x32)
      sender
unfolding queue sends write_block send_chunks
delivered_3 = record { before = omega arith; comes = refl }

delivered_4 :
    Delivers sim_host
      (pos 3)
      sends
      line_uno
      no_card
      queue
      (text 68)
      0x33
      (chunks 68)
      (chunk 0x33)
      sender
unfolding queue sends write_block send_chunks
delivered_4 = record { before = omega arith; comes = refl }

selected : (select_card lying_uno lying blank).0 ≡ pos 0
unfolding select_card
selected = refl

send_data-write_block_example :
    (s' : Board) × (calls line_uno no_card 65
        (chunks 65
          ++ (chunk 0x30
              ∷ (chunks 66
                  ++ (chunk 0x31
                      ∷ (chunks 67 ++ (chunk 0x32 ∷ (chunks 68 ++ (chunk 0x33 ∷ []))))))))
        linked
      ≡ some s')
    × (s'.block_ready ≡ 1)
    × ((wait_card lying_uno lying s' blank).0 ≡ true)
    × ((read_fields lying_uno lying as_computed empty (wait_card lying_uno lying s' blank).2).0
        ≡ true)
    × ((send_data lying_uno lying
          (read_fields lying_uno lying as_computed empty (wait_card lying_uno lying s' blank).2).1
          blank).sent
        ≡ frame (text 65) (text 66) (text 67) (text 68) ++ number)
unfolding log card queue
send_data-write_block_example =
    send_data-write_block sim_host (pos 3) sends line_uno no_card queue lying_uno lying card stays
      accepts lying_uno lying as_computed card accepts (λ e w. refl) log (λ y. y) (λ f y. refl) 65
      nothing linked (text 65) (text 66) (text 67) (text 68) (chunks 65) (chunks 66) (chunks 67)
      (chunks 68) (chunk 0x30) (chunk 0x31) (chunk 0x32) (chunk 0x33) sender sender sender sender
      blank empty blank linked-Holds refl (λ e. absurd (omega arith)) refl (omega arith) refl refl
      refl refl delivered_1 delivered_2 delivered_3 delivered_4 selected empty-IsSized
