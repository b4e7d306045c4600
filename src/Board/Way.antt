-- ===== src/Board/Way.antt =====
-- The whole way of a card: `write_block` of the writer's program (ArduinoRFID.c), the writer's board
-- (argoRFID_Writer.ino), the card, and the reader's board (argoRFID_Reader.ino).
use secure_rfid_login.Common.{
  ℕ, ◌≤◌, ◌<◌, ◌≡◌, ◌≢◌, refl, sym, ap, ◌∙◌, inl, inr, Bool, true, some, List, [], ◌∷◌, ◌++◌, ℤ,
  pos, length, take, zeros, append_cancel, length-take, arith,
}
use secure_rfid_login.Host.{Host}
use secure_rfid_login.Device.{write_block}
use secure_rfid_login.Device.Block.{Sends, write_block_sent}
use secure_rfid_login.Device.Frame.{frame}
use secure_rfid_login.Board.{
  Uno, Mfrc522, Field, block_name, block_cogn, block_user, block_pass, b_key, select_card,
}
use secure_rfid_login.Board.Layout.{Stores, Accepts, field}
use secure_rfid_login.Board.Reading.{Sketch, read_fields, send_data}
use secure_rfid_login.Board.Fields.{IsSized}
use secure_rfid_login.Board.Sending.{Logs, printed}
use secure_rfid_login.Board.Passage.{send_data-read_fields, frame_eq}
use secure_rfid_login.Board.Writing.{Board, wait_card}
use secure_rfid_login.Board.Writing.Collect.{Queue, Holds}
use secure_rfid_login.Board.Writing.Blocks.{calls, arrived, Brings}
use secure_rfid_login.Board.Writing.Message.{calls-Brings}
use secure_rfid_login.Board.Writing.Cards.{Stays, wait_card_lem}

module _ {X W : Type 0} (host : Host X) (port : ℤ) (sends : Sends host port) (uno : Uno W)
    (mfrc522 : Mfrc522 W) (queue : Queue uno) where
  -- What one call of `write_block` sends comes in on the board before the calls `ws` and `w` of its
  -- `loop`, and up to 64 bytes of it before the last of them.
  pub record Delivers (bytes : List ℕ) (number : ℕ) (ws : List W) (w : W) (x : X) : Type 0 where
    pub before : length (arrived uno mfrc522 queue ws) ≤ 64
    pub comes :
        sends.sent (write_block host port bytes 64 number x)
        ≡ sends.sent x ++ (arrived uno mfrc522 queue ws ++ queue.pending w)

  Delivers-Brings :
      (bytes : List ℕ) (number : ℕ) (ws : List W) (w : W) (x : X)
      → length bytes ≡ 64
      → Delivers bytes number ws w x
      → Brings uno mfrc522 queue bytes number ws w
  Delivers-Brings bytes number ws w x size d = record {
    junk = zeros 15;
    before = d.before;
    comes =
        (append_cancel (sends.sent x) (sends.sent x) refl
          (sym d.comes ∙ (write_block_sent host port sends bytes 64 number x size).0 refl)).1;
  }

long_enough : (xs : List ℕ) {ys : List ℕ} → take 64 xs ≡ ys → length ys ≡ 64 → 64 ≤ length xs
long_enough xs e h = omega (arith, length-take 64 xs, ap length e)

module _ {X W U V : Type 0} (host : Host X) (port : ℤ) (sends : Sends host port) (line_uno : Uno W)
    (line_mfrc522 : Mfrc522 W) (queue : Queue line_uno) (writer_uno : Uno U)
    (writer_mfrc522 : Mfrc522 U) (written : Stores writer_uno writer_mfrc522 b_key)
    (stays : Stays writer_uno writer_mfrc522 written)
    (takes : Accepts writer_uno writer_mfrc522 b_key written) (uno : Uno V) (mfrc522 : Mfrc522 V)
    (returned : Bool → V → Bool) (card : Stores uno mfrc522 b_key)
    (accepts : Accepts uno mfrc522 b_key card) (honest : (e : Bool) (v : V) → returned e v ≡ e)
    (log : Logs uno mfrc522) (carry : U → V)
    (carried : (f : Field) (y : U)
      → field f (card.store (carry y)) ≡ field f (written.store y)) where
  -- What the program that writes a card sends to its board is what the reader's board, whose
  -- arrays have 65 bytes, sends to the computer. Let the four calls of `write_block` with blocks
  -- of 64 bytes reach the board, which has fuel for what its receive buffer holds and waits for a
  -- message; let a card be selected then, and be carried to the reader's board; let the library
  -- take the key on both boards, and the caller of `read_blocks` find the value that the function
  -- worked out. Then the writer's board is ready for the card after these calls of `loop`, writes
  -- it, and the reader's board reads it to the end and sends the message of the four blocks and
  -- the printed serial number.
  pub send_data-write_block :
      (fuel : ℕ) (blocks : ℕ → List ℕ) (s : Board) (n c u p : List ℕ) (ws1 ws2 ws3 ws4 : List W)
      (w1 w2 w3 w4 : W) (x1 x2 x3 x4 : X) (y : U) (r : Sketch) (v : V)
      → Holds blocks [] s
      → s.num_of_block ≡ 0
      → s.connection_done ≢ 0
      → s.block_ready ≡ 0
      → queue.capacity < fuel
      → length n ≡ 64
      → length c ≡ 64
      → length u ≡ 64
      → length p ≡ 64
      → Delivers host port sends line_uno line_mfrc522 queue n 0x30 ws1 w1 x1
      → Delivers host port sends line_uno line_mfrc522 queue c 0x31 ws2 w2 x2
      → Delivers host port sends line_uno line_mfrc522 queue u 0x32 ws3 w3 x3
      → Delivers host port sends line_uno line_mfrc522 queue p 0x33 ws4 w4 x4
      → (select_card writer_uno writer_mfrc522 y).0 ≡ pos 0
      → IsSized r
      → (s' : Board) × (calls line_uno line_mfrc522 fuel
            (ws1 ++ (w1 ∷ (ws2 ++ (w2 ∷ (ws3 ++ (w3 ∷ (ws4 ++ (w4 ∷ []))))))))
            s
          ≡ some s')
        × (s'.block_ready ≡ 1)
        × ((wait_card writer_uno writer_mfrc522 s' y).0 ≡ true)
        × ((read_fields uno mfrc522 returned r
              (carry (wait_card writer_uno writer_mfrc522 s' y).2)).0
            ≡ true)
        × (log.sent (
              send_data uno mfrc522
                (read_fields uno mfrc522 returned r
                  (carry (wait_card writer_uno writer_mfrc522 s' y).2)).1
                v)
            ≡ log.sent v ++ (frame n c u p ++ printed (mfrc522.uid v)))
  send_data-write_block fuel blocks s n c u p ws1 ws2 ws3 ws4 w1 w2 w3 w4 x1 x2 x3 x4 y r v h k
        linked waits room hn hc hu hp d1 d2 d3 d4 selected sized =
      let brings = Delivers-Brings host port sends line_uno line_mfrc522 queue in
      let (s', made, ready, same, en, ec, eu, ep) =
        calls-Brings line_uno line_mfrc522 queue fuel blocks s n c u p ws1 ws2 ws3 ws4 w1 w2 w3 w4 h
          k linked waits room hn hc hu hp (brings n 0x30 ws1 w1 x1 hn d1)
          (brings c 0x31 ws2 w2 x2 hc d2) (brings u 0x32 ws3 w3 x3 hu d3)
          (brings p 0x33 ws4 w4 x4 hp d4) in
      let y' = (wait_card writer_uno writer_mfrc522 s' y).2 in
      let q =
        send_data-read_fields uno mfrc522 returned card accepts honest log r (carry y') v sized in
      elim (wait_card_lem writer_uno writer_mfrc522 written stays takes s' y
        (long_enough s'.nome en hn) (long_enough s'.cognome ec hc) (long_enough s'.user eu hu)
        (long_enough s'.psw ep hp)) [
          | inl gone ↦ absurd (cc (sym gone.0 ∙ selected))
          | inr (there, wrote, after, fn, fc, fu, fp, others) ↦ (
            s',
            made,
            ready,
            wrote,
            q.0,
            q.2
                ∙ ap (λ t. log.sent v ++ (t ++ printed (mfrc522.uid v)))
                    (frame_eq (carried block_name y' ∙ fn ∙ en) (carried block_cogn y' ∙ fc ∙ ec)
                      (carried block_user y' ∙ fu ∙ eu) (carried block_pass y' ∙ fp ∙ ep)),
          )
        ]
