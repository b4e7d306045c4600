-- ===== src/Board/Passage.antt =====
-- From the writer's board over a card and the reader's board to the computer: argoRFID_Writer.ino,
-- argoRFID_Reader.ino, MifareRFID.cpp, and `wait_message` and `wait_serial_number` of ArduinoRFID.c.
use secure_rfid_login.Common.{
  ℕ, ◌+◌, ◌≤◌, ◌<◌, ◌≡◌, refl, sym, ap, ap₂, ◌∙◌, Bool, true, some, List, ◌∷◌, ◌++◌, ℤ, length,
  take, append_assoc, append_cancel, length-take, length-append, arith,
}
use secure_rfid_login.Host.{Host, IsStream}
use secure_rfid_login.Device.{wait_message, wait_serial_number, serial_length}
use secure_rfid_login.Device.Frame.{message_size, frame}
use secure_rfid_login.Device.Message.Accept.{wait_message-frame}
use secure_rfid_login.Device.Serial.{wait_serial_number_lem}
use secure_rfid_login.Board.{
  Uno, Mfrc522, Field, block_name, block_cogn, block_user, block_pass, b_key,
}
use secure_rfid_login.Board.Layout.{Stores, Accepts, field}
use secure_rfid_login.Board.Mifare.Writes.{write_fields_lem}
use secure_rfid_login.Board.Writing.{write_fields}
use secure_rfid_login.Board.Reading.{Sketch, read_fields, send_data}
use secure_rfid_login.Board.Fields.{IsSized, read_fields_lem, read_fields_finishes}
use secure_rfid_login.Board.Sending.{Logs, send_data_lem, hex_text, printed}

pub frame_eq :
    {n n' c c' u u' p p' : List ℕ}
    → n ≡ n'
    → c ≡ c'
    → u ≡ u'
    → p ≡ p'
    → frame n c u p ≡ frame n' c' u' p'
frame_eq {n' = n'} {c' = c'} {u = u} {p = p} hn hc hu hp =
    ap₂ (λ a b. frame a b u p) hn hc ∙ ap₂ (frame n' c') hu hp

module _ {V : Type 0} (uno : Uno V) (mfrc522 : Mfrc522 V) (returned : Bool → V → Bool)
    (card : Stores uno mfrc522 b_key) (accepts : Accepts uno mfrc522 b_key card)
    (honest : (e : Bool) (v : V) → returned e v ≡ e) (log : Logs uno mfrc522) where
  -- A card that takes the key goes out as the message of its four fields.
  pub send_data-read_fields :
      (s : Sketch) (v v1 : V)
      → IsSized s
      → let (finished, s', v') = read_fields uno mfrc522 returned s v in
        (finished ≡ true)
        × (s'.somthing_to_send ≡ true)
        × (log.sent (send_data uno mfrc522 s' v1)
            ≡ log.sent v1
              ++ (frame
                    (field block_name (card.store v))
                    (field block_cogn (card.store v))
                    (field block_user (card.store v))
                    (field block_pass (card.store v))
                  ++ printed (mfrc522.uid v1)))
  send_data-read_fields s v v1 sized =
      let s' = (read_fields uno mfrc522 returned s v).1 in
      let end = read_fields_finishes uno mfrc522 returned card honest accepts s v in
      let r = (read_fields_lem uno mfrc522 returned card honest s v sized).1 end in
      (
        end,
        r.0,
        send_data_lem uno mfrc522 log s' v1
            ∙ ap (λ t. log.sent v1 ++ (t ++ printed (mfrc522.uid v1)))
                (ap₂ (λ a b. frame a b (take 64 s'.user) (take 64 s'.psw)) r.1 r.2
                  ∙ ap₂ (frame (field block_name (card.store v)) (field block_cogn (card.store v)))
                      r.3 r.4),
      )

  module _ {U : Type 0} (writer_uno : Uno U) (writer_mfrc522 : Mfrc522 U)
      (written : Stores writer_uno writer_mfrc522 b_key)
      (takes : Accepts writer_uno writer_mfrc522 b_key written) where
    -- The reader's board sends what the writer's board has written.
    pub read_fields-write_fields :
        (n c u p : List ℕ) (x : U) (s : Sketch) (v v1 : V)
        → 64 ≤ length n
        → 64 ≤ length c
        → 64 ≤ length u
        → 64 ≤ length p
        → ((f : Field)
            → field f (card.store v)
              ≡ field f (written.store (write_fields writer_uno writer_mfrc522 n c u p x)))
        → IsSized s
        → let (finished, s', v') = read_fields uno mfrc522 returned s v in
          (finished ≡ true)
          × (s'.somthing_to_send ≡ true)
          × (log.sent (send_data uno mfrc522 s' v1)
              ≡ log.sent v1
                ++ (frame (take 64 n) (take 64 c) (take 64 u) (take 64 p)
                    ++ printed (mfrc522.uid v1)))
    read_fields-write_fields n c u p x s v v1 hn hc hu hp same sized =
        let r = send_data-read_fields s v v1 sized in
        let w = write_fields_lem writer_uno writer_mfrc522 written takes n c u p hn hc hu hp x in
        (
          r.0,
          r.1,
          r.2
              ∙ ap (λ t. log.sent v1 ++ (t ++ printed (mfrc522.uid v1)))
                  (frame_eq (same block_name ∙ w.0) (same block_cogn ∙ w.1) (same block_user ∙ w.2)
                    (same block_pass ∙ w.3)),
        )

    -- A card that the writer's board has written and that lies on the reader's board takes its
    -- four fields to the computer. Let the arrays of the writer's board have 64 bytes or more, and
    -- those of the reader's board 65; let the library take the key on both boards, the caller of
    -- `read_blocks` find the value that the function worked out, and what the board sends be what
    -- comes out of the port. Then the board comes to its end with the card; and if `wait_message`
    -- comes back before its timeout, it accepts the message, its buffer holds the first 64 bytes
    -- of each of the four arrays of the writer's board, and the port goes on with the printed
    -- serial number.
    pub wait_message-write_fields :
        {P : Type 0} (host : Host P) (port : ℤ) (stream : IsStream host port) (n c u p : List ℕ)
        (x : U) (s : Sketch) (v v1 : V) (fuel timeout : ℕ) (old bytes rest : List ℕ) (q : P)
        {answer : ℕ} {buff : List ℕ} {q' : P}
        → 64 ≤ length n
        → 64 ≤ length c
        → 64 ≤ length u
        → 64 ≤ length p
        → ((f : Field)
            → field f (card.store v)
              ≡ field f (written.store (write_fields writer_uno writer_mfrc522 n c u p x)))
        → IsSized s
        → log.sent (send_data uno mfrc522 (read_fields uno mfrc522 returned s v).1 v1)
          ≡ log.sent v1 ++ bytes
        → stream.input q ≡ bytes ++ rest
        → length old ≡ message_size
        → wait_message host fuel port timeout old message_size q ≡ some (answer, buff, q')
        → host.time q' < host.time q + timeout
        → ((read_fields uno mfrc522 returned s v).0 ≡ true)
          × ((read_fields uno mfrc522 returned s v).1.somthing_to_send ≡ true)
          × (answer ≡ 1)
          × (buff ≡ frame (take 64 n) (take 64 c) (take 64 u) (take 64 p))
          × (stream.input q' ≡ printed (mfrc522.uid v1) ++ rest)
    wait_message-write_fields host port stream n c u p x s v v1 fuel timeout old bytes rest q hn hc
          hu hp same sized sent came size back early =
        let r = read_fields-write_fields n c u p x s v v1 hn hc hu hp same sized in
        let message = frame (take 64 n) (take 64 c) (take 64 u) (take 64 p) in
        let serial = printed (mfrc522.uid v1) in
        let are : bytes ≡ message ++ serial =
          (append_cancel (log.sent v1) (log.sent v1) refl (sym sent ∙ r.2)).1 in
        let got =
          wait_message-frame host port stream fuel timeout old (take 64 n) (take 64 c) (take 64 u)
            (take 64 p) (serial ++ rest) q size (cut n hn) (cut c hc) (cut u hu) (cut p hp)
            (came ∙ ap (λ t. t ++ rest) are ∙ append_assoc message serial rest) back early in
        (r.0, r.1, got.0, got.1, got.2)
      where
        cut : (xs : List ℕ) → 64 ≤ length xs → length (take 64 xs) ≡ 64
        cut xs h = omega (arith, length-take 64 xs)

two_digits : (b : ℕ) → 16 ≤ b → length (hex_text b) ≡ 2
two_digits b h = ground arith

module _ {P : Type 0} (host : Host P) (port : ℤ) (stream : IsStream host port) where
  -- The boards print the serial number of the card in the base 16, and wait_serial_number reads
  -- four bytes into a buffer of four: if it comes back, and the first two bytes of the number are
  -- 16 or more, it has the digits of those two and nothing of the others, which are left in the
  -- port.
  pub wait_serial_number-printed :
      (fuel : ℕ) (buffer : List ℕ) (a b : ℕ) (tail rest : List ℕ) (q : P) {out : List ℕ} {q' : P}
      → length buffer ≡ serial_length
      → 16 ≤ a
      → 16 ≤ b
      → stream.input q ≡ printed (a ∷ b ∷ tail) ++ rest
      → wait_serial_number host fuel port buffer q ≡ some (out, q')
      → (out ≡ hex_text a ++ hex_text b) × (stream.input q' ≡ printed tail ++ rest)
  wait_serial_number-printed fuel buffer a b tail rest q {out} size ha hb came back =
      let r = wait_serial_number_lem host port stream fuel buffer q size back in
      append_cancel out (hex_text a ++ hex_text b)
        (r.1
          ∙ sym (
              omega
                (arith, length-append (hex_text a) (hex_text b), two_digits a ha, two_digits b hb)))
        (sym r.0 ∙ came ∙ simp append_assoc)
