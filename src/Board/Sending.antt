-- ===== src/Board/Sending.antt =====
-- What `send_data` of argoRFID_Reader.ino puts on the serial line.
use secure_rfid_login.Common.{
  ℕ, zero, suc, ◌+◌, ◌*◌, ◌/◌, ◌%◌, ◌≡◌, refl, sym, ap, ap₂, ◌∙◌, List, [], ◌∷◌, ◌++◌, append-nil,
  append_assoc, if◌then◌else◌, ltb, take, slice,
}
use secure_rfid_login.Board.{Uno, Mfrc522, print_bytes, print_serial}
use secure_rfid_login.Board.Reading.{Sketch, send_rounds, send_block, send_data}
use secure_rfid_login.Device.Frame.{frame}
use secure_rfid_login.Device.Block.{slice-split}

abbrev digit : ℕ → ℕ
digit d = if ltb d 10 then 48 + d else 55 + d

-- A byte in the base 16, with no leading zero.
abbrev pub hex_text : ℕ → List ℕ
hex_text b = if ltb b 16 then digit b ∷ [] else digit (b / 16) ∷ digit (b % 16) ∷ []

abbrev pub printed : List ℕ → List ℕ
printed [] = []
printed (b ∷ bytes) = hex_text b ++ printed bytes

-- A record of what the board has sent.
pub record Logs {W : Type 0} (uno : Uno W) (mfrc522 : Mfrc522 W) : Type 0 where
  pub sent : W → List ℕ
  pub print_sent :
      (text : List ℕ) (w : W)
      → (sent (uno.print text w) ≡ sent w ++ text)
        × (mfrc522.uid (uno.print text w) ≡ mfrc522.uid w)
  pub hex_sent : (b : ℕ) (w : W) → sent (uno.print_hex b w) ≡ sent w ++ hex_text b
  pub delay_sent :
      (ms : ℕ) (w : W)
      → (sent (uno.delay ms w) ≡ sent w) × (mfrc522.uid (uno.delay ms w) ≡ mfrc522.uid w)

joined :
    (s n c u p x : List ℕ) (i j k l : ℕ)
    → ((((s ++ (n ++ (i ∷ []))) ++ (c ++ (j ∷ []))) ++ (u ++ (k ∷ []))) ++ (p ++ (l ∷ []))) ++ x
      ≡ s ++ ((n ++ (i ∷ c ++ (j ∷ u ++ (k ∷ p ++ l ∷ [])))) ++ x)
joined s n c u p x i j k l = simp append_assoc

module _ {W : Type 0} (uno : Uno W) (mfrc522 : Mfrc522 W) (log : Logs uno mfrc522) where
  print_bytes_sent :
      (bytes : List ℕ) (w : W)
      → log.sent (print_bytes uno mfrc522 bytes w) ≡ log.sent w ++ printed bytes
  unfolding print_bytes
  print_bytes_sent [] w = sym (append-nil (log.sent w))
  print_bytes_sent (b ∷ bytes) w =
      print_bytes_sent bytes (uno.print_hex b w)
      ∙ ap (λ t. t ++ printed bytes) (log.hex_sent b w)
      ∙ append_assoc (log.sent w) (hex_text b) (printed bytes)

  send_rounds_sent :
      (n i : ℕ) (buff : List ℕ) (w : W)
      → let w' = send_rounds uno mfrc522 n i buff w in
        (log.sent w' ≡ log.sent w ++ slice (i * 16) (n * 16) buff)
        × (mfrc522.uid w' ≡ mfrc522.uid w)
  unfolding send_rounds
  send_rounds_sent zero i buff w = (sym (append-nil (log.sent w)), refl)
  send_rounds_sent (suc n) i buff w =
      let w1 = uno.print (slice (i * 16) 16 buff) w in
      let ih = send_rounds_sent n (i + 1) buff (uno.delay 100 w1) in
      let p = log.print_sent (slice (i * 16) 16 buff) w in
      let d = log.delay_sent 100 w1 in
      (
        ih.0
            ∙ ap (λ t. t ++ slice ((i + 1) * 16) (n * 16) buff) (d.0 ∙ p.0)
            ∙ append_assoc (log.sent w) (slice (i * 16) 16 buff)
                (slice ((i + 1) * 16) (n * 16) buff)
            ∙ ap (λ t. log.sent w ++ t) (slice-split i n buff),
        ih.1 ∙ d.1 ∙ p.1,
      )

  send_block_sent :
      (buff : List ℕ) (number : ℕ) (w : W)
      → let w' = send_block uno mfrc522 buff number w in
        (log.sent w' ≡ log.sent w ++ (take 64 buff ++ ((0x30 + number) ∷ [])))
        × (mfrc522.uid w' ≡ mfrc522.uid w)
  unfolding send_block
  send_block_sent buff number w =
      let w1 = send_rounds uno mfrc522 4 0 buff w in
      let r = send_rounds_sent 4 0 buff w in
      let p = log.print_sent ((0x30 + number) ∷ []) w1 in
      (
        p.0
            ∙ ap (λ t. t ++ ((0x30 + number) ∷ [])) r.0
            ∙ append_assoc (log.sent w) (take 64 buff) ((0x30 + number) ∷ []),
        p.1 ∙ r.1,
      )

  -- `send_data` sends the first 64 bytes of the four buffers, each with its number behind it, which
  -- is the message that `wait_message` looks for, and then the serial number of the card in the base
  -- 16, a byte below 16 as one digit.
  pub send_data_lem :
      (s : Sketch) (w : W)
      → log.sent (send_data uno mfrc522 s w)
        ≡ log.sent w
          ++ (frame (take 64 s.nome) (take 64 s.cognome) (take 64 s.user) (take 64 s.psw)
              ++ printed (mfrc522.uid w))
  unfolding send_data print_serial
  send_data_lem s w =
      let w1 = send_block uno mfrc522 s.nome 0 w in
      let w2 = send_block uno mfrc522 s.cognome 1 w1 in
      let w3 = send_block uno mfrc522 s.user 2 w2 in
      let w4 = send_block uno mfrc522 s.psw 3 w3 in
      let r1 = send_block_sent s.nome 0 w in
      let r2 = send_block_sent s.cognome 1 w1 in
      let r3 = send_block_sent s.user 2 w2 in
      let r4 = send_block_sent s.psw 3 w3 in
      let d = log.delay_sent 600 w4 in
      print_bytes_sent (mfrc522.uid (uno.delay 600 w4)) (uno.delay 600 w4)
      ∙ ap₂ ◌++◌
          (d.0
            ∙ r4.0
            ∙ ap (λ t. t ++ (take 64 s.psw ++ 0x33 ∷ []))
                (r3.0
                  ∙ ap (λ t. t ++ (take 64 s.user ++ 0x32 ∷ []))
                      (r2.0 ∙ ap (λ t. t ++ (take 64 s.cognome ++ 0x31 ∷ [])) r1.0)))
          (ap printed (d.1 ∙ r4.1 ∙ r3.1 ∙ r2.1 ∙ r1.1))
      ∙ joined (log.sent w) (take 64 s.nome) (take 64 s.cognome) (take 64 s.user) (take 64 s.psw)
          (printed (mfrc522.uid w)) 0x30 0x31 0x32 0x33
