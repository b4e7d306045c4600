-- ===== src/Board/Writing/Cards.antt =====
-- What `loop` of argoRFID_Writer.ino does with a card when the message is complete.
use secure_rfid_login.Common.{
  ℕ, ◌≤◌, ◌≡◌, refl, ap, ◌∙◌, ◌⊎◌, inl, inr, Bool, true, false, List, [], ◌∷◌, ◌||◌, pos, minus_one,
  length, take, Bool-cases,
}
use secure_rfid_login.Board.{
  Uno, Mfrc522, block_name, block_cogn, block_user, block_pass, b_key, select_card, print_bytes,
  print_serial, stop_write,
}
use secure_rfid_login.Board.Layout.{Stores, Accepts, elem, layout, field}
use secure_rfid_login.Board.Mifare.Writes.{write_fields_lem}
use secure_rfid_login.Board.Writing.{Board, write_fields, wait_card}

no_field :
    (a b c d : Bool)
    → (a || (b || (c || d))) ≡ false
    → (a ≡ false) × (b ≡ false) × (c ≡ false) × (d ≡ false)
no_field false false false false h = (refl, refl, refl, refl)
no_field true b c d h = cc
no_field false true c d h = cc
no_field false false true d h = cc
no_field false false false true h = cc

module _ {W : Type 0} (uno : Uno W) (mfrc522 : Mfrc522 W) where
  -- A card whose blocks do not change when it is selected or left, nor while the board waits or prints a
  -- number.
  pub record Stays (card : Stores uno mfrc522 b_key) : Type 0 where
    pub present_store : (w : W) → card.store (mfrc522.is_new_card_present w).1 ≡ card.store w
    pub select_store : (w : W) → card.store (mfrc522.read_card_serial w).1 ≡ card.store w
    pub halt_store : (w : W) → card.store (mfrc522.halt_a w) ≡ card.store w
    pub stop_store : (w : W) → card.store (mfrc522.stop_crypto1 w) ≡ card.store w
    pub delay_store : (ms : ℕ) (w : W) → card.store (uno.delay ms w) ≡ card.store w
    pub hex_store : (b : ℕ) (w : W) → card.store (uno.print_hex b w) ≡ card.store w

module _ {W : Type 0} (uno : Uno W) (mfrc522 : Mfrc522 W) (card : Stores uno mfrc522 b_key)
    (stays : Stays uno mfrc522 card) where
  print_bytes_store :
      (bytes : List ℕ) (w : W) → card.store (print_bytes uno mfrc522 bytes w) ≡ card.store w
  unfolding print_bytes
  print_bytes_store [] w = refl
  print_bytes_store (b ∷ bytes) w =
      print_bytes_store bytes (uno.print_hex b w) ∙ stays.hex_store b w

  print_serial_store : (w : W) → card.store (print_serial uno mfrc522 w) ≡ card.store w
  unfolding print_serial
  print_serial_store w = print_bytes_store (mfrc522.uid w) w

  stop_write_store : (w : W) → card.store (stop_write uno mfrc522 w) ≡ card.store w
  unfolding stop_write
  stop_write_store w = stays.stop_store (mfrc522.halt_a w) ∙ stays.halt_store w

  select_card_lem :
      (w : W)
      → (((select_card uno mfrc522 w).0 ≡ pos 0) ⊎ ((select_card uno mfrc522 w).0 ≡ minus_one))
        × (card.store (select_card uno mfrc522 w).1 ≡ card.store w)
  unfolding select_card
  select_card_lem w =
      let (present, w1) = mfrc522.is_new_card_present w in
      elim (Bool-cases present) [
        | inr gone ↦ rw gone (inr refl, stays.present_store w)
        | inl there ↦ elim (Bool-cases (mfrc522.read_card_serial w1).0) [
          | inl good ↦ rw (there, good) (inl refl, stays.select_store w1 ∙ stays.present_store w)
          | inr bad ↦ rw (there, bad) (inr refl, stays.select_store w1 ∙ stays.present_store w)
        ]
      ]

  -- With arrays of 64 bytes or more, a complete message, and a card that takes the key and changes
  -- only by a write: if no card can be selected, the globals and the blocks of the card are as
  -- they were, and the message still waits; if one can, its four fields are the first 64 bytes of
  -- the four arrays, no other block has changed, no trailer among them, and the board waits for
  -- the next message.
  pub wait_card_lem :
      (accepts : Accepts uno mfrc522 b_key card) (s : Board) (w : W)
      → 64 ≤ length s.nome
      → 64 ≤ length s.cognome
      → 64 ≤ length s.user
      → 64 ≤ length s.psw
      → let (finished, s', w') = wait_card uno mfrc522 s w in
        (((select_card uno mfrc522 w).0 ≡ minus_one)
          × (finished ≡ false)
          × (s' ≡ s)
          × (card.store w' ≡ card.store w))
        ⊎ (((select_card uno mfrc522 w).0 ≡ pos 0)
            × (finished ≡ true)
            × (s' ≡ record s { block_ready = 0 })
            × (field block_name (card.store w') ≡ take 64 s.nome)
            × (field block_cogn (card.store w') ≡ take 64 s.cognome)
            × (field block_user (card.store w') ≡ take 64 s.user)
            × (field block_pass (card.store w') ≡ take 64 s.psw)
            × ((i : ℕ)
                → (elem i (layout block_name)
                    || (elem i (layout block_cogn)
                        || (elem i (layout block_user) || elem i (layout block_pass))))
                  ≡ false
                → card.store w' i ≡ card.store w i))
  unfolding wait_card
  wait_card_lem accepts s w hn hc hu hp =
      let (got, w1) = select_card uno mfrc522 w in
      let (answer, same) = select_card_lem w in
      let w2 = print_serial uno mfrc522 (uno.delay 200 w1) in
      let w3 = write_fields uno mfrc522 s.nome s.cognome s.user s.psw w2 in
      let r =
        write_fields_lem uno mfrc522 card accepts s.nome s.cognome s.user s.psw hn hc hu hp w2 in
      let before : card.store w2 ≡ card.store w =
        print_serial_store (uno.delay 200 w1) ∙ stays.delay_store 200 w1 ∙ same in
      let after : card.store (stop_write uno mfrc522 w3) ≡ card.store w3 = stop_write_store w3 in
      elim answer [
        | inr none_there ↦ rw none_there (inl (refl, refl, refl, same))
        | inl there ↦ rw there (
            inr (
              refl,
              refl,
              refl,
              ap (field block_name) after ∙ r.0,
              ap (field block_cogn) after ∙ r.1,
              ap (field block_user) after ∙ r.2,
              ap (field block_pass) after ∙ r.3,
              λ i e.
                  let f = no_field _ _ _ _ e in
                  ap (λ m. m i) after ∙ r.4 i f.0 f.1 f.2 f.3 ∙ ap (λ m. m i) before,
            ))
      ]
