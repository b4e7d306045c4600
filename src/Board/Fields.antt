-- ===== src/Board/Fields.antt =====
-- What the arrays of argoRFID_Reader.ino hold when a card was read, or not.
use secure_rfid_login.Common.{
  ℕ, ◌≡◌, refl, ap, ◌∙◌, inl, inr, Bool, true, false, List, Bool-cases, length, take, length-set,
  take-set, arith,
}
use secure_rfid_login.Board.{
  Uno, Mfrc522, Field, block_name, block_cogn, block_user, block_pass, b_key,
}
use secure_rfid_login.Board.Layout.{Stores, Accepts, field}
use secure_rfid_login.Board.Mifare.{read_blocks}
use secure_rfid_login.Board.Mifare.Reads.{read_blocks_lem}
use secure_rfid_login.Board.Mifare.Accepted.{four_reads_ok}
use secure_rfid_login.Board.Reading.{Sketch, read_field, read_fields}

-- The sketch's arrays.
pub record IsSized (s : Sketch) : Type 0 where
  pub nome : length s.nome ≡ 65
  pub cognome : length s.cognome ≡ 65
  pub user : length s.user ≡ 65
  pub psw : length s.psw ≡ 65

module _ {W : Type 0} (uno : Uno W) (mfrc522 : Mfrc522 W) (returned : Bool → W → Bool)
    (card : Stores uno mfrc522 b_key) (honest : (e : Bool) (w : W) → returned e w ≡ e) where
  read_field_lem :
      (f : Field) (number : ℕ) (buff : List ℕ) (w : W)
      → length buff ≡ 65
      → let (answer, buff', w') = read_field uno mfrc522 returned f number buff w in
        (card.store w' ≡ card.store w)
        × (length buff' ≡ 65)
        × (answer ≡ true → take 64 buff' ≡ field f (card.store w))
  unfolding read_field
  read_field_lem f number buff w h =
      let r = read_blocks uno mfrc522 b_key returned f buff w in
      let p = read_blocks_lem uno mfrc522 b_key card returned f buff w honest (omega arith) in
      elim (Bool-cases r.0) [
        | inl good ↦
            rw good (
              p.0,
              length-set r.1 64 _ ∙ p.1 ∙ h,
              λ _. take-set 64 64 r.1 _ (omega arith) ∙ p.2 good,
            )
        | inr bad ↦ rw bad (p.0, p.1 ∙ h, λ e. absurd (cc e))
      ]

  -- Let the arrays have 65 bytes, and the caller of read_blocks find the value that the function
  -- worked out. Whatever calls of the library fail: the arrays keep their size; if the sketch
  -- comes to its end with the card, it has something to send, and the four arrays hold the four
  -- fields of the card; if it returns early, it has something to send only if it had before.
  pub read_fields_lem :
      (s : Sketch) (w : W)
      → IsSized s
      → let (finished, s', w') = read_fields uno mfrc522 returned s w in
        IsSized s'
        × (finished ≡ true
            → (s'.somthing_to_send ≡ true)
              × (take 64 s'.nome ≡ field block_name (card.store w))
              × (take 64 s'.cognome ≡ field block_cogn (card.store w))
              × (take 64 s'.user ≡ field block_user (card.store w))
              × (take 64 s'.psw ≡ field block_pass (card.store w)))
        × (finished ≡ false → s'.somthing_to_send ≡ s.somthing_to_send)
        × (s'.connection_done ≡ s.connection_done)
  unfolding read_fields
  read_fields_lem s w h =
      let r1 = read_field uno mfrc522 returned block_name 0 s.nome w in
      let r2 = read_field uno mfrc522 returned block_cogn 1 s.cognome r1.2 in
      let r3 = read_field uno mfrc522 returned block_user 2 s.user r2.2 in
      let r4 = read_field uno mfrc522 returned block_pass 3 s.psw r3.2 in
      let p1 = read_field_lem block_name 0 s.nome w h.nome in
      let p2 = read_field_lem block_cogn 1 s.cognome r1.2 h.cognome in
      let p3 = read_field_lem block_user 2 s.user r2.2 h.user in
      let p4 = read_field_lem block_pass 3 s.psw r3.2 h.psw in
      let at_1 : IsSized (record s { nome = r1.1 }) = record {
        nome = p1.1;
        cognome = h.cognome;
        user = h.user;
        psw = h.psw;
      } in
      let at_2 : IsSized (record s { nome = r1.1; cognome = r2.1 }) = record {
        nome = p1.1;
        cognome = p2.1;
        user = h.user;
        psw = h.psw;
      } in
      let at_3 : IsSized (record s { nome = r1.1; cognome = r2.1; user = r3.1 }) = record {
        nome = p1.1;
        cognome = p2.1;
        user = p3.1;
        psw = h.psw;
      } in
      let at_4 : IsSized (record s {
        nome = r1.1;
        cognome = r2.1;
        user = r3.1;
        psw = r4.1;
        somthing_to_send = true;
      }) =
        record { nome = p1.1; cognome = p2.1; user = p3.1; psw = p4.1 } in
      elim (Bool-cases r1.0) [
        | inr bad ↦ rw bad (at_1, λ e. absurd (cc e), λ _. refl, refl)
        | inl good_1 ↦ elim (Bool-cases r2.0) [
          | inr bad ↦ rw (good_1, bad) (at_2, λ e. absurd (cc e), λ _. refl, refl)
          | inl good_2 ↦ elim (Bool-cases r3.0) [
            | inr bad ↦ rw (good_1, good_2, bad) (at_3, λ e. absurd (cc e), λ _. refl, refl)
            | inl good_3 ↦ elim (Bool-cases r4.0) [
              | inr bad ↦
                  rw (good_1, good_2, good_3, bad)
                    (
                      record { nome = p1.1; cognome = p2.1; user = p3.1; psw = p4.1 },
                      λ e. absurd (cc e),
                      λ _. refl,
                      refl,
                    )
              | inl good_4 ↦
                  rw (good_1, good_2, good_3, good_4)
                    (
                      at_4,
                      λ _. (
                        refl,
                        p1.2 good_1,
                        p2.2 good_2 ∙ ap (field block_cogn) p1.0,
                        p3.2 good_3 ∙ ap (field block_user) (p2.0 ∙ p1.0),
                        p4.2 good_4 ∙ ap (field block_pass) (p3.0 ∙ p2.0 ∙ p1.0),
                      ),
                      λ e. absurd (cc e),
                      refl,
                    )
            ]
          ]
        ]
      ]

  module _ (accepts : Accepts uno mfrc522 b_key card) where
    -- On a card that takes the key it comes to its end.
    pub read_fields_finishes :
        (s : Sketch) (w : W) → (read_fields uno mfrc522 returned s w).0 ≡ true
    unfolding read_fields read_field
    read_fields_finishes s w =
        let r =
          four_reads_ok uno mfrc522 b_key card accepts returned honest s.nome s.cognome s.user s.psw
            w in
        rw (r.0, r.1, r.2, r.3) refl
