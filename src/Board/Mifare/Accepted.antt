-- ===== src/Board/Mifare/Accepted.antt =====
-- `read_blocks` of MifareRFID.cpp on a card that takes the key: no call fails.
use secure_rfid_login.Common.{
  ℕ, ◌/◌, ◌<◌, ◌≡◌, refl, ap, ◌∙◌, Bool, true, ◌&&◌, Option, some, List, [], ◌∷◌, ltb, take,
  write_at, arith,
}
use secure_rfid_login.Board.{
  Uno, Mfrc522, Field, block_name, block_cogn, block_user, block_pass, auth_trailer, error_auth,
  error_read,
}
use secure_rfid_login.Board.Layout.{Stores, Accepts}
use secure_rfid_login.Board.Mifare.{
  Statement, auth, transfer, read_steps, read_step, run_reads, read_blocks,
}
use secure_rfid_login.Board.Mifare.Writes.{is_open, is_open→eq, last_sector, good_lem}

-- Every transfer is from a block of the sector that is open then.
abbrev is_readable : Option ℕ → List Statement → Bool
is_readable sector [] = true
is_readable sector (auth t ∷ steps) = is_readable (some (t / 4)) steps
is_readable sector (transfer b o ∷ steps) =
    is_open sector b && (ltb b 64 && is_readable sector steps)

readable :
    (sector : Option ℕ) (b o : ℕ) (steps : List Statement)
    → is_readable sector (transfer b o ∷ steps) ≡ true
    → (sector ≡ some (b / 4)) × (b < 64) × (is_readable sector steps ≡ true)
readable sector b o steps h = ground (arith, is_open→eq sector b)

module _ {W : Type 0} (uno : Uno W) (mfrc522 : Mfrc522 W) (key : List ℕ)
    (card : Stores uno mfrc522 key) (accepts : Accepts uno mfrc522 key card) where
  run_reads_ok :
      (steps : List Statement) (buff : List ℕ) (w : W)
      → is_readable (accepts.sector w) steps ≡ true
      → let (error, buff', w') = run_reads uno mfrc522 key steps buff w in
        (error ≡ true) × (accepts.sector w' ≡ last_sector (accepts.sector w) steps)
  unfolding run_reads read_step auth_trailer
  run_reads_ok [] buff w f = (refl, refl)
  run_reads_ok (auth t ∷ steps) buff w f =
      let r = mfrc522.authenticate t key w in
      let a = accepts.auth_ok t w in
      let ih = run_reads_ok steps buff r.1 (ap (λ s. is_readable s steps) a.1 ∙ f) in
      rw (good_lem uno mfrc522 error_auth r.0 r.1 a.0)
        (ih.0, ih.1 ∙ ap (λ s. last_sector s steps) a.1)
  run_reads_ok (transfer b o ∷ steps) buff w f =
      let r = mfrc522.mifare_read b w in
      let p = readable (accepts.sector w) b o steps f in
      let a = accepts.read_ok b w p.0 p.1 in
      let ih =
        run_reads_ok steps (write_at buff o (take 16 r.1)) r.2
          (ap (λ s. is_readable s steps) a.1 ∙ p.2) in
      rw (good_lem uno mfrc522 error_read r.0 r.2 a.0)
        (ih.0, ih.1 ∙ ap (λ s. last_sector s steps) a.1)

  read_blocks_ok :
      (returned : Bool → W → Bool) (f : Field) (buff : List ℕ) (w : W)
      → is_readable (accepts.sector w) (read_steps f) ≡ true
      → ((e : Bool) → returned e (read_blocks uno mfrc522 key returned f buff w).2 ≡ e)
      → let (answer, buff', w') = read_blocks uno mfrc522 key returned f buff w in
        (answer ≡ true) × (accepts.sector w' ≡ last_sector (accepts.sector w) (read_steps f))
  unfolding read_blocks
  read_blocks_ok returned f buff w h honest =
      let r = run_reads_ok (read_steps f) buff w h in (honest _ ∙ r.0, r.1)

  -- The four calls of the sketch, one behind the other, give true.
  pub four_reads_ok :
      (returned : Bool → W → Bool)
      → ((e : Bool) (w : W) → returned e w ≡ e)
      → (nome cognome user psw : List ℕ) (w : W)
      → let r1 = read_blocks uno mfrc522 key returned block_name nome w in
        let r2 = read_blocks uno mfrc522 key returned block_cogn cognome r1.2 in
        let r3 = read_blocks uno mfrc522 key returned block_user user r2.2 in
        let r4 = read_blocks uno mfrc522 key returned block_pass psw r3.2 in
        (r1.0 ≡ true) × (r2.0 ≡ true) × (r3.0 ≡ true) × (r4.0 ≡ true)
  unfolding read_steps
  four_reads_ok returned honest nome cognome user psw w =
      let r1 = read_blocks uno mfrc522 key returned block_name nome w in
      let r2 = read_blocks uno mfrc522 key returned block_cogn cognome r1.2 in
      let r3 = read_blocks uno mfrc522 key returned block_user user r2.2 in
      let p1 = read_blocks_ok returned block_name nome w refl (λ e. honest e _) in
      let p2 = read_blocks_ok returned block_cogn cognome r1.2 (rw p1.1 refl) (λ e. honest e _) in
      let p3 = read_blocks_ok returned block_user user r2.2 (rw p2.1 refl) (λ e. honest e _) in
      let p4 = read_blocks_ok returned block_pass psw r3.2 refl (λ e. honest e _) in
      (p1.0, p2.0, p3.0, p4.0)
