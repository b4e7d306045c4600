-- ===== src/Threads/Passage.antt =====
-- The reader thread alone: its steps make the same of a card as the handler in one piece.
use secure_rfid_login.Common.{
  ℕ, ℤ, ◌≢◌, Bool, if◌then◌else◌, ◌≡◌, refl, ap, subst, ◌∙◌, inl, inr, Bool-cases, List, ◌∷◌, pos,
  eq_ℤ, ok, true, false, >>=-eq-ok, arith,
}
use secure_rfid_login.Database.{Mysql, is_serial_present}
use secure_rfid_login.Crypt.{Aes, decrypt_data, dec_cfb, max_block_size}
use secure_rfid_login.Reader.{
  Reader, Desktop, load_fields, check_card, send_info_notification, start_command,
}
use secure_rfid_login.Reader.Fields.{send_info_notification_same}
use secure_rfid_login.Threads.{
  Shared, ServerPc, ReaderPc, received, fields_set, present, notifying, polling, ReaderMove,
  clear_name, clear_surname, clear_username, clear_password, set_name, set_surname, set_username,
  set_password, refused, accepts, set_present, decrypt_username, end_username, fail_username,
  decrypt_password, end_password, notified, reader_moves, Reach, here, later, no_desktop,
  with_globals, card_of,
}

ne_one : (z : ℤ) → eq_ℤ z (pos 1) ≡ false → z ≢ pos 1
ne_one z h e = ground (arith, e, h)

module _ {Context : Type 0} (aes : Aes Context) (static_key random_iv : List ℕ) where
  -- Steps of the reader thread, one after another.
  pub data Alone (m : Shared) (p : ReaderPc) : Shared → ReaderPc → Type 0 where
    start : Alone m p m p
    next :
        {n o : Shared} {q r : ReaderPc}
        → Alone m p n q
        → ReaderMove aes static_key random_iv n q o r
        → Alone m p o r

  pub fields_taken :
      (m : Shared) → Alone m received (with_globals m (load_fields m.globals)) fields_set
  unfolding load_fields
  fields_taken m =
      next
        (next
          (next
            (next
              (next (next (next (next start clear_name) clear_surname) clear_username)
                clear_password)
              set_name)
            set_surname)
          set_username)
        set_password

  -- The globals after `decrypt_data`.
  abbrev pub decrypted : Reader → Reader
  decrypted g =
      let (_, username, password) =
        decrypt_data aes static_key random_iv g.enc_username g.enc_password g.username g.password in
      record g { username = username; password = password }

  pub fields_decrypted :
      (m : Shared) → Alone m present (with_globals m (decrypted m.globals)) notifying
  unfolding decrypt_data
  fields_decrypted m =
      let g : Reader = m.globals in
      elim (Bool-cases
        (dec_cfb aes static_key random_iv max_block_size g.enc_username g.username).0) [
          | inl e ↦ rw e (
              next
                (next (next (next start (decrypt_username refl refl)) end_username)
                  (decrypt_password refl refl))
                end_password)
          | inr e ↦ rw e (next (next start (decrypt_username refl refl)) (fail_username e))
        ]

  pub reached :
      {m : Shared} {p : ReaderPc} {n : Shared} {r : ReaderPc} (q : ServerPc)
      → Alone m p n r
      → Reach aes static_key random_iv
          (record { shared = m; reader = p; server = q })
          (record { shared = n; reader = r; server = q })
  reached q start = here
  reached q (next a move) = later (reached q a) (reader_moves move)

  -- The reader thread's steps from `received` to `polling`, with the answer of the database.
  abbrev pub after : Bool → Shared → Reader → Shared
  after accepted m g = record {
    globals = g;
    accepted = if accepted then card_of (load_fields m.globals) ∷ m.accepted else m.accepted;
    sent = m.sent;
  }

  pub joined :
      {m n : Shared} {p r : ReaderPc} {o : Shared} {s : ReaderPc}
      → Alone m p n r
      → Alone n r o s
      → Alone m p o s
  joined a start = a
  joined a (next b move) = next (joined a b) move

  accepted_steps :
      (m : Shared) (g : Reader)
      → send_info_notification no_desktop
          (record (decrypted (load_fields m.globals)) { is_data_present = true })
          tt
        ≡ ok (g, tt)
      → Alone m received (after true m g) polling
  accepted_steps m g e =
      let taken = with_globals m (load_fields m.globals) in
      let kept : Shared = record taken { accepted = card_of taken.globals ∷ m.accepted } in
      let ready : Shared = with_globals kept (record kept.globals { is_data_present = true }) in
      next (joined (next (next (fields_taken m) accepts) set_present) (fields_decrypted ready))
        (notified e)

  -- A card that the handler of the reader thread deals with in one piece is dealt with in steps,
  -- with the same globals at the end and the card among the accepted ones exactly if the database
  -- answers 1; whatever the server thread is about to do stays as it is.
  pub check_card-Reach :
      {W : Type 0} (db : Mysql W) (desktop : Desktop W) (m : Shared) (q : ServerPc) (g : Reader)
      (w w' : W)
      → check_card db desktop aes static_key random_iv (load_fields m.globals) w ≡ ok (g, w')
      → let answer = (is_serial_present db (load_fields m.globals).serialnumber w).0 in
        Reach aes static_key random_iv
          (record { shared = m; reader = received; server = q })
          (record { shared = after (eq_ℤ answer (pos 1)) m g; reader = polling; server = q })
  unfolding check_card
  check_card-Reach db desktop m q g w w' e =
      let l : Reader = load_fields m.globals in
      let answered = is_serial_present db l.serialnumber w in
      let g1 : Reader = record (decrypted l) { is_data_present = true } in
      elim (Bool-cases (eq_ℤ answered.0 (pos 1))) [
        | inl yes_present ↦
            let (r, sent, last) =
              >>=-eq-ok (send_info_notification desktop g1 answered.1)
                (λ r. ok (r.0, desktop.system start_command r.1)) (rw yes_present at e) in
            reached q (
              rw yes_present (
                accepted_steps m g (
                  send_info_notification_same desktop no_desktop g1 g answered.1 r.1
                    (sent ∙ ap (λ t. ok t) (ground (arith, last))))))
        | inr not_present ↦
            let same : l ≡ g = ground (arith, e, not_present) in
            let steps : Alone m received (after false m l) polling =
              next (fields_taken m) (refused answered.0 (ne_one answered.0 not_present)) in
            reached q
              (rw not_present (subst (λ t. Alone m received (after false m t) polling) same steps))
      ]
