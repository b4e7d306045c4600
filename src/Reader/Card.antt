-- ===== src/Reader/Card.antt =====
-- What a card leaves in the reader's globals: the checks of ArgoRFID_Reader.c between a message and
-- the release of its credentials.
use secure_rfid_login.Common.{
  ℕ, ◌+◌, ◌≤◌, ◌<◌, ◌≡◌, ◌≢◌, refl, sym, ap, ◌∙◌, inl, inr, ◌||◌, true, false, some, List, ◌++◌,
  pos, eq_ℤ, Bool-cases, ok, >>=-eq-ok, length, zeros, strlen, append_cancel, overwrite_all, arith,
}
use secure_rfid_login.Host.{Host, IsStream}
use secure_rfid_login.Device.{wait_message, wait_serial_number}
use secure_rfid_login.Device.Frame.{message_size, frame, slices_frame}
use secure_rfid_login.Device.Message.Accept.{wait_message-frame}
use secure_rfid_login.Device.Serial.{wait_serial_number_lem}
use secure_rfid_login.Database.{Mysql, is_serial_present}
use secure_rfid_login.Crypt.{Aes, decrypt_data}
use secure_rfid_login.Reader.Fields.{send_info_notification_lem}
use secure_rfid_login.Reader.{
  Reader, Desktop, timeout, load_fields, send_info_notification, check_card, take_message,
  start_command,
}

module _ {W : Type 0} (desktop : Desktop W) where
  -- The notification changes only the name and the notification itself.
  pub record KeepsCard (g g' : Reader) : Type 0 where
    pub username : g'.username ≡ g.username
    pub password : g'.password ≡ g.password
    pub present : g'.is_data_present ≡ g.is_data_present
    pub serial : g'.serialnumber ≡ g.serialnumber

  pub send_info_notification-KeepsCard :
      (g g' : Reader) (w w' : W) → send_info_notification desktop g w ≡ ok (g', w') → KeepsCard g g'
  unfolding send_info_notification
  send_info_notification-KeepsCard g g' w w' e = ground arith

module _ {W Context : Type 0} (db : Mysql W) (desktop : Desktop W) (aes : Aes Context)
    (static_key random_iv : List ℕ) where
  -- How `check_card` ends for the card of `g`, asked about in the world `v`.
  pub record Checked (g g' : Reader) (v : W) : Type 0 where
    pub serial : g'.serialnumber ≡ g.serialnumber
    pub verdict :
        g'.is_data_present
        ≡ (g.is_data_present || eq_ℤ (is_serial_present db g.serialnumber v).0 (pos 1))
    pub refused :
        (is_serial_present db g.serialnumber v).0 ≢ pos 1
        → (g'.username ≡ g.username) × (g'.password ≡ g.password)
    pub accepted :
        (is_serial_present db g.serialnumber v).0 ≡ pos 1
        → let (_, u, p) =
            decrypt_data aes static_key random_iv g.enc_username g.enc_password g.username
              g.password in
          (g'.username ≡ u) × (g'.password ≡ p)

  -- If the check of a card comes back, it has not changed the serial number, has marked the data
  -- present only if they already were or the database answered 1 for that number, has left the
  -- credentials untouched on any other answer, and has stored the decrypted ones on the answer 1.
  pub check_card-Checked :
      (g g' : Reader) (w w' : W)
      → check_card db desktop aes static_key random_iv g w ≡ ok (g', w')
      → Checked g g' w
  unfolding check_card
  check_card-Checked g g' w w' e =
      let (present, w1) = is_serial_present db g.serialnumber w in
      let (_, u, p) =
        decrypt_data aes static_key random_iv g.enc_username g.enc_password g.username g.password in
      let g1 : Reader = record g { is_data_present = true; username = u; password = p } in
      elim (Bool-cases (eq_ℤ present (pos 1))) [
        | inl yes_present ↦
            let (r, sent, last) =
              >>=-eq-ok (send_info_notification desktop g1 w1)
                (λ r. ok (r.0, desktop.system start_command r.1)) (rw yes_present at e) in
            ground (arith, send_info_notification-KeepsCard desktop g1 r.0 w1 r.1 sent)
        | inr not_present ↦ ground arith
      ]

  -- A card whose name and surname fit the notification is dealt with.
  pub check_card_ok :
      (g : Reader) (w : W) (m n : ℕ)
      → length g.name ≡ 64
      → strlen g.name ≡ some m
      → strlen g.surname ≡ some n
      → 64 ≤ length g.notification.info
      → 34 ≤ length g.notification.info_title
      → m + n < 64
      → (r : Reader × W) × (check_card db desktop aes static_key random_iv g w ≡ ok r)
  unfolding check_card
  check_card_ok g w m n h hm hn hi ht small =
      let (present, w1) = is_serial_present db g.serialnumber w in
      let (_, u, p) =
        decrypt_data aes static_key random_iv g.enc_username g.enc_password g.username g.password in
      let g1 : Reader = record g { is_data_present = true; username = u; password = p } in
      let shown = (send_info_notification_lem desktop g1 w1 m n h hm hn hi ht).1 small in
      let r = shown.0 in
      elim (Bool-cases (eq_ℤ present (pos 1))) [
        | inl yes_present ↦ ((r.0, desktop.system start_command r.1), rw (yes_present, shown.1))
        | inr not_present ↦ ((g, w1), rw not_present)
      ]

module _ {W Context : Type 0} (host : Host W) (db : Mysql W) (desktop : Desktop W)
    (aes : Aes Context) (static_key random_iv : List ℕ) where
  -- The buffers have the sizes that the C code declares.
  pub record IsSized (g : Reader) : Type 0 where
    pub buff : length g.buff ≡ message_size
    pub enc_username : length g.enc_username ≡ 64
    pub enc_password : length g.enc_password ≡ 64
    pub serialnumber : length g.serialnumber ≡ 4

  -- How `take_message` ends after a whole message of the blocks `n`, `s`, `u` and `p` and the serial
  -- number `serial`: the database was asked about that number, in some world `v`, and the credentials
  -- are the decrypted ones if it knows the card, and empty and withheld if not.
  pub record Taken (u p serial : List ℕ) (g' : Reader) : Type 0 where
    pub asked_in : W
    pub serial_read : g'.serialnumber ≡ serial
    pub verdict : g'.is_data_present ≡ eq_ℤ (is_serial_present db serial asked_in).0 (pos 1)
    pub refused : g'.is_data_present ≡ false → (g'.username ≡ zeros 64) × (g'.password ≡ zeros 64)
    pub accepted :
        g'.is_data_present ≡ true
        → let (_, user, pass) = decrypt_data aes static_key random_iv u p (zeros 64) (zeros 64) in
          (g'.username ≡ user) × (g'.password ≡ pass)

  Checked-Taken :
      (g g' : Reader) (u p serial : List ℕ) (v : W)
      → g.is_data_present ≡ false
      → g.username ≡ zeros 64
      → g.password ≡ zeros 64
      → g.enc_username ≡ u
      → g.enc_password ≡ p
      → g.serialnumber ≡ serial
      → Checked db desktop aes static_key random_iv g g' v
      → Taken u p serial g'
  Checked-Taken g g' u p serial v absent eu ep cu cp es c =
      let verdict : g'.is_data_present ≡ eq_ℤ (is_serial_present db serial v).0 (pos 1) =
        ground (arith, c.verdict) in
      record {
        asked_in = v;
        serial_read = c.serial ∙ es;
        verdict = verdict;
        refused = λ d. ground (arith, c.refused);
        accepted = λ d. ground (arith, c.accepted);
      }

  -- The globals before the check of the card, after the message in `buff` and the number in `serial`.
  loaded : Reader → (buff serial : List ℕ) → Reader
  loaded g buff serial =
      load_fields (record g { is_data_present = false; buff = buff; serialnumber = serial })

  -- The blocks of a whole message end up in their fields.
  loaded_lem :
      (g : Reader) (n s u p serial : List ℕ)
      → IsSized g
      → length n ≡ 64
      → length s ≡ 64
      → length u ≡ 64
      → length p ≡ 64
      → let g' = loaded g (frame n s u p) serial in
        (g'.name ≡ n) × (g'.surname ≡ s) × (g'.enc_username ≡ u) × (g'.enc_password ≡ p)
  unfolding loaded load_fields
  loaded_lem g n s u p serial sized hn hs hu hp =
      let slices = slices_frame n s u p hn hs hu hp in
      (
        rw slices.0 (overwrite_all (zeros 64) n (omega arith)),
        rw slices.1 (overwrite_all (zeros 64) s (omega arith)),
        rw slices.2 (overwrite_all g.enc_username u (omega (arith, sized.enc_username))),
        rw slices.3 (overwrite_all g.enc_password p (omega (arith, sized.enc_password))),
      )

  module _ (g : Reader) (stream : IsStream host g.port) where
    -- If the board announces a card and sends its four blocks and its serial number, the message
    -- before its timeout, and the name and the surname fit the notification, then `take_message`
    -- comes back with what `Taken` says, whatever was in the reader's buffers before.
    pub take_message-Taken :
        (fuel : ℕ) (n s u p serial rest : List ℕ) (w : W) {answer l m : ℕ} {buff out : List ℕ}
        {w1 w2 : W}
        → IsSized g
        → length n ≡ 64
        → length s ≡ 64
        → length u ≡ 64
        → length p ≡ 64
        → length serial ≡ 4
        → strlen n ≡ some l
        → strlen s ≡ some m
        → l + m < 64
        → 64 ≤ length g.notification.info
        → 34 ≤ length g.notification.info_title
        → stream.input w ≡ frame n s u p ++ (serial ++ rest)
        → wait_message host fuel g.port timeout g.buff message_size w ≡ some (answer, buff, w1)
        → host.time w1 < host.time w + timeout
        → wait_serial_number host fuel g.port g.serialnumber w1 ≡ some (out, w2)
        → (r : Reader × W) × (take_message host db desktop aes static_key random_iv fuel g w ≡ ok r)
          × Taken u p serial r.0
    unfolding take_message loaded load_fields
    take_message-Taken fuel n s u p serial rest w {answer} {l} {m} {buff} {out} {w1} {w2} sized hn
          hs hu hp hser hl hm small hi ht inp waited early read =
        let msg =
          wait_message-frame host g.port stream fuel timeout g.buff n s u p (serial ++ rest) w
            sized.buff hn hs hu hp inp waited early in
        let number =
          wait_serial_number_lem host g.port stream fuel g.serialnumber w1 sized.serialnumber
            read in
        let same = append_cancel out serial (number.1 ∙ sym hser) (sym number.0 ∙ msg.2) in
        let fields = loaded_lem g n s u p serial sized hn hs hu hp in
        let g2 = loaded g (frame n s u p) serial in
        let r =
          check_card_ok db desktop aes static_key random_iv g2 w2 l m (ap length fields.0 ∙ hn)
            (ap strlen fields.0 ∙ hl) (ap strlen fields.1 ∙ hm) hi ht small in
        let c = check_card-Checked db desktop aes static_key random_iv g2 r.0.0 w2 r.0.1 r.1 in
        (
          r.0,
          rw (waited, take_message, msg.0, msg.1, read, same.0) r.1,
          Checked-Taken g2 r.0.0 u p serial w2 refl refl refl fields.2 fields.3 refl c,
        )
