-- ===== src/Login.antt =====
-- The whole way of a card: the board's message (ArgoRFID_Reader.c, ArduinoRFID.c), the table of cards
-- (DatabaseManager.c), the cipher (EncDec.c), and the page's request (secure-rfid-login.c).
use secure_rfid_login.Common.{
  ℕ, ◌+◌, ◌≤◌, ◌<◌, ◌≡◌, refl, sym, ap, ◌∙◌, true, ◌&&◌, some, List, ◌++◌, pos, eq_ℤ, if◌then◌else◌,
  ◌==◌, Bool-cases, inl, inr, ok, length, zeros, strlen, c_str, arith,
}
use secure_rfid_login.Host.{Host, IsStream}
use secure_rfid_login.Device.{wait_message, wait_serial_number}
use secure_rfid_login.Device.Frame.{message_size, frame}
use secure_rfid_login.Database.{Mysql, is_serial_present}
use secure_rfid_login.Crypt.{Aes, encrypt_data, decrypt_data}
use secure_rfid_login.Crypt.Laws.{IsCfb, length-encrypt_data, decrypt_data-encrypt_data}
use secure_rfid_login.Reader.{Reader, Desktop, timeout, take_message}
use secure_rfid_login.Reader.Card.{IsSized, Taken, take_message-Taken}
use secure_rfid_login.Server.{Connection, receive}
use secure_rfid_login.Server.Credentials.{id_yes, callback_dumb_increment}
use secure_rfid_login.Server.Credentials.Release.{
  IsCard, asks, answered, callback_dumb_increment-receive,
}

module _ {Context : Type 0} (aes : Aes Context) (static_key random_iv user pass : List ℕ) where
  -- The two encrypted blocks that the writer puts on a card.
  abbrev pub card_username : List ℕ
  card_username = (encrypt_data aes static_key random_iv user pass (zeros 64) (zeros 64)).1

  abbrev pub card_password : List ℕ
  card_password = (encrypt_data aes static_key random_iv user pass (zeros 64) (zeros 64)).2

  -- What decryption makes of the card's blocks.
  decrypted :
      IsCfb aes static_key
      → length user ≡ 64
      → length pass ≡ 64
      → decrypt_data aes static_key random_iv card_username card_password (zeros 64) (zeros 64)
        ≡ (true, user, pass)
  decrypted cfb hu hp =
      (decrypt_data-encrypt_data aes static_key random_iv cfb user pass (zeros 64) (zeros 64)
        (zeros 64) (zeros 64) hu hp refl refl refl refl).1

module _ {W Context : Type 0} (host : Host W) (db : Mysql W) (desktop : Desktop W)
    (aes : Aes Context) (static_key random_iv : List ℕ) (cfb : IsCfb aes static_key)
    (user pass : List ℕ) where
  module _ (g : Reader) (serial : List ℕ)
      (t : Taken host db desktop aes static_key random_iv
        (card_username aes static_key random_iv user pass)
        (card_password aes static_key random_iv user pass)
        serial
        g) where
    -- The credentials of the globals are the card's if it is known, and blank if not.
    taken_fields :
        length user ≡ 64
        → length pass ≡ 64
        → (g.username ≡ (if g.is_data_present then user else zeros 64))
          × (g.password ≡ (if g.is_data_present then pass else zeros 64))
    taken_fields hu hp =
        let d = decrypted aes static_key random_iv user pass cfb hu hp in
        elim (Bool-cases g.is_data_present) [
          | inl yes_present ↦
              let a = t.accepted yes_present in
              rw yes_present (a.0 ∙ ap (λ r. r.1) d, a.1 ∙ ap (λ r. r.2) d)
          | inr not_present ↦ rw not_present (t.refused not_present)
        ]

    -- Known or not, the globals are a card's.
    taken-IsCard :
        {m n : ℕ}
        → length user ≡ 64
        → length pass ≡ 64
        → strlen user ≡ some m
        → strlen pass ≡ some n
        → IsCard g
    taken-IsCard {m} {n} hu hp hm hn =
        let fields = taken_fields hu hp in
        elim (Bool-cases g.is_data_present) [
          | inl yes_present ↦
              let u : g.username ≡ user =
                fields.0 ∙ ap (λ b. if b then user else zeros 64) yes_present in
              let p : g.password ≡ pass =
                fields.1 ∙ ap (λ b. if b then pass else zeros 64) yes_present in
              record {
                username_size = ap length u ∙ hu;
                password_size = ap length p ∙ hp;
                user_length = m;
                pass_length = n;
                username_text = ap strlen u ∙ hm;
                password_text = ap strlen p ∙ hn;
              }
          | inr not_present ↦
              let (u, p) = t.refused not_present in
              record {
                username_size = ap length u;
                password_size = ap length p;
                user_length = 0;
                pass_length = 0;
                username_text = ap strlen u;
                password_text = ap strlen p;
              }
        ]

    module _ (wsi : Connection W) where
      -- What the page gets.
      abbrev pub outcome : W → List ℕ → W
      outcome w input =
          if asks input && eq_ℤ (is_serial_present db serial t.asked_in).0 (pos 1)
          then (let (answer, w1) = wsi.message_box w in
              if answer == id_yes
              then (wsi.write (c_str pass) (wsi.write (c_str user) w1).1).1
              else w1)
          else w

      answered_lem :
          (w : W)
          → length user ≡ 64
          → length pass ≡ 64
          → g.is_data_present ≡ true
          → answered wsi g w ≡ (
              let (answer, w1) = wsi.message_box w in
              if answer == id_yes
              then (wsi.write (c_str pass) (wsi.write (c_str user) w1).1).1
              else w1)
      answered_lem w hu hp d =
          let (u, p) = t.accepted d in
          let e = decrypted aes static_key random_iv user pass cfb hu hp in
          rw (u ∙ ap (λ r. r.1) e, p ∙ ap (λ r. r.2) e)

      -- The world after a request is `outcome`.
      outcome_lem :
          (input padding header_buffer : List ℕ) (w : W) {m n : ℕ}
          → length user ≡ 64
          → length pass ≡ 64
          → strlen user ≡ some m
          → strlen pass ≡ some n
          → 4 ≤ length input
          → callback_dumb_increment wsi receive g input padding header_buffer w
            ≡ ok (pos 0, outcome w input)
      outcome_lem input padding header_buffer w hu hp hm hn four =
          callback_dumb_increment-receive wsi g input padding header_buffer w
            (taken-IsCard hu hp hm hn) four
          ∙ ap (λ v. ok (pos 0, v))
              (elim (Bool-cases g.is_data_present) [
                | inl yes_present ↦
                    rw (sym t.verdict, yes_present, answered_lem w hu hp yes_present)
                | inr not_present ↦ ground (arith, t.verdict, not_present)
              ])

  module _ (wsi : Connection W) (g : Reader) (stream : IsStream host g.port) where
    -- A card that the writer has made of a user name and a password of 64 bytes, each with a
    -- terminator, is announced and read as in `take_message-Taken`. Then the reader comes back, and
    -- for every later request of the page of four bytes or more: if it begins with INIT, and the
    -- database answered 1 when it was asked about the card's serial number, and the user answers yes,
    -- the page gets exactly the user name and then the password; in all other cases it gets nothing.
    pub callback_dumb_increment-take_message :
        (fuel : ℕ) (n s serial rest input padding header_buffer : List ℕ) (w later : W)
        {answer l m a b : ℕ} {buff out : List ℕ} {w1 w2 : W}
        → IsSized host db desktop aes static_key random_iv g
        → length n ≡ 64
        → length s ≡ 64
        → length user ≡ 64
        → length pass ≡ 64
        → length serial ≡ 4
        → strlen n ≡ some l
        → strlen s ≡ some m
        → strlen user ≡ some a
        → strlen pass ≡ some b
        → l + m < 64
        → 64 ≤ length g.notification.info
        → 34 ≤ length g.notification.info_title
        → stream.input w
          ≡ frame n s
              (card_username aes static_key random_iv user pass)
              (card_password aes static_key random_iv user pass)
            ++ (serial ++ rest)
        → wait_message host fuel g.port timeout g.buff message_size w ≡ some (answer, buff, w1)
        → host.time w1 < host.time w + timeout
        → wait_serial_number host fuel g.port g.serialnumber w1 ≡ some (out, w2)
        → 4 ≤ length input
        → (r : Reader × W) × (take_message host db desktop aes static_key random_iv fuel g w ≡ ok r)
          × (t : Taken host db desktop aes static_key random_iv
              (card_username aes static_key random_iv user pass)
              (card_password aes static_key random_iv user pass)
              serial
              r.0)
          × (callback_dumb_increment wsi receive r.0 input padding header_buffer later
              ≡ ok (pos 0, outcome r.0 serial t wsi later input))
    callback_dumb_increment-take_message fuel n s serial rest input padding header_buffer w later
          sized hn hs hu hp hser hl hm ha hb small hi ht inp waited early read four =
        let blocks =
          length-encrypt_data aes static_key random_iv cfb user pass (zeros 64) (zeros 64) hu hp
            refl refl in
        let taken =
          take_message-Taken host db desktop aes static_key random_iv g stream fuel n s
            (card_username aes static_key random_iv user pass)
            (card_password aes static_key random_iv user pass) serial rest w sized hn hs blocks.0
            blocks.1 hser hl hm small hi ht inp waited early read in
        (
          taken.0,
          taken.1,
          taken.2,
          outcome_lem taken.0.0 serial taken.2 wsi input padding header_buffer later hu hp ha hb
              four,
        )
