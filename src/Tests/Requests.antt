-- ===== src/Tests/Requests.antt =====
-- secure-rfid-login.c at concrete inputs: a page asks for the credentials.
use secure_rfid_login.Common.{
  ℕ, zero, suc, ◌≡◌, refl, true, not, ◌&&◌, some, List, [], ◌∷◌, ◌++◌, pos, minus_one, ok, inl, inr,
  Bool-cases, length, replicate, zeros, same_bytes, codes, HasNoNul, if◌then◌else◌, ◌==◌, lt→ltb,
  le→ltb_false, arith,
}
use secure_rfid_login.Device.{wait_message, wait_serial_number}
use secure_rfid_login.Device.Frame.{frame}
use secure_rfid_login.Crypt.{encrypt_data}
use secure_rfid_login.Reader.{Reader, take_message}
use secure_rfid_login.Reader.Card.{Taken, IsSized}
use secure_rfid_login.Server.{Connection, receive, filter_protocol_connection}
use secure_rfid_login.Server.Origin.{authorized_url, reject_request}
use secure_rfid_login.Server.Origin.Check.{IsBrowser}
use secure_rfid_login.Server.Origin.Url.{Handshake, reject_request-upgrade}
use secure_rfid_login.Server.Credentials.{id_yes, callback_dumb_increment}
use secure_rfid_login.Server.Credentials.Release.{
  IsCard, asks, answered, callback_dumb_increment-receive,
}
use secure_rfid_login.Server.Credentials.Gate.{
  Sent, is_init, callback_dumb_increment_sent, callback_dumb_increment-filter,
}
use secure_rfid_login.Login.{
  card_username, card_password, outcome, callback_dumb_increment-take_message,
}
use secure_rfid_login.Tests.World.{
  Sim, sim_host, sim_stream, sim_db, sim_aes, sim_aes-IsCfb, sim_desktop, sim_connection,
  with_input, text, waiting,
}

-- Headers Upgrade and Origin, and no others.
abbrev headers : (upgrade origin : List ℕ) → ℕ → List ℕ
headers upgrade origin n = if n == 7 then origin else if n == 6 then upgrade else []

headers-HasNoNul :
    (upgrade origin : List ℕ) (n : ℕ)
    → HasNoNul upgrade
    → HasNoNul origin
    → HasNoNul (headers upgrade origin n)
headers-HasNoNul upgrade origin n u o = elim (Bool-cases (n == 7)) [
  | inl e ↦ rw e o
  | inr e ↦ elim (Bool-cases (n == 6)) [ inl f ↦ rw (e, f) u | inr f ↦ rw (e, f) tt ]
]

handshake :
    (upgrade origin : List ℕ) (answer : ℕ) (w : Sim)
    → HasNoNul upgrade
    → HasNoNul origin
    → Handshake (sim_connection (headers upgrade origin) answer) w
handshake upgrade origin answer w u o = record {
  value = headers upgrade origin;
  no_nul = λ n. headers-HasNoNul upgrade origin n u o;
  total = λ n. refl;
  copies = λ n buf h. rw (lt→ltb (length (headers upgrade origin n)) 256 h);
  keeps = λ n buf h. rw (le→ltb_false (length (headers upgrade origin n)) 256 h);
}

headers-IsBrowser :
    (upgrade origin : List ℕ) (answer : ℕ) (w : Sim)
    → IsBrowser (sim_connection (headers upgrade origin) answer) w
headers-IsBrowser upgrade origin answer w n h = ground arith

abbrev websocket : List ℕ
websocket = codes "websocket"

abbrev evil : List ℕ
evil = codes "https://evil.example"

replicate-HasNoNul : (n : ℕ) → HasNoNul (replicate n 120)
replicate-HasNoNul zero = tt
replicate-HasNoNul (suc n) = (λ e. absurd (omega arith), replicate-HasNoNul n)

abbrev world : Sim
world = with_input []

abbrev long_origin : List ℕ
long_origin = replicate 300 120

-- An over-long Origin behind an Upgrade that is the authorized page's address is let in.
reject_request-upgrade_example :
    reject_request (sim_connection (headers authorized_url long_origin) id_yes) (zeros 256) world
    ≡ ok (not (same_bytes authorized_url authorized_url))
unfolding handshake
reject_request-upgrade_example =
    reject_request-upgrade (sim_connection (headers authorized_url long_origin) id_yes) world
      (handshake authorized_url long_origin id_yes world (omega arith) (replicate-HasNoNul 300))
      (zeros 256) (headers-IsBrowser authorized_url long_origin id_yes world) refl (omega arith)
      (omega arith) (omega arith)

callback_dumb_increment-filter_example :
    callback_dumb_increment
      (sim_connection (headers websocket authorized_url) id_yes)
      filter_protocol_connection
      waiting
      []
      []
      (zeros 256)
      world
    ≡ ok (if same_bytes authorized_url authorized_url then pos 0 else minus_one, world)
unfolding handshake
callback_dumb_increment-filter_example =
    callback_dumb_increment-filter (sim_connection (headers websocket authorized_url) id_yes) world
      (handshake websocket authorized_url id_yes world (omega arith) (omega arith)) waiting [] []
      (zeros 256) (headers-IsBrowser websocket authorized_url id_yes world) refl (omega arith)

waiting-IsCard : IsCard waiting
waiting-IsCard = record {
  username_size = refl;
  password_size = refl;
  user_length = 1;
  pass_length = 1;
  username_text = refl;
  password_text = refl;
}

callback_dumb_increment-receive_example :
    let page = sim_connection (headers websocket authorized_url) id_yes in
    callback_dumb_increment page receive waiting (codes "INIT!") [] [] world
    ≡ ok (pos 0, if asks (codes "INIT!") && true then answered page waiting world else world)
callback_dumb_increment-receive_example =
    callback_dumb_increment-receive (sim_connection (headers websocket authorized_url) id_yes)
      waiting (codes "INIT!") [] [] world waiting-IsCard (omega arith)

abbrev page : Connection Sim
page = sim_connection (headers websocket authorized_url) id_yes

abbrev page_log : Sent page
page_log = record { sent = λ w. w.page; box_sent = λ w. refl }

two_texts :
    callback_dumb_increment page receive waiting (codes "INIT") [] [] world
    ≡ ok (pos 0, record world { page = (67 ∷ []) ∷ (68 ∷ []) ∷ [] })
two_texts =
    callback_dumb_increment-receive page waiting (codes "INIT") [] [] world waiting-IsCard
      (omega arith)

callback_dumb_increment_sent_example :
    (receive ≡ receive)
    × (is_init (codes "INIT") ≡ true)
    × (waiting.is_data_present ≡ true)
    × ((page.message_box world).0 ≡ id_yes)
callback_dumb_increment_sent_example =
    callback_dumb_increment_sent page page_log receive waiting (codes "INIT") [] [] world _
      two_texts (λ e. cc)

-- A card of the user name C and the password D, made by the writer.
abbrev key : List ℕ
key = replicate 16 7

abbrev user : List ℕ
user = text 67

abbrev pass : List ℕ
pass = text 68

abbrev number : List ℕ
number = 1 ∷ 2 ∷ 3 ∷ 4 ∷ []

abbrev message : List ℕ
message =
    frame (text 65) (text 66) (card_username sim_aes key key user pass)
      (card_password sim_aes key key user pass)

abbrev announced : Sim
announced = with_input (message ++ (number ++ []))

whole_message :
    wait_message sim_host 50 (pos 3) 10 (zeros 260) 260 announced
    ≡ some (1, message, record (with_input number) { clock = 1 })
unfolding wait_message encrypt_data
whole_message = refl

four_bytes :
    wait_serial_number sim_host 50 (pos 3) (zeros 4) (record (with_input number) { clock = 1 })
    ≡ some (number, record (with_input []) { clock = 2 })
unfolding wait_serial_number
four_bytes = refl

waiting-IsSized : IsSized sim_host sim_db sim_desktop sim_aes key key waiting
waiting-IsSized = record {
  buff = refl;
  enc_username = refl;
  enc_password = refl;
  serialnumber = refl;
}

callback_dumb_increment-take_message_example :
    (r : Reader × Sim) × (take_message sim_host sim_db sim_desktop sim_aes key key 50 waiting
        announced
      ≡ ok r)
    × (t : Taken sim_host sim_db sim_desktop sim_aes key key
        (card_username sim_aes key key user pass)
        (card_password sim_aes key key user pass)
        number
        r.0)
    × (callback_dumb_increment page receive r.0 (codes "INIT") [] [] world
        ≡ ok (
          pos 0,
          outcome sim_host sim_db sim_desktop sim_aes key key
              (sim_aes-IsCfb key)
              user
              pass
              r.0
              number
              t
              page
              world
              (codes "INIT"),
        ))
callback_dumb_increment-take_message_example =
    callback_dumb_increment-take_message sim_host sim_db sim_desktop sim_aes key key
      (sim_aes-IsCfb key) user pass page waiting (sim_stream (pos 3)) 50 (text 65) (text 66) number
      [] (codes "INIT") [] [] announced world waiting-IsSized refl refl refl refl refl refl refl
      refl refl (omega arith) (omega arith) (omega arith) refl whole_message (omega arith)
      four_bytes (omega arith)
