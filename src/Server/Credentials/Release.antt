-- ===== src/Server/Credentials/Release.antt =====
-- When `callback_dumb_increment` of secure-rfid-login.c sends the credentials, and what it sends.
use secure_rfid_login.Common.{
  ℕ, zero, suc, ◌≤◌, ◌<◌, ◌≡◌, refl, ap, ◌∙◌, inl, inr, Bool, true, false, ◌&&◌, some, List, [],
  ◌∷◌, ◌++◌, pos, if◌then◌else◌, ◌==◌, Bool-cases, le→ltb_false, ok, length, take, zeros, overwrite,
  strlen, strlen-lt-length, strlen-eq-length, c_str, c_str-HasNoNul, HasNoNul, same_bytes, codes,
  arith,
}
use secure_rfid_login.Reader.{Reader}
use secure_rfid_login.Reader.Fields.{get_username_lem, get_username_absent, get_password_lem}
use secure_rfid_login.Server.{Connection, receive}
use secure_rfid_login.Server.Credentials.{
  id_yes, get_credential, send_notification, release, answer_init, on_receive,
  callback_dumb_increment,
}

-- A text written to a buffer of `k` zeros and more is a string there.
strlen-overwrite :
    (s padding : List ℕ) (k : ℕ)
    → HasNoNul s
    → length s < k
    → (strlen (overwrite (zeros k ++ padding) s) ≡ some (length s))
      × (take (length s) (overwrite (zeros k ++ padding) s) ≡ s)
strlen-overwrite s padding zero h l = absurd (omega arith)
strlen-overwrite [] padding (suc k) h l = (refl, refl)
strlen-overwrite (c ∷ s) padding (suc k) h l =
    let rest = strlen-overwrite s padding k h.1 (omega arith) in
    (ground (arith, rest.0, h.0), ap (λ t. c ∷ t) rest.1)

-- The copy that an accessor makes is the text.
take-copy :
    (field : List ℕ) {n : ℕ}
    → length field ≡ 64
    → strlen field ≡ some n
    → take n (overwrite (zeros 64) (c_str field ++ 0 ∷ [])) ≡ c_str field
take-copy field {n} h e =
    let len = strlen-eq-length field e in
    let room = strlen-lt-length field e in
    ap (λ t. take t (overwrite (zeros 64) (c_str field ++ 0 ∷ []))) len
    ∙ copy (c_str field) 64 (omega arith)
  where
    copy :
        (s : List ℕ) (k : ℕ)
        → length s < k
        → take (length s) (overwrite (zeros k) (s ++ 0 ∷ [])) ≡ s
    copy s zero l = absurd (omega arith)
    copy [] (suc k) l = refl
    copy (c ∷ s) (suc k) l = ap (λ t. c ∷ t) (copy s k (omega arith))

-- A card whose user name and password are strings in their 64 bytes.
pub record IsCard (g : Reader) : Type 0 where
  pub username_size : length g.username ≡ 64
  pub password_size : length g.password ≡ 64
  pub user_length : ℕ
  pub pass_length : ℕ
  pub username_text : strlen g.username ≡ some user_length
  pub password_text : strlen g.password ≡ some pass_length

get_credential_lem :
    (g : Reader) (u v : List ℕ)
    → IsCard g
    → get_credential g u v
      ≡ ok (
          if g.is_data_present
          then (true, overwrite u (c_str g.username), overwrite v (c_str g.password))
          else (false, u, v))
unfolding get_credential
get_credential_lem g u v card =
    let user =
      (get_username_lem g (zeros 64) card.username_size).0 card.user_length card.username_text in
    let pass = get_password_lem g (zeros 64) card.password_size card.password_text in
    elim (Bool-cases g.is_data_present) [
      | inl yes_present ↦ rw (
        user,
        pass,
        yes_present,
        take-copy g.username card.username_size card.username_text,
        take-copy g.password card.password_size card.password_text,
      )
      | inr not_present ↦ rw (user, not_present)
    ]

pub get_credential_absent :
    (g : Reader) (u v : List ℕ)
    → g.is_data_present ≡ false
    → get_credential g u v ≡ ok (false, u, v)
unfolding get_credential
get_credential_absent g u v d = rw (get_username_absent g (zeros 64) d)

-- The first four bytes are INIT.
abbrev pub asks : List ℕ → Bool
asks input = same_bytes (codes "INIT") (take 4 input)

asks_lem :
    (input : List ℕ)
    → 4 ≤ length input
    → same_bytes (codes "INIT") (c_str (take 4 input ++ 0 ∷ [])) ≡ asks input
asks_lem [] h = absurd (omega arith)
asks_lem (a ∷ []) h = absurd (omega arith)
asks_lem (a ∷ b ∷ []) h = absurd (omega arith)
asks_lem (a ∷ b ∷ c ∷ []) h = absurd (omega arith)
asks_lem (a ∷ b ∷ c ∷ d ∷ r) h = ground arith

module _ {W : Type 0} (wsi : Connection W) where
  -- Both texts are written, whatever is behind the buffers.
  release_lem :
      (s t padding : List ℕ) (w : W)
      → HasNoNul s
      → HasNoNul t
      → length s < 64
      → length t < 64
      → release wsi (overwrite (zeros 64 ++ padding) s) (overwrite (zeros 64 ++ padding) t) w
        ≡ ok (pos 0, (wsi.write t (wsi.write s w).1).1)
  unfolding release
  release_lem s t padding w hs ht ls lt =
      let user = strlen-overwrite s padding 64 hs ls in
      let pass = strlen-overwrite t padding 64 ht lt in rw (user.0, pass.0, user.1, pass.1)

  -- The world after the user's answer.
  abbrev pub answered : Reader → W → W
  answered g w =
      let (answer, w1) = wsi.message_box w in
      if answer == id_yes
      then (wsi.write (c_str g.password) (wsi.write (c_str g.username) w1).1).1
      else w1

  answer_init_lem :
      (g : Reader) (padding : List ℕ) (w : W)
      → IsCard g
      → answer_init wsi g (zeros 64 ++ padding) (zeros 64 ++ padding) w
        ≡ ok (pos 0, if g.is_data_present then answered g w else w)
  unfolding answer_init send_notification
  answer_init_lem g padding w card =
      let (answer, w1) = wsi.message_box w in
      let sent =
        release_lem (c_str g.username) (c_str g.password) padding w1 (c_str-HasNoNul g.username)
          (c_str-HasNoNul g.password)
          (omega (
            arith,
            strlen-lt-length g.username card.username_text,
            strlen-eq-length g.username card.username_text,
            card.username_size,
          ))
          (omega (
            arith,
            strlen-lt-length g.password card.password_text,
            strlen-eq-length g.password card.password_text,
            card.password_size,
          )) in
      let got = get_credential_lem g (zeros 64 ++ padding) (zeros 64 ++ padding) card in
      elim (Bool-cases g.is_data_present) [
        | inl yes_present ↦ elim (Bool-cases (answer == id_yes)) [
          | inl yes_answer ↦ rw (got, yes_present, yes_answer) sent
          | inr no_answer ↦ rw (got, yes_present, no_answer)
        ]
        | inr not_present ↦ rw (got, not_present)
      ]

  -- On four bytes or more, a request that does not begin with INIT, or that comes while no card is
  -- present, changes nothing; on INIT with a card the user is asked, and on the answer yes, and on no
  -- other, the page gets the user name and then the password, each up to its terminator.
  pub callback_dumb_increment-receive :
      (g : Reader) (input padding header_buffer : List ℕ) (w : W)
      → IsCard g
      → 4 ≤ length input
      → callback_dumb_increment wsi receive g input padding header_buffer w
        ≡ ok (pos 0, if asks input && g.is_data_present then answered g w else w)
  unfolding callback_dumb_increment on_receive
  callback_dumb_increment-receive g input padding header_buffer w card h =
      elim (Bool-cases (asks input)) [
        | inl yes_asked ↦
            rw (le→ltb_false (length input) 4 h, asks_lem input h, yes_asked)
              (answer_init_lem g padding w card)
        | inr not_asked ↦ rw (le→ltb_false (length input) 4 h, asks_lem input h, not_asked)
      ]
