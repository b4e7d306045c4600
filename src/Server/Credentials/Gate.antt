-- ===== src/Server/Credentials/Gate.antt =====
-- What `callback_dumb_increment` of secure-rfid-login.c lets through, whatever the page sends and
-- whatever is in the reader's globals.
use secure_rfid_login.Common.{
  ℕ, ◌<◌, ◌≡◌, ◌≢◌, refl, Bool, true, false, not, ◌&&◌, List, ◌++◌, ℤ, pos, minus_one,
  if◌then◌else◌, ltb, ◌==◌, Bool-cases, inl, inr, Run, ok, >>=-eq-ok, length, take, zeros,
  same_bytes, codes, c_str, arith, [], ◌∷◌,
}
use secure_rfid_login.Reader.{Reader}
use secure_rfid_login.Server.{
  Connection, Reason, established, receive, server_writeable, protocol_destroy,
  filter_protocol_connection, filter_network_connection, http, http_writeable, http_file_completion,
  other,
}
use secure_rfid_login.Server.Origin.{authorized_url, reject_request}
use secure_rfid_login.Server.Origin.Check.{origin, IsBrowser}
use secure_rfid_login.Server.Origin.Url.{Handshake, reject_request-origin}
use secure_rfid_login.Server.Credentials.{
  id_yes, get_credential, send_notification, release, answer_init, on_receive,
  callback_dumb_increment,
}
use secure_rfid_login.Server.Credentials.Release.{get_credential_absent}

-- What a connection has sent; the message box sends nothing.
pub record Sent {W : Type 0} (wsi : Connection W) : Type 0 where
  pub sent : W → List (List ℕ)
  pub box_sent : (w : W) → sent (wsi.message_box w).1 ≡ sent w

-- The four bytes that the callback compares.
abbrev pub is_init : List ℕ → Bool
is_init input = same_bytes (codes "INIT") (c_str (take 4 input ++ 0 ∷ []))

module _ {W : Type 0} (wsi : Connection W) (log : Sent wsi) where
  -- Nothing was sent, or the user has answered yes.
  answer_init_sent :
      (g : Reader) (u v : List ℕ) (w w' : W) {value : ℤ}
      → g.is_data_present && ((wsi.message_box w).0 == id_yes) ≡ false
      → answer_init wsi g u v w ≡ ok (value, w')
      → log.sent w' ≡ log.sent w
  unfolding answer_init send_notification
  answer_init_sent g u v w w' {value} h e = elim (Bool-cases g.is_data_present) [
    | inl yes_present ↦
        let no_answer : ((wsi.message_box w).0 == id_yes) ≡ false =
          ground (arith, h, yes_present) in
        let (r, got, last) =
          >>=-eq-ok (get_credential g u v)
            (λ r.
              if r.0
              then (if (if (wsi.message_box w).0 == id_yes then true else false)
                  then release wsi r.1 r.2 (wsi.message_box w).1
                  else ok (pos 0, (wsi.message_box w).1))
              else ok (pos 0, w))
            e in
        ground (arith, log.box_sent w, no_answer, last)
    | inr not_present ↦
        let same : ◌≡◌ {A = Run (ℤ × W)} (ok (pos 0, w)) (ok (value, w')) =
          rw (get_credential_absent g u v not_present) at e in
        ground (arith, same)
  ]

  -- If the callback comes back and has sent anything to the page, then the page's message began with
  -- INIT, a card was present, and the user answered the question with yes.
  pub callback_dumb_increment_sent :
      (reason : Reason) (g : Reader) (input padding header_buffer : List ℕ) (w w' : W) {value : ℤ}
      → callback_dumb_increment wsi reason g input padding header_buffer w ≡ ok (value, w')
      → log.sent w' ≢ log.sent w
      → (reason ≡ receive)
        × (is_init input ≡ true)
        × (g.is_data_present ≡ true)
        × ((wsi.message_box w).0 ≡ id_yes)
  unfolding callback_dumb_increment on_receive
  callback_dumb_increment_sent receive g input padding header_buffer w w' {value} e some_sent =
      elim (Bool-cases (ltb (length input) 4)) [
        | inl short ↦ cc (rw short at e)
        | inr enough ↦ elim (Bool-cases (is_init input)) [
          | inl yes_init ↦
              elim (Bool-cases (g.is_data_present && ((wsi.message_box w).0 == id_yes))) [
                | inl yes_both ↦ ground (arith, yes_both, yes_init)
                | inr not_both ↦ absurd (
                    some_sent (
                      answer_init_sent g (zeros 64 ++ padding) (zeros 64 ++ padding) w w' not_both
                        (rw (enough, yes_init) at e)))
              ]
          | inr not_init ↦
              let same : ◌≡◌ {A = Run (ℤ × W)} (ok (pos 0, w)) (ok (value, w')) =
                rw (enough, not_init) at e in
              absurd (some_sent (ground (arith, same)))
        ]
      ]
  callback_dumb_increment_sent filter_protocol_connection g input padding header_buffer w w' {value}
        e some_sent =
      let (reject, judged, last) =
        >>=-eq-ok (reject_request wsi header_buffer w)
          (λ reject. ok (if reject then minus_one else pos 0, w)) e in
      absurd (some_sent (ground (arith, last)))
  callback_dumb_increment_sent established g input padding header_buffer w w' e some_sent =
      absurd (some_sent (ground (arith, e)))
  callback_dumb_increment_sent server_writeable g input padding header_buffer w w' e some_sent =
      absurd (some_sent (ground (arith, e)))
  callback_dumb_increment_sent protocol_destroy g input padding header_buffer w w' e some_sent =
      absurd (some_sent (ground (arith, e)))
  callback_dumb_increment_sent filter_network_connection g input padding header_buffer w w' e
        some_sent =
      absurd (some_sent (ground (arith, e)))
  callback_dumb_increment_sent http g input padding header_buffer w w' e some_sent =
      absurd (some_sent (ground (arith, e)))
  callback_dumb_increment_sent http_writeable g input padding header_buffer w w' e some_sent =
      absurd (some_sent (ground (arith, e)))
  callback_dumb_increment_sent http_file_completion g input padding header_buffer w w' e some_sent =
      absurd (some_sent (ground (arith, e)))
  callback_dumb_increment_sent other g input padding header_buffer w w' e some_sent =
      absurd (some_sent (ground (arith, e)))

module _ {W : Type 0} (wsi : Connection W) (w : W) (hs : Handshake wsi w) where
  -- On a browser's handshake whose header Origin has fewer than 256 characters, the callback accepts
  -- the connection, with 0, if that header is the authorized page's, and refuses it, with -1, if not;
  -- it changes nothing.
  pub callback_dumb_increment-filter :
      (g : Reader) (input padding header_buffer : List ℕ)
      → IsBrowser wsi w
      → length header_buffer ≡ 256
      → length (hs.value origin) < 256
      → callback_dumb_increment wsi filter_protocol_connection g input padding header_buffer w
        ≡ ok (if same_bytes authorized_url (hs.value origin) then pos 0 else minus_one, w)
  unfolding callback_dumb_increment
  callback_dumb_increment-filter g input padding header_buffer browser h small =
      rw (reject_request-origin wsi w hs header_buffer browser h small)
        (flip (same_bytes authorized_url (hs.value origin)))
    where
      flip :
          (b : Bool)
          → ◌≡◌ {A = Run (ℤ × W)}
              (ok (if not b then minus_one else pos 0, w))
              (ok (if b then pos 0 else minus_one, w))
      flip true = refl
      flip false = refl
