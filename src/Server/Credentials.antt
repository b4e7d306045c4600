-- ===== src/Server/Credentials.antt =====
-- `send_notification`, `get_credential` and `callback_dumb_increment` of secure-rfid-login.c: a page
-- sends INIT and gets the user name and the password of the card, if the user agrees.
pub mod Release
pub mod Gate
use secure_rfid_login.Common.{
  ℕ, Bool, true, false, List, [], ◌∷◌, ◌++◌, ℤ, pos, negsuc, minus_one, eq_ℤ, if◌then◌else◌, ltb,
  ◌==◌, Run, ok, fault, ◌>>=◌, in_bounds, Option, strlen, length, take, zeros, overwrite, c_str,
  same_bytes, codes,
}
use secure_rfid_login.Reader.{Reader, get_username, get_password}
use secure_rfid_login.Server.{
  Connection, Reason, established, receive, server_writeable, protocol_destroy,
  filter_protocol_connection, filter_network_connection, http, http_writeable, http_file_completion,
  other,
}
use secure_rfid_login.Server.Origin.{reject_request}

abbrev pub max_content_length : ℕ
max_content_length = 64

-- IDYES
abbrev pub id_yes : ℕ
id_yes = 6

-- A length that is not -1, as `memcpy` takes it.
abbrev as_size : ℤ → ℕ
as_size (pos n) = n
as_size (negsuc n) = 0

-- The result, and what `username` and `password` hold afterwards; `g` are the reader's globals.
unfoldable pub get_credential : Reader → (username password : List ℕ) → Run (Bool × List ℕ × List ℕ)
get_credential g username password = do
  (user_len, rfid_username) ← get_username g (zeros max_content_length)
  if eq_ℤ user_len minus_one then ok (false, username, password) else (do
    (pass_len, rfid_password) ← get_password g (zeros max_content_length)
    ok (
        if eq_ℤ pass_len minus_one then (false, username, password) else (
          true,
          overwrite username (take (as_size user_len) rfid_username),
          overwrite password (take (as_size pass_len) rfid_password),
        )))

module _ {W : Type 0} (wsi : Connection W) where
  pub send_notification : W → Bool × W
  send_notification w =
      let (result, w') = wsi.message_box w in (if result == id_yes then true else false, w')

  -- The two writes, of the strings in the two buffers.
  release : (username password : List ℕ) → W → Run (ℤ × W)
  release username password w = do
    user_len ← in_bounds (strlen username)
    let (_, w1) = wsi.write (take user_len username) w
    pass_len ← in_bounds (strlen password)
    let (_, w2) = wsi.write (take pass_len password) w1
    ok (pos 0, w2)

  -- The branch of the callback for a valid request.
  answer_init : Reader → (username password : List ℕ) → W → Run (ℤ × W)
  unfolding send_notification release
  answer_init g username password w = do
    (ready, username', password') ← get_credential g username password
    let (agreed, w1) = send_notification w
    if ready
        then (if agreed then release username' password' w1 else ok (pos 0, w1))
        else ok (pos 0, w)

  -- `input` is the memory from `in` on: the code reads four bytes of it whatever its length is.
  -- `padding` is what stands behind the 64 bytes of the two buffers.
  on_receive : Reader → (input padding : List ℕ) → W → Run (ℤ × W)
  unfolding answer_init
  on_receive g input padding w =
      if ltb (length input) 4
      then fault
      else if same_bytes (codes "INIT") (c_str (take 4 input ++ 0 ∷ []))
      then answer_init g (zeros max_content_length ++ padding) (zeros max_content_length ++ padding)
          w
      else ok (pos 0, w)

  -- `header_buffer` is what the buffer of `reject_request` holds at first.
  unfoldable pub callback_dumb_increment :
      Reason → Reader → (input padding header_buffer : List ℕ) → W → Run (ℤ × W)
  unfolding on_receive
  callback_dumb_increment receive g input padding header_buffer w = on_receive g input padding w
  callback_dumb_increment filter_protocol_connection g input padding header_buffer w = do
    reject ← reject_request wsi header_buffer w
    ok (if reject then minus_one else pos 0, w)
  callback_dumb_increment established g input padding header_buffer w = ok (pos 0, w)
  callback_dumb_increment server_writeable g input padding header_buffer w = ok (pos 0, w)
  callback_dumb_increment protocol_destroy g input padding header_buffer w = ok (pos 0, w)
  callback_dumb_increment filter_network_connection g input padding header_buffer w = ok (pos 0, w)
  callback_dumb_increment http g input padding header_buffer w = ok (pos 0, w)
  callback_dumb_increment http_writeable g input padding header_buffer w = ok (pos 0, w)
  callback_dumb_increment http_file_completion g input padding header_buffer w = ok (pos 0, w)
  callback_dumb_increment other g input padding header_buffer w = ok (pos 0, w)
