-- ===== src/Threads.antt =====
-- The two threads of the program: the reader thread (`start_rfid_reader` of ArgoRFID_Reader.c) and
-- the server thread (a request of `callback_dumb_increment` of secure-rfid-login.c), which share
-- the globals of ArgoRFID_Reader.c with no lock. One C statement on a global is one step, a copy or
-- a clearing of a whole field too, and the steps come in any order; decryption, which writes its
-- buffer byte after byte, is many. Which messages arrive, what the database answers and what the
-- user answers is left open. A length over 64, for which the accessors return -1, cannot be
-- measured in a buffer of 64 bytes.
pub mod Parts
pub mod Invariant
pub mod Moves
pub mod Safety
pub mod Passage
pub mod Mixing
pub mod Request
use secure_rfid_login.Common.{
  ℕ, ◌≡◌, ◌≢◌, ◌∷◌, true, false, some, List, [], ◌++◌, ℤ, pos, ok, take, drop, slice, zeros,
  overwrite, strlen, c_str,
}
use secure_rfid_login.Crypt.{Aes, max_block_size, dec_cfb}
use secure_rfid_login.Reader.{Reader, Desktop, send_info_notification}

-- A card as the program has read it.
pub record Card : Type 0 where
  pub serial : List ℕ
  pub enc_username : List ℕ
  pub enc_password : List ℕ

-- The globals; the cards for which the database has answered 1; and what the page has got, last first.
-- The last two are a record of the past that no code reads.
pub record Shared : Type 0 where
  pub globals : Reader
  pub accepted : List Card
  pub sent : List (List ℕ × List ℕ)

-- Where the reader thread stands, in the order of the statements of its loop. `plain` is what the
-- call of the cipher will have written, `old` what its buffer held before.
pub data ReaderPc : Type 0 where
  polling waiting received : ReaderPc
  name_cleared surname_cleared username_cleared fields_cleared : ReaderPc
  name_set surname_set username_set fields_set : ReaderPc
  known present : ReaderPc
  decrypting_username : (plain old : List ℕ) → ReaderPc
  username_decrypted : ReaderPc
  decrypting_password : (plain old : List ℕ) → ReaderPc
  notifying : ReaderPc

-- Where the server thread stands in a request, with what it has read.
pub data ServerPc : Type 0 where
  resting username_there : ServerPc
  username_measured : (user_len : ℕ) → ServerPc
  username_copied password_there : (user : List ℕ) → ServerPc
  password_measured : (user : List ℕ) (pass_len : ℕ) → ServerPc
  asking : (user pass : List ℕ) → ServerPc

-- The desktop of a step: what it shows is left out.
abbrev pub no_desktop : Desktop Unit
no_desktop = record { modify_icon = λ n w. w; system = λ command w. w }

-- The card whose blocks and serial number are in the reader's buffers.
abbrev pub card_of : Reader → Card
card_of g = record {
  serial = g.serialnumber;
  enc_username = g.enc_username;
  enc_password = g.enc_password;
}

abbrev pub with_globals : Shared → Reader → Shared
with_globals m g = record m { globals = g }

-- What is sent after the accessor has measured `n` characters and has copied `text`: the accessor's
-- copy into a cleared buffer, of which `n` bytes are copied into another one.
abbrev pub stored : ℕ → List ℕ → List ℕ
stored n text = c_str (overwrite (zeros 64) (take n (overwrite (zeros 64) (text ++ 0 ∷ []))))

module _ {Context : Type 0} (aes : Aes Context) (static_key random_iv : List ℕ) where
  -- One step of the reader thread, in the order of the loop.
  pub data ReaderMove (m : Shared) : ReaderPc → Shared → ReaderPc → Type 0 where
    announced :
        ReaderMove m polling (with_globals m (record m.globals { is_data_present = false })) waiting
    rejected :
        (buff : List ℕ)
        → ReaderMove m waiting (with_globals m (record m.globals { buff = buff })) polling
    arrived :
        (buff serial : List ℕ)
        → ReaderMove m waiting
            (with_globals m (record m.globals { buff = buff; serialnumber = serial }))
            received
    clear_name :
        ReaderMove m received (with_globals m (record m.globals { name = zeros 64 })) name_cleared
    clear_surname :
        ReaderMove m name_cleared
          (with_globals m (record m.globals { surname = zeros 64 }))
          surname_cleared
    clear_username :
        ReaderMove m surname_cleared
          (with_globals m (record m.globals { username = zeros 64 }))
          username_cleared
    clear_password :
        ReaderMove m username_cleared
          (with_globals m (record m.globals { password = zeros 64 }))
          fields_cleared
    set_name :
        ReaderMove m fields_cleared
          (with_globals m
            (record m.globals { name = overwrite m.globals.name (slice 0 64 m.globals.buff) }))
          name_set
    set_surname :
        ReaderMove m name_set
          (with_globals m (record m.globals {
            surname = overwrite m.globals.surname (slice 65 64 m.globals.buff);
          }))
          surname_set
    set_username :
        ReaderMove m surname_set
          (with_globals m (record m.globals {
            enc_username = overwrite m.globals.enc_username (slice 130 64 m.globals.buff);
          }))
          username_set
    set_password :
        ReaderMove m username_set
          (with_globals m (record m.globals {
            enc_password = overwrite m.globals.enc_password (slice 195 64 m.globals.buff);
          }))
          fields_set
    refused : (answer : ℤ) → answer ≢ pos 1 → ReaderMove m fields_set m polling
    accepts : ReaderMove m fields_set (record m { accepted = card_of m.globals ∷ m.accepted }) known
    set_present :
        ReaderMove m known (with_globals m (record m.globals { is_data_present = true })) present
    decrypt_username :
        {plain old : List ℕ}
        → plain ≡ (dec_cfb aes static_key random_iv max_block_size m.globals.enc_username old).1
        → old ≡ m.globals.username
        → ReaderMove m present m (decrypting_username plain old)
    -- `k` bytes are written.
    write_username :
        {plain old : List ℕ} (k : ℕ)
        → ReaderMove m
            (decrypting_username plain old)
            (with_globals m (record m.globals { username = take k plain ++ drop k old }))
            (decrypting_username plain old)
    end_username :
        {plain old : List ℕ}
        → ReaderMove m
            (decrypting_username plain old)
            (with_globals m (record m.globals { username = plain }))
            username_decrypted
    fail_username :
        {plain old : List ℕ}
        → (dec_cfb aes static_key random_iv max_block_size m.globals.enc_username old).0 ≡ false
        → ReaderMove m
            (decrypting_username plain old)
            (with_globals m (record m.globals { username = plain }))
            notifying
    decrypt_password :
        {plain old : List ℕ}
        → plain ≡ (dec_cfb aes static_key random_iv max_block_size m.globals.enc_password old).1
        → old ≡ m.globals.password
        → ReaderMove m username_decrypted m (decrypting_password plain old)
    write_password :
        {plain old : List ℕ} (k : ℕ)
        → ReaderMove m
            (decrypting_password plain old)
            (with_globals m (record m.globals { password = take k plain ++ drop k old }))
            (decrypting_password plain old)
    end_password :
        {plain old : List ℕ}
        → ReaderMove m
            (decrypting_password plain old)
            (with_globals m (record m.globals { password = plain }))
            notifying
    notified :
        {g : Reader}
        → send_info_notification no_desktop m.globals tt ≡ ok (g, tt)
        → ReaderMove m notifying (with_globals m g) polling

-- One step of the server thread, from a request INIT on.
pub data ServerMove (m : Shared) : ServerPc → Shared → ServerPc → Type 0 where
  no_card : m.globals.is_data_present ≡ false → ServerMove m resting m resting
  card : m.globals.is_data_present ≡ true → ServerMove m resting m username_there
  measure_username :
      {n : ℕ}
      → strlen m.globals.username ≡ some n
      → ServerMove m username_there m (username_measured n)
  copy_username :
      {n k : ℕ}
      → strlen m.globals.username ≡ some k
      → ServerMove m (username_measured n) m (username_copied (stored n (c_str m.globals.username)))
  withdrawn :
      {user : List ℕ}
      → m.globals.is_data_present ≡ false
      → ServerMove m (username_copied user) m resting
  still_card :
      {user : List ℕ}
      → m.globals.is_data_present ≡ true
      → ServerMove m (username_copied user) m (password_there user)
  measure_password :
      {user : List ℕ} {n : ℕ}
      → strlen m.globals.password ≡ some n
      → ServerMove m (password_there user) m (password_measured user n)
  copy_password :
      {user : List ℕ} {n k : ℕ}
      → strlen m.globals.password ≡ some k
      → ServerMove m
          (password_measured user n)
          m
          (asking user (stored n (c_str m.globals.password)))
  declined : {user pass : List ℕ} → ServerMove m (asking user pass) m resting
  agreed :
      {user pass : List ℕ}
      → ServerMove m (asking user pass) (record m { sent = (user, pass) ∷ m.sent }) resting

pub record System : Type 0 where
  pub shared : Shared
  pub reader : ReaderPc
  pub server : ServerPc

module _ {Context : Type 0} (aes : Aes Context) (static_key random_iv : List ℕ) where
  -- One step of either thread.
  pub data Step (s : System) : System → Type 0 where
    reader_moves :
        {m : Shared} {p : ReaderPc}
        → ReaderMove aes static_key random_iv s.shared s.reader m p
        → Step s (record { shared = m; reader = p; server = s.server })
    server_moves :
        {m : Shared} {p : ServerPc}
        → ServerMove s.shared s.server m p
        → Step s (record { shared = m; reader = s.reader; server = p })

  -- The states that the threads can come to from `s`.
  pub data Reach (s : System) : System → Type 0 where
    here : Reach s s
    later : {t u : System} → Reach s t → Step t u → Reach s u
