-- ===== src/Threads/Invariant.antt =====
-- What the globals and the threads' variables hold in every state that the threads can come to.
use secure_rfid_login.Common.{ℕ, ◌≡◌, List, [], ◌∷◌, zeros, c_str}
use mathlib.Core.List.{Memᴰ}
use secure_rfid_login.Crypt.{Aes, max_block_size, dec_cfb}
use secure_rfid_login.Reader.{Reader}
use secure_rfid_login.Threads.{
  Card, Shared, ReaderPc, polling, waiting, received, name_cleared, surname_cleared,
  username_cleared, fields_cleared, name_set, surname_set, username_set, fields_set, known, present,
  decrypting_username, username_decrypted, decrypting_password, notifying, ServerPc, resting,
  username_there, username_measured, username_copied, password_there, password_measured, asking,
  card_of,
}
use secure_rfid_login.Threads.Parts.{IsPart}

module _ {Context : Type 0} (aes : Aes Context) (static_key random_iv : List ℕ) where
  -- What decryption writes to a cleared buffer, for the two blocks of a card.
  abbrev pub plain_username : Card → List ℕ
  plain_username c = (dec_cfb aes static_key random_iv max_block_size c.enc_username (zeros 64)).1

  abbrev pub plain_password : Card → List ℕ
  plain_password c = (dec_cfb aes static_key random_iv max_block_size c.enc_password (zeros 64)).1

  -- The user name and the password of a card.
  abbrev pub user_of : Card → List ℕ
  user_of c = c_str (plain_username c)

  abbrev pub pass_of : Card → List ℕ
  pass_of c = c_str (plain_password c)

  -- Between the clearing of the fields and the answer of the database, and after it.
  abbrev pub IsCleared : Reader → Type 0
  IsCleared g = (g.username ≡ zeros 64) × (g.password ≡ zeros 64)

  abbrev pub IsAccepted : Reader → List Card → Type 0
  IsAccepted g cards = Memᴰ (card_of g) cards

  -- What the reader thread knows where it stands.
  abbrev pub ReaderInv : Reader → List Card → ReaderPc → Type 0
  ReaderInv g cards username_cleared = g.username ≡ zeros 64
  ReaderInv g cards fields_cleared = IsCleared g
  ReaderInv g cards name_set = IsCleared g
  ReaderInv g cards surname_set = IsCleared g
  ReaderInv g cards username_set = IsCleared g
  ReaderInv g cards fields_set = IsCleared g
  ReaderInv g cards known = IsCleared g × IsAccepted g cards
  ReaderInv g cards present = IsCleared g × IsAccepted g cards
  ReaderInv g cards (decrypting_username plain old) =
      (old ≡ zeros 64)
      × (plain ≡ plain_username (card_of g))
      × (g.password ≡ zeros 64)
      × IsAccepted g cards
  ReaderInv g cards username_decrypted = (g.password ≡ zeros 64) × IsAccepted g cards
  ReaderInv g cards (decrypting_password plain old) =
      (old ≡ zeros 64) × (plain ≡ plain_password (card_of g)) × IsAccepted g cards
  ReaderInv g cards polling = Unit
  ReaderInv g cards waiting = Unit
  ReaderInv g cards received = Unit
  ReaderInv g cards name_cleared = Unit
  ReaderInv g cards surname_cleared = Unit
  ReaderInv g cards notifying = Unit

  -- What the server thread has read.
  abbrev pub ServerInv : List Card → ServerPc → Type 0
  ServerInv cards resting = Unit
  ServerInv cards username_there = Unit
  ServerInv cards (username_measured n) = Unit
  ServerInv cards (username_copied user) = IsPart user_of cards user
  ServerInv cards (password_there user) = IsPart user_of cards user
  ServerInv cards (password_measured user n) = IsPart user_of cards user
  ServerInv cards (asking user pass) = IsPart user_of cards user × IsPart pass_of cards pass

  -- What the page has got.
  abbrev pub SentInv : List Card → List (List ℕ × List ℕ) → Type 0
  SentInv cards [] = Unit
  SentInv cards ((user, pass) ∷ sent) =
      (IsPart user_of cards user × IsPart pass_of cards pass) × SentInv cards sent

  -- What the globals hold.
  abbrev pub FieldsInv : Shared → Type 0
  FieldsInv m =
      IsPart user_of m.accepted (c_str m.globals.username)
      × IsPart pass_of m.accepted (c_str m.globals.password)

  -- The four parts of the invariant.
  abbrev pub Inv : Shared → ReaderPc → ServerPc → Type 0
  Inv m p q =
      FieldsInv m
      × ReaderInv m.globals m.accepted p
      × ServerInv m.accepted q
      × SentInv m.accepted m.sent
