-- ===== src/Threads/Safety.antt =====
-- What the page can get, in whatever order the threads take their steps.
use secure_rfid_login.Common.{ℕ, List, [], zeros}
use secure_rfid_login.Crypt.{Aes}
use secure_rfid_login.Reader.{Reader}
use secure_rfid_login.Threads.{
  System, Step, reader_moves, server_moves, Reach, here, later, polling, resting,
}
use secure_rfid_login.Threads.Invariant.{Inv, SentInv, user_of, pass_of}
use secure_rfid_login.Threads.Moves.{ReaderMove-Inv, ServerMove-Inv, cleared_part}

-- The threads before the first card: the fields are blank, as C initialises them, and nothing is sent.
abbrev pub first_state : Reader → System
first_state g = record {
  shared = record {
    globals = record g { username = zeros 64; password = zeros 64 };
    accepted = [];
    sent = [];
  };
  reader = polling;
  server = resting;
}

module _ {Context : Type 0} (aes : Aes Context) (static_key random_iv : List ℕ) where
  Step-Inv :
      {s t : System}
      → Step aes static_key random_iv s t
      → Inv aes static_key random_iv s.shared s.reader s.server
      → Inv aes static_key random_iv t.shared t.reader t.server
  Step-Inv {s} (reader_moves m) h = ReaderMove-Inv aes static_key random_iv s.server m h
  Step-Inv {s} (server_moves m) h = ServerMove-Inv aes static_key random_iv s.reader m h

  pub Reach-Inv :
      {s t : System}
      → Reach aes static_key random_iv s t
      → Inv aes static_key random_iv s.shared s.reader s.server
      → Inv aes static_key random_iv t.shared t.reader t.server
  Reach-Inv here h = h
  Reach-Inv (later r m) h = Step-Inv m (Reach-Inv r h)

  -- In whatever order the two threads take their steps from the start of the program, a copy or a
  -- clearing of a field being one step and a decryption one for each part that is written, each
  -- user name that the page gets is blank or the beginning of the user name on a card that the
  -- database has accepted, and each password is blank or the beginning of the password on a card
  -- that it has accepted.
  pub Reach-SentInv :
      (g : Reader) (s : System)
      → Reach aes static_key random_iv (first_state g) s
      → SentInv aes static_key random_iv s.shared.accepted s.shared.sent
  Reach-SentInv g s r =
      (Reach-Inv r (
        (
          cleared_part aes static_key random_iv (user_of aes static_key random_iv) [],
          cleared_part aes static_key random_iv (pass_of aes static_key random_iv) [],
        ),
        tt,
        tt,
        tt,
      )).3
