-- ===== src/Threads/Mixing.antt =====
-- What the missing lock allows: a request that straddles the arrival of a card.
use secure_rfid_login.Common.{
  ℕ, ◌≡◌, ap₂, subst, List, ◌∷◌, some, true, false, length, strlen, c_str,
}
use secure_rfid_login.Crypt.{Aes}
use secure_rfid_login.Reader.{Reader, load_fields}
use secure_rfid_login.Threads.{
  Shared, System, ReaderPc, polling, resting, notifying, password_there, stored, announced, arrived,
  accepts, set_present, card, measure_username, copy_username, still_card, measure_password,
  copy_password, agreed, server_moves, Reach, here, later, with_globals, card_of,
}
use secure_rfid_login.Threads.Parts.{stored_whole}
use secure_rfid_login.Threads.Passage.{
  Alone, start, next, joined, reached, fields_taken, fields_decrypted, decrypted,
}

module _ {Context : Type 0} (aes : Aes Context) (static_key random_iv : List ℕ) where
  pub both :
      {s t u : System}
      → Reach aes static_key random_iv s t
      → Reach aes static_key random_iv t u
      → Reach aes static_key random_iv s u
  both r here = r
  both r (later r' step) = later (both r r') step

  -- The reader's globals when a message and a serial number have come, and the fields are set.
  abbrev pub loaded : Reader → (buff serial : List ℕ) → Reader
  loaded g buff serial =
      load_fields (record g { is_data_present = false; buff = buff; serialnumber = serial })

  abbrev ready : Shared → (buff serial : List ℕ) → Shared
  ready m buff serial = record {
    globals = record (loaded m.globals buff serial) { is_data_present = true };
    accepted = card_of (loaded m.globals buff serial) ∷ m.accepted;
    sent = m.sent;
  }

  -- The state when a next card has come.
  abbrev pub replaced : Shared → (buff serial : List ℕ) → Shared
  replaced m buff serial =
      with_globals (ready m buff serial)
        (decrypted aes static_key random_iv (ready m buff serial).globals)

  pub next_card :
      (m : Shared) (buff serial : List ℕ)
      → Alone aes static_key random_iv m polling (replaced m buff serial) notifying
  next_card m buff serial =
      joined aes static_key random_iv
        (next
          (next
            (joined aes static_key random_iv (next (next start announced) (arrived buff serial)) (
              fields_taken aes static_key random_iv (
                with_globals m (record m.globals {
                  is_data_present = false;
                  buff = buff;
                  serialnumber = serial;
                }))))
            accepts)
          set_present)
        (fields_decrypted aes static_key random_iv (ready m buff serial))

  pub asked_after :
      (m : Shared) {n : ℕ} (p : ReaderPc)
      → m.globals.is_data_present ≡ true
      → strlen m.globals.username ≡ some n
      → Reach aes static_key random_iv
          (record { shared = m; reader = p; server = resting })
          (record {
            shared = m;
            reader = p;
            server = password_there (stored n (c_str m.globals.username));
          })
  asked_after m p there h =
      later
        (later (later (later here (server_moves (card there))) (server_moves (measure_username h)))
          (server_moves (copy_username h)))
        (server_moves (still_card there))

  -- With a card present, let the database accept a next one while a request is under way. Then
  -- there is an order of the threads' steps in which the page gets the user name of the card that
  -- was there and the password of the next one, both whole.
  pub replaced-Reach :
      (m : Shared) (buff serial : List ℕ) {n k : ℕ}
      → m.globals.is_data_present ≡ true
      → length m.globals.username ≡ 64
      → strlen m.globals.username ≡ some n
      → length (replaced m buff serial).globals.password ≡ 64
      → strlen (replaced m buff serial).globals.password ≡ some k
      → let next = replaced m buff serial in
        let sent = (c_str m.globals.username, c_str next.globals.password) ∷ m.sent in
        Reach aes static_key random_iv
          (record { shared = m; reader = polling; server = resting })
          (record { shared = record next { sent = sent }; reader = notifying; server = resting })
  replaced-Reach m buff serial {n} there size h size' h' =
      subst
        (λ t.
          Reach aes static_key random_iv (record { shared = m; reader = polling; server = resting })
            (record {
              shared = record (replaced m buff serial) { sent = t ∷ m.sent };
              reader = notifying;
              server = resting;
            }))
        (ap₂ (λ user pass. (user, pass)) (stored_whole m.globals.username size h)
          (stored_whole (replaced m buff serial).globals.password size' h'))
        (later
          (later
            (later
              (both (asked_after m polling there h) (
                reached aes static_key random_iv
                  (password_there (stored n (c_str m.globals.username))) (next_card m buff serial)))
              (server_moves (measure_password h')))
            (server_moves (copy_password h')))
          (server_moves agreed))
