-- ===== src/Threads/Request.antt =====
-- The server thread alone: its steps release the same as the callback in one piece.
use secure_rfid_login.Common.{
  ℕ, Bool, ◌≤◌, ◌≡◌, refl, ap₂, subst, ◌&&◌, true, false, List, ◌∷◌, pos, ok, if◌then◌else◌, ◌==◌,
  length, c_str,
}
use secure_rfid_login.Crypt.{Aes}
use secure_rfid_login.Server.{Connection, receive}
use secure_rfid_login.Server.Credentials.{id_yes, callback_dumb_increment}
use secure_rfid_login.Server.Credentials.Release.{
  IsCard, asks, answered, callback_dumb_increment-receive,
}
use secure_rfid_login.Threads.{
  Shared, ReaderPc, resting, measure_password, copy_password, agreed, server_moves, Reach, here,
  later,
}
use secure_rfid_login.Threads.Parts.{stored_whole}
use secure_rfid_login.Threads.Mixing.{asked_after}

either_way :
    (b y : Bool) (m n : Shared) (Reached : Shared → Type 0)
    → (b ≡ true → Reached n)
    → Reached m
    → Reached (if b && y then n else m)
either_way true true m n Reached h k = h refl
either_way true false m n Reached h k = k
either_way false y m n Reached h k = k

module _ {Context : Type 0} (aes : Aes Context) (static_key random_iv : List ℕ) where
  -- The state with one more pair of texts sent.
  abbrev pub with_sent : Shared → (user pass : List ℕ) → Shared
  with_sent m user pass = record m { sent = (user, pass) ∷ m.sent }

  agreed_after :
      (m : Shared) (p : ReaderPc)
      → IsCard m.globals
      → m.globals.is_data_present ≡ true
      → Reach aes static_key random_iv
          (record { shared = m; reader = p; server = resting })
          (record {
            shared = with_sent m (c_str m.globals.username) (c_str m.globals.password);
            reader = p;
            server = resting;
          })
  agreed_after m p is_card there =
      subst
        (λ (t : List ℕ × List ℕ).
          Reach aes static_key random_iv (record { shared = m; reader = p; server = resting })
            (record { shared = with_sent m t.0 t.1; reader = p; server = resting }))
        (ap₂ (λ user pass. (user, pass))
          (stored_whole m.globals.username is_card.username_size is_card.username_text)
          (stored_whole m.globals.password is_card.password_size is_card.password_text))
        (later
          (later
            (later (asked_after aes static_key random_iv m p there is_card.username_text)
              (server_moves (measure_password is_card.password_text)))
            (server_moves (copy_password is_card.password_text)))
          (server_moves agreed))

  -- Let a request of four bytes or more begin with INIT, while the fields of the card are
  -- terminated. The callback in one piece asks the user if a card is present, and sends the user
  -- name and the password if the answer is yes; the server thread's steps alone can come to the
  -- same: they send these two texts if a card is present and the answer is yes, and nothing if not.
  pub callback_dumb_increment-Reach :
      {W : Type 0} (wsi : Connection W) (m : Shared) (p : ReaderPc)
      (input padding header_buffer : List ℕ) (w : W)
      → IsCard m.globals
      → 4 ≤ length input
      → asks input ≡ true
      → let g = m.globals in
        let yes = (wsi.message_box w).0 == id_yes in
        (callback_dumb_increment wsi receive g input padding header_buffer w
          ≡ ok (pos 0, if g.is_data_present then answered wsi g w else w))
        × Reach aes static_key random_iv
            (record { shared = m; reader = p; server = resting })
            (record {
              shared =
                  if g.is_data_present && yes
                  then with_sent m (c_str g.username) (c_str g.password)
                  else m;
              reader = p;
              server = resting;
            })
  callback_dumb_increment-Reach wsi m p input padding header_buffer w is_card long asked =
      let g = m.globals in
      let whole =
        callback_dumb_increment-receive wsi g input padding header_buffer w is_card long in
      (
        rw asked at whole,
        either_way g.is_data_present ((wsi.message_box w).0 == id_yes) m
            (with_sent m (c_str g.username) (c_str g.password))
            (λ n.
              Reach aes static_key random_iv (record { shared = m; reader = p; server = resting })
                (record { shared = n; reader = p; server = resting }))
            (λ there. agreed_after m p is_card there) here,
      )
