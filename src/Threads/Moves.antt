-- ===== src/Threads/Moves.antt =====
-- Each step of a thread keeps the invariant.
use secure_rfid_login.Common.{
  ℕ, ◌≡◌, refl, sym, ap, subst, ◌∙◌, List, [], ◌∷◌, ◌++◌, take, take_all, length, drop, zeros,
  c_str, arith,
}
use mathlib.Core.List.{Memᴰ}
use secure_rfid_login.Crypt.{Aes, max_block_size, dec_cfb}
use secure_rfid_login.Reader.Card.{send_info_notification-KeepsCard}
use secure_rfid_login.Threads.{
  Card, Shared, ReaderPc, ServerPc, resting, username_there, username_measured, username_copied,
  password_there, password_measured, asking, card_of, ReaderMove, announced, rejected, arrived,
  clear_name, clear_surname, clear_username, clear_password, set_name, set_surname, set_username,
  set_password, refused, accepts, set_present, decrypt_username, write_username, end_username,
  fail_username, decrypt_password, write_password, end_password, notified, ServerMove, no_card,
  card, measure_username, copy_username, withdrawn, still_card, measure_password, copy_password,
  declined, agreed, no_desktop,
}
use secure_rfid_login.Threads.Parts.{
  IsPart, blank, part, IsPart-cons, stored-IsPart, c_str-written, c_str-zeros,
}
use secure_rfid_login.Threads.Invariant.{user_of, pass_of, ServerInv, SentInv, Inv}

module _ {Context : Type 0} (aes : Aes Context) (static_key random_iv : List ℕ) where
  written :
      (text_of : Card → List ℕ) (cards : List Card) (c : Card) (k : ℕ) (plain old : List ℕ)
      → Memᴰ c cards
      → old ≡ zeros 64
      → c_str plain ≡ text_of c
      → IsPart text_of cards (c_str (take k plain ++ drop k old))
  written text_of cards c k plain old m o e = part c k m (
      c_str-written k plain (drop k old) (ap (λ t. c_str (drop k t)) o ∙ c_str-zeros k 64)
      ∙ ap (take k) e)

  whole :
      (text_of : Card → List ℕ) (cards : List Card) (c : Card) (plain : List ℕ)
      → Memᴰ c cards
      → c_str plain ≡ text_of c
      → IsPart text_of cards (c_str plain)
  whole text_of cards c plain m e =
      part c (length (text_of c)) m (e ∙ sym (take_all (text_of c) (omega arith)))

  ServerInv-cons :
      (c : Card) (cards : List Card) (q : ServerPc)
      → ServerInv aes static_key random_iv cards q
      → ServerInv aes static_key random_iv (c ∷ cards) q
  ServerInv-cons c cards resting h = tt
  ServerInv-cons c cards username_there h = tt
  ServerInv-cons c cards (username_measured n) h = tt
  ServerInv-cons c cards (username_copied user) h = IsPart-cons c h
  ServerInv-cons c cards (password_there user) h = IsPart-cons c h
  ServerInv-cons c cards (password_measured user n) h = IsPart-cons c h
  ServerInv-cons c cards (asking user pass) h = (IsPart-cons c h.0, IsPart-cons c h.1)

  SentInv-cons :
      (c : Card) (cards : List Card) (sent : List (List ℕ × List ℕ))
      → SentInv aes static_key random_iv cards sent
      → SentInv aes static_key random_iv (c ∷ cards) sent
  SentInv-cons c cards [] h = tt
  SentInv-cons c cards ((user, pass) ∷ sent) h =
      ((IsPart-cons c h.0.0, IsPart-cons c h.0.1), SentInv-cons c cards sent h.1)

  pub cleared_part :
      (text_of : Card → List ℕ) (cards : List Card) → IsPart text_of cards (c_str (zeros 64))
  cleared_part text_of cards = blank (c_str-zeros 0 64)

  -- Every step of the reader thread keeps the invariant.
  pub ReaderMove-Inv :
      {m n : Shared} {p p' : ReaderPc} (q : ServerPc)
      → ReaderMove aes static_key random_iv m p n p'
      → Inv aes static_key random_iv m p q
      → Inv aes static_key random_iv n p' q
  ReaderMove-Inv q announced (f, r, h, s) = (f, tt, h, s)
  ReaderMove-Inv q (rejected buff) (f, r, h, s) = (f, tt, h, s)
  ReaderMove-Inv q (arrived buff serial) (f, r, h, s) = (f, tt, h, s)
  ReaderMove-Inv q clear_name (f, r, h, s) = (f, tt, h, s)
  ReaderMove-Inv q clear_surname (f, r, h, s) = (f, tt, h, s)
  ReaderMove-Inv {m} q clear_username (f, r, h, s) =
      ((cleared_part (user_of aes static_key random_iv) m.accepted, f.1), refl, h, s)
  ReaderMove-Inv {m} q clear_password (f, r, h, s) =
      ((f.0, cleared_part (pass_of aes static_key random_iv) m.accepted), (r, refl), h, s)
  ReaderMove-Inv q set_name (f, r, h, s) = (f, r, h, s)
  ReaderMove-Inv q set_surname (f, r, h, s) = (f, r, h, s)
  ReaderMove-Inv q set_username (f, r, h, s) = (f, r, h, s)
  ReaderMove-Inv q set_password (f, r, h, s) = (f, r, h, s)
  ReaderMove-Inv q (refused answer other) (f, r, h, s) = (f, tt, h, s)
  ReaderMove-Inv {m} q accepts (f, r, h, s) =
      let c = card_of m.globals in
      (
        (IsPart-cons c f.0, IsPart-cons c f.1),
        (r, Memᴰ.head refl),
        ServerInv-cons c m.accepted q h,
        SentInv-cons c m.accepted m.sent s,
      )
  ReaderMove-Inv q set_present (f, r, h, s) = (f, r, h, s)
  ReaderMove-Inv {m} q (decrypt_username plain_eq old_eq) (f, ((u, p), a), h, s) = (
    f,
    (
      old_eq ∙ u,
      plain_eq
          ∙ ap (λ t. (dec_cfb aes static_key random_iv max_block_size m.globals.enc_username t).1)
              (old_eq ∙ u),
      p,
      a,
    ),
    h,
    s,
  )
  ReaderMove-Inv {m} q (write_username {plain} {old} k) (f, (o, e, p, a), h, s) = (
    (
      written (user_of aes static_key random_iv) m.accepted (card_of m.globals) k plain old a o
          (ap c_str e),
      f.1,
    ),
    (o, e, p, a),
    h,
    s,
  )
  ReaderMove-Inv {m} q (end_username {plain} {old}) (f, (o, e, p, a), h, s) = (
    (
      whole (user_of aes static_key random_iv) m.accepted (card_of m.globals) plain a (ap c_str e),
      f.1,
    ),
    (p, a),
    h,
    s,
  )
  ReaderMove-Inv {m} q (fail_username {plain} {old} bad) (f, (o, e, p, a), h, s) = (
    (
      whole (user_of aes static_key random_iv) m.accepted (card_of m.globals) plain a (ap c_str e),
      f.1,
    ),
    tt,
    h,
    s,
  )
  ReaderMove-Inv {m} q (decrypt_password plain_eq old_eq) (f, (p, a), h, s) = (
    f,
    (
      old_eq ∙ p,
      plain_eq
          ∙ ap (λ t. (dec_cfb aes static_key random_iv max_block_size m.globals.enc_password t).1)
              (old_eq ∙ p),
      a,
    ),
    h,
    s,
  )
  ReaderMove-Inv {m} q (write_password {plain} {old} k) (f, (o, e, a), h, s) = (
    (
      f.0,
      written (pass_of aes static_key random_iv) m.accepted (card_of m.globals) k plain old a o
          (ap c_str e),
    ),
    (o, e, a),
    h,
    s,
  )
  ReaderMove-Inv {m} q (end_password {plain} {old}) (f, (o, e, a), h, s) = (
    (
      f.0,
      whole (pass_of aes static_key random_iv) m.accepted (card_of m.globals) plain a (ap c_str e),
    ),
    tt,
    h,
    s,
  )
  ReaderMove-Inv {m} {n} q (notified {g} e) (f, r, h, s) =
      let k = send_info_notification-KeepsCard no_desktop m.globals g tt tt e in
      (
        (
          subst (λ t. IsPart (user_of aes static_key random_iv) m.accepted (c_str t))
              (sym k.username) f.0,
          subst (λ t. IsPart (pass_of aes static_key random_iv) m.accepted (c_str t))
              (sym k.password) f.1,
        ),
        tt,
        h,
        s,
      )

  -- Every step of the server thread keeps the invariant.
  pub ServerMove-Inv :
      {m n : Shared} {q q' : ServerPc} (p : ReaderPc)
      → ServerMove m q n q'
      → Inv aes static_key random_iv m p q
      → Inv aes static_key random_iv n p q'
  ServerMove-Inv p (no_card e) (f, r, h, s) = (f, r, tt, s)
  ServerMove-Inv p (card e) (f, r, h, s) = (f, r, tt, s)
  ServerMove-Inv p (measure_username e) (f, r, h, s) = (f, r, tt, s)
  ServerMove-Inv {m} p (copy_username {n} e) (f, r, h, s) =
      (f, r, stored-IsPart n m.globals.username f.0, s)
  ServerMove-Inv p (withdrawn e) (f, r, h, s) = (f, r, tt, s)
  ServerMove-Inv p (still_card e) (f, r, h, s) = (f, r, h, s)
  ServerMove-Inv p (measure_password e) (f, r, h, s) = (f, r, h, s)
  ServerMove-Inv {m} p (copy_password {user} {n} e) (f, r, h, s) =
      (f, r, (h, stored-IsPart n m.globals.password f.1), s)
  ServerMove-Inv p declined (f, r, h, s) = (f, r, tt, s)
  ServerMove-Inv p agreed (f, r, h, s) = (f, r, tt, (h, s))
