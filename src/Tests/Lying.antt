-- ===== src/Tests/Lying.antt =====
-- A simulated card for the tests: it has the number DE AD BE EF, lies on a board and takes any key.
use secure_rfid_login.Common.{
  ℕ, ◌/◌, ◌≡◌, refl, ap, Bool, true, false, Option, none, some, List, [], ◌∷◌, ◌++◌, ◌==◌,
  minus_one, length, take, zeros, if◌then◌else◌, length-append, length-take, take-append,
  Bool-cases, eq→==, some_inj, inl, inr, arith,
}
use secure_rfid_login.Board.{Uno, Mfrc522, b_key}
use secure_rfid_login.Board.Layout.{Stores, Accepts, put}
use secure_rfid_login.Board.Sending.{Logs, hex_text}
use secure_rfid_login.Board.Writing.Cards.{Stays}

pub record Lying : Type 0 where
  pub blocks : ℕ → List ℕ
  pub sized : (b : ℕ) → length (blocks b) ≡ 16
  pub open_sector : Option ℕ
  pub sent : List ℕ

-- Sixteen bytes of any list.
abbrev sixteen : List ℕ → List ℕ
sixteen bytes = take 16 (bytes ++ zeros 16)

pub length-sixteen : (bytes : List ℕ) → length (sixteen bytes) ≡ 16
length-sixteen bytes =
    omega (arith, length-take 16 (bytes ++ zeros 16), length-append bytes (zeros 16))

pub put_sized :
    (b : ℕ) (bytes : List ℕ) (m : ℕ → List ℕ)
    → ((i : ℕ) → length (m i) ≡ 16)
    → (i : ℕ) → length (put b (sixteen bytes) m i) ≡ 16
put_sized b bytes m h i = elim (Bool-cases (i == b)) [
  | inl e ↦ rw e (length-sixteen bytes)
  | inr e ↦ rw e (h i)
]

-- What can be reached in the sector that is open.
abbrev reached : Option ℕ → ℕ → Bool
reached none b = false
reached (some s) b = s == b / 4

abbrev pub lying_uno : Uno Lying
lying_uno = record {
  available = λ w. 0;
  read = λ w. (minus_one, w);
  find = λ what w. (false, w);
  print = λ what w. record w { sent = w.sent ++ what };
  println = λ what w. record w { sent = w.sent ++ what };
  print_hex = λ b w. record w { sent = w.sent ++ hex_text b };
  delay = λ ms w. w;
}

abbrev pub lying : Mfrc522 Lying
lying = record {
  status_ok = 0;
  status_name = λ status. [];
  uid = λ w. 0xDE ∷ 0xAD ∷ 0xBE ∷ 0xEF ∷ [];
  is_new_card_present = λ w. (true, w);
  read_card_serial = λ w. (true, w);
  halt_a = λ w. w;
  stop_crypto1 = λ w. record w { open_sector = none };
  authenticate = λ trailer key w. (0, record w { open_sector = some (trailer / 4) });
  mifare_write = λ b bytes w. (
    if reached w.open_sector b then 0 else 1,
    if reached w.open_sector b
        then record w {
          blocks = put b (sixteen bytes) w.blocks;
          sized = put_sized b bytes w.blocks w.sized;
        }
        else w,
  );
  mifare_read = λ b w. (if reached w.open_sector b then 0 else 1, w.blocks b ++ zeros 2, w);
}

unfoldable pub card : Stores lying_uno lying b_key
card = record {
  store = λ w. w.blocks;
  block_size = λ b w. w.sized b;
  read_store = λ b w. (λ e. take-append (w.blocks b) (zeros 2) (w.sized b), refl);
  auth_store = λ t w. refl;
  print_store = λ what w. refl;
  println_store = λ what w. refl;
}

pub stays : Stays lying_uno lying card
unfolding card
stays = record {
  present_store = λ w. refl;
  select_store = λ w. refl;
  halt_store = λ w. refl;
  stop_store = λ w. refl;
  delay_store = λ ms w. refl;
  hex_store = λ b w. refl;
}

reached_lem : (sector : Option ℕ) (b : ℕ) → sector ≡ some (b / 4) → reached sector b ≡ true
reached_lem none b e = cc
reached_lem (some s) b e = eq→== s (b / 4) (some_inj s (b / 4) e)

pub accepts : Accepts lying_uno lying b_key card
unfolding card
accepts = record {
  sector = λ w. w.open_sector;
  auth_ok = λ t w. (refl, refl);
  write_ok = λ b bytes w open_one less ne size.
      rw (reached_lem w.open_sector b open_one)
        (refl, refl, ap (λ t. put b t w.blocks) (take-append bytes (zeros 16) size));
  read_ok = λ b w open_one less. rw (reached_lem w.open_sector b open_one) (refl, refl);
  print_sector = λ what w. refl;
}

unfoldable pub log : Logs lying_uno lying
log = record {
  sent = λ w. w.sent;
  print_sent = λ what w. (refl, refl);
  hex_sent = λ b w. refl;
  delay_sent = λ ms w. (refl, refl);
}
