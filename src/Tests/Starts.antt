-- ===== src/Tests/Starts.antt =====
-- system-register.c at concrete inputs: a registry with one value.
use secure_rfid_login.Common.{
  ℕ, suc, ◌+◌, ◌*◌, ◌<◌, ◌-◌, ◌≤◌, ◌≡◌, ◌≢◌, refl, subst, Option, none, some, List, [], ◌∷◌, ◌++◌,
  ok, if◌then◌else◌, ltb, length, overwrite, c_str, c_str-HasNoNul, HasNoNul, zeros, codes, lt→ltb,
  le→ltb_false, arith,
}
use secure_rfid_login.Startup.{Registry, register_if_doesnt_exist}
use secure_rfid_login.Startup.Again.{Works, AfterStart, register_if_doesnt_exist_lem}

pub record Machine : Type 0 where
  pub stored : Option (List ℕ)
  pub warnings : ℕ
  pub keys : ℕ

abbrev text_in : Option (List ℕ) → Option (List ℕ)
text_in none = none
text_in (some v) = some (c_str v)

abbrev fetch : Option (List ℕ) → (buff : List ℕ) → (size : ℕ) → ℕ × List ℕ
fetch none buff size = (2, buff)
fetch (some v) buff size =
    if ltb size ((length (c_str v) + 1) * 2)
    then (234, buff)
    else (0, overwrite buff (c_str v ++ 0 ∷ []))

abbrev program : List ℕ
program = codes "C:/srl/srl.exe"

abbrev pub registry : Registry Machine
registry = record {
  open_key = λ w. (0, some 7, record w { keys = suc w.keys });
  create_key = λ w. (0, some 7, record w { keys = suc w.keys });
  get_value =
      λ key name buff size w. let (code, buff') = fetch w.stored buff size in (code, buff', w);
  set_value = λ key name text w. (0, record w { stored = some text });
  close_key = λ key w. record w { keys = w.keys - 1 };
  module_file_name = λ buff size w. (overwrite buff (program ++ 0 ∷ []), w);
  message_box = λ w. record w { warnings = suc w.warnings };
}

abbrev title : List ℕ
title = codes "Secure-RFID-Login: Argo"

text_in-HasNoNul : (o : Option (List ℕ)) {v : List ℕ} → text_in o ≡ some v → HasNoNul v
text_in-HasNoNul none e = cc
text_in-HasNoNul (some u) {v} e =
    let same : c_str u ≡ v = ground (arith, e) in subst HasNoNul same (c_str-HasNoNul u)

fetch_missing :
    (o : Option (List ℕ)) (buff : List ℕ) (size : ℕ) → text_in o ≡ none → (fetch o buff size).0 ≢ 0
fetch_missing none buff size e = λ h. absurd (omega (arith, h))
fetch_missing (some u) buff size e = cc

fetch_long :
    (o : Option (List ℕ)) (buff : List ℕ) (size : ℕ) {v : List ℕ}
    → text_in o ≡ some v
    → size < (length v + 1) * 2
    → (fetch o buff size).0 ≢ 0
fetch_long none buff size e h = cc
fetch_long (some u) buff size {v} e h =
    let same : c_str u ≡ v = ground (arith, e) in
    rw (same, lt→ltb size ((length v + 1) * 2) h) (λ z. absurd (omega (arith, z)))

fetch_short :
    (o : Option (List ℕ)) (buff : List ℕ) (size : ℕ) {v : List ℕ}
    → text_in o ≡ some v
    → (length v + 1) * 2 ≤ size
    → ((fetch o buff size).0 ≡ 0) × ((fetch o buff size).1 ≡ overwrite buff (v ++ 0 ∷ []))
fetch_short none buff size e h = cc
fetch_short (some u) buff size {v} e h =
    let same : c_str u ≡ v = ground (arith, e) in
    rw (same, le→ltb_false size ((length v + 1) * 2) h) (refl, refl)

pub registry_works : Works registry title
registry_works = record {
  value = λ w. text_in w.stored;
  warnings = λ w. w.warnings;
  path = program;
  path_no_nul = omega arith;
  path_short = omega arith;
  value_no_nul = λ w e. text_in-HasNoNul w.stored e;
  opens = λ w. (refl, refl, refl);
  creates = λ w. (refl, refl, refl);
  reads = λ key buff size w. (refl, refl);
  misses = λ key buff size w e. fetch_missing w.stored buff size e;
  overflows = λ key buff size w e h. fetch_long w.stored buff size e h;
  gets = λ key buff size w e h. fetch_short w.stored buff size e h;
  sets = λ key text w. (refl, refl, refl);
  closes = λ key w. (refl, refl);
  names = λ buff w. (refl, refl, refl);
  shows = λ w. (refl, refl);
}

abbrev pub fresh : Machine
fresh = record { stored = none; warnings = 0; keys = 0 }

register_if_doesnt_exist_lem_example :
    (w : Machine) × (register_if_doesnt_exist registry
        (zeros 260)
        (zeros 260)
        (zeros 260)
        (zeros 520)
        title
        fresh
      ≡ ok w)
    × AfterStart registry title registry_works fresh w
register_if_doesnt_exist_lem_example =
    register_if_doesnt_exist_lem registry title registry_works (zeros 260) (zeros 260) (zeros 260)
      (zeros 520) fresh refl refl refl
