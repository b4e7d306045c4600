-- ===== src/Startup/Value.antt =====
-- The command line that the program registers.
use secure_rfid_login.Common.{
  ℕ, zero, suc, inl, inr, ◌==◌, take, Option-cases, Bool-cases, ◌+◌, ◌<◌, ◌≡◌, refl, ap, ◌∙◌, some,
  List, [], ◌∷◌, ◌++◌, ok, in_bounds, length, strlen, c_str, codes, strcpy_lem, strcat_lem, arith,
}
use secure_rfid_login.Startup.{command_line}

abbrev pub arguments : List ℕ
arguments = codes "-foobar" ++ 0 ∷ []

-- A path in quotes, a blank, and the arguments.
abbrev pub line : List ℕ → List ℕ
line path = ((codes "\"" ++ path) ++ codes "\" ") ++ codes "-foobar"

pub command_line_lem :
    (value path : List ℕ) {n : ℕ}
    → length value ≡ 520
    → strlen path ≡ some n
    → n < 510
    → (v : List ℕ) × (command_line value path (some arguments) ≡ ok v)
      × (strlen v ≡ some (n + 10))
      × (c_str v ≡ line (c_str path))
      × (length v ≡ 520)
unfolding command_line
command_line_lem value path {n} size e h =
    let r1 = strcpy_lem value (codes "\"" ++ 0 ∷ []) {n = 1} refl (omega arith) in
    let r2 = strcat_lem r1.0 path r1.2 e (omega arith) in
    let r3 = strcat_lem r2.0 (codes "\" " ++ 0 ∷ []) {n = 2} r2.2 refl (omega arith) in
    let r4 = strcat_lem r3.0 arguments {n = 7} r3.2 refl (omega arith) in
    (
      r4.0,
      rw (r1.1, r2.1, r3.1) (ap in_bounds r4.1),
      r4.2 ∙ ap some (omega arith),
      rw (r4.3, r3.3, r2.3, r1.3) refl,
      omega arith,
    )

-- The characters up to the terminator are in the part that has the terminator.
pub c_str-take :
    (v : List ℕ) (k : ℕ) {n : ℕ} → strlen v ≡ some n → n < k → c_str (take k v) ≡ c_str v
c_str-take [] k e h = cc
c_str-take (c ∷ v) zero e h = absurd (omega arith)
c_str-take (c ∷ v) (suc k) {n} e h = elim (Option-cases (strlen v)) [
  | inl f ↦ ground (arith, e, f)
  | inr (m, f) ↦ elim (Bool-cases (c == 0)) [
    | inl z ↦ rw z
    | inr nz ↦
        let longer : n ≡ suc m = ground (arith, e, f, nz) in
        rw nz (ap (λ t. c ∷ t) (c_str-take v k f (omega arith)))
  ]
]
