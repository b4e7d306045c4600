-- ===== src/Common/Strings.antt =====
-- What `strcpy` and `strcat` leave in a buffer.
use Prim.Native.Nat.{ℕ, zero, suc, ◌+◌, ◌<◌}
use mathlib.Core.Path.{◌≡◌, refl, ap, ◌∙◌}
use mathlib.Core.Logic.{◌≢◌, inl, inr}
use mathlib.Core.List.{List, [], ◌∷◌, ◌++◌}
use mathlib.Core.Option.{some}
use native.Mathlib.Omega.{arith}
use secure_rfid_login.Common.Tests.{Option-cases, eq→==, ne→==_false}
use secure_rfid_login.Common.Lists.{length}
use secure_rfid_login.Common.Buffers.{
  overwrite, write_at, strlen, c_str, strcpy, strcat, strlen-eq-length, length-overwrite,
  length-write_at,
}

-- Characters, none of which is the terminator.
abbrev pub HasNoNul : List ℕ → Type 0
HasNoNul [] = Unit
HasNoNul (c ∷ s) = (c ≢ 0) × HasNoNul s

pub c_str-HasNoNul : (buf : List ℕ) → HasNoNul (c_str buf)
c_str-HasNoNul [] = tt
c_str-HasNoNul (c ∷ buf) = ground (arith, c_str-HasNoNul buf)

-- A string copied to the start of a buffer that has room for it.
pub overwrite_str :
    (dst s : List ℕ)
    → HasNoNul s
    → length s < length dst
    → (strlen (overwrite dst (s ++ 0 ∷ [])) ≡ some (length s))
      × (c_str (overwrite dst (s ++ 0 ∷ [])) ≡ s)
overwrite_str [] s h l = absurd (omega arith)
overwrite_str (d ∷ dst) [] h l = (refl, refl)
overwrite_str (d ∷ dst) (c ∷ s) h l =
    let ih = overwrite_str dst s h.1 (omega arith) in
    let ne = ne→==_false c 0 h.0 in (rw (ne, ih.0), rw (ne, ih.1))

strlen-cons_zero : (d : ℕ) (dst : List ℕ) → strlen (d ∷ dst) ≡ some 0 → d ≡ 0
strlen-cons_zero d dst e = elim (Option-cases (strlen dst)) [
  | inl o ↦ ground arith
  | inr (n, o) ↦ ground arith
]

strlen-cons_suc :
    (d : ℕ) (dst : List ℕ) {m : ℕ}
    → strlen (d ∷ dst) ≡ some (suc m)
    → (d ≢ 0) × (strlen dst ≡ some m)
strlen-cons_suc d dst e = elim (Option-cases (strlen dst)) [
  | inl o ↦ ground arith
  | inr (n, o) ↦ ground arith
]

-- A string copied over the terminator of another.
append_str :
    (dst s : List ℕ) {m : ℕ}
    → HasNoNul s
    → strlen dst ≡ some m
    → m + length s < length dst
    → (strlen (write_at dst m (s ++ 0 ∷ [])) ≡ some (m + length s))
      × (c_str (write_at dst m (s ++ 0 ∷ [])) ≡ c_str dst ++ s)
append_str [] s h e l = absurd (omega arith)
append_str (d ∷ dst) s {m = zero} h e l =
    let r = overwrite_str (d ∷ dst) s h (omega arith) in
    let z = eq→== d 0 (strlen-cons_zero d dst e) in (r.0 ∙ ap some (omega arith), rw z r.1)
append_str (d ∷ dst) s {m = suc m} h e l =
    let p = strlen-cons_suc d dst e in
    let ih = append_str dst s h p.1 (omega arith) in
    let z = ne→==_false d 0 p.0 in (rw (z, ih.0) (ap some (omega arith)), rw (z, ih.1))

-- `strcpy` of a string that fits.
pub strcpy_lem :
    (dst src : List ℕ) {n : ℕ}
    → strlen src ≡ some n
    → n < length dst
    → (out : List ℕ) × (strcpy dst src ≡ some out)
      × (strlen out ≡ some n)
      × (c_str out ≡ c_str src)
      × (length out ≡ length dst)
strcpy_lem dst src {n} e l =
    let size = strlen-eq-length src e in
    let r = overwrite_str dst (c_str src) (c_str-HasNoNul src) (omega (arith, size)) in
    (
      overwrite dst (c_str src ++ 0 ∷ []),
      ground (arith, e),
      r.0 ∙ ap some (omega (arith, size)),
      r.1,
      length-overwrite dst (c_str src ++ 0 ∷ []),
    )

-- `strcat` of two strings that fit.
pub strcat_lem :
    (dst src : List ℕ) {m n : ℕ}
    → strlen dst ≡ some m
    → strlen src ≡ some n
    → m + n < length dst
    → (out : List ℕ) × (strcat dst src ≡ some out)
      × (strlen out ≡ some (m + n))
      × (c_str out ≡ c_str dst ++ c_str src)
      × (length out ≡ length dst)
strcat_lem dst src {m} {n} d e l =
    let size = strlen-eq-length src e in
    let r = append_str dst (c_str src) (c_str-HasNoNul src) d (omega (arith, size)) in
    (
      write_at dst m (c_str src ++ 0 ∷ []),
      ground (arith, d, e),
      r.0 ∙ ap some (omega (arith, size)),
      r.1,
      length-write_at dst m (c_str src ++ 0 ∷ []),
    )
