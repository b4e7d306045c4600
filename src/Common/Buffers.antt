-- ===== src/Common/Buffers.antt =====
-- C buffers as lists of bytes, and the C strings that they hold. A buffer keeps its length: what a
-- copy would write past the end is dropped here, and the code's own bounds are proved where they hold.
use Prim.Native.Nat.{ℕ, zero, suc, ◌+◌, ◌≤◌, ◌<◌}
use mathlib.Core.Path.{◌≡◌, refl, sym, ap, ◌∙◌}
use mathlib.Core.Logic.{inl, inr, ◌↔◌}
use mathlib.Core.Bool.{Bool, true, false, ◌&&◌}
use mathlib.Core.List.{List, [], ◌∷◌, ◌++◌}
use mathlib.Core.Option.{Option, none, some}
use native.Mathlib.Omega.{arith}
use secure_rfid_login.Common.Tests.{◌==◌, ltb, if◌then◌else◌, Option-cases}
use secure_rfid_login.Common.Lists.{length, take, drop, replicate}

-- `memcpy` onto the start of a buffer.
abbrev pub overwrite : List ℕ → List ℕ → List ℕ
overwrite [] src = []
overwrite (d ∷ dst) [] = d ∷ dst
overwrite (d ∷ dst) (s ∷ src) = s ∷ overwrite dst src

-- `memcpy(&dst[off], src, n)` for the `n` bytes of `src`.
abbrev pub write_at : List ℕ → ℕ → List ℕ → List ℕ
write_at [] off src = []
write_at (d ∷ dst) zero src = overwrite (d ∷ dst) src
write_at (d ∷ dst) (suc off) src = d ∷ write_at dst off src

-- The `n` bytes at `&buf[off]`.
abbrev pub slice : ℕ → ℕ → List ℕ → List ℕ
slice off n buf = take n (drop off buf)

abbrev pub zeros : ℕ → List ℕ
zeros n = replicate n 0

-- `strlen`; `none` where the buffer holds no terminator, so that C reads past its end.
abbrev pub strlen : List ℕ → Option ℕ
strlen [] = none
strlen (c ∷ buf) =
    if c == 0 then some 0 else elim (strlen buf) [ none ↦ none | some n ↦ some (suc n) ]

-- The characters before the terminator.
abbrev pub c_str : List ℕ → List ℕ
c_str [] = []
c_str (c ∷ buf) = if c == 0 then [] else c ∷ c_str buf

-- `strcmp(a, b) == 0` on the characters of two strings, `memcmp` on bytes.
abbrev pub same_bytes : List ℕ → List ℕ → Bool
same_bytes [] [] = true
same_bytes [] (y ∷ ys) = false
same_bytes (x ∷ xs) [] = false
same_bytes (x ∷ xs) (y ∷ ys) = (x == y) && same_bytes xs ys

pub same_bytes→eq : (xs ys : List ℕ) → same_bytes xs ys ≡ true → xs ≡ ys
same_bytes→eq [] [] h = refl
same_bytes→eq [] (y ∷ ys) h = ground arith
same_bytes→eq (x ∷ xs) [] h = ground arith
same_bytes→eq (x ∷ xs) (y ∷ ys) h = ground (arith, same_bytes→eq xs ys)

pub same_bytes_refl : (xs : List ℕ) → same_bytes xs xs ≡ true
same_bytes_refl [] = refl
same_bytes_refl (x ∷ xs) = ground (arith, same_bytes_refl xs)

pub same_bytes_iff : (xs ys : List ℕ) → (same_bytes xs ys ≡ true) ↔ (xs ≡ ys)
same_bytes_iff xs ys =
    (same_bytes→eq xs ys, λ e. ap (λ t. same_bytes xs t) (sym e) ∙ same_bytes_refl xs)

pub length-overwrite : (dst src : List ℕ) → length (overwrite dst src) ≡ length dst
length-overwrite [] src = refl
length-overwrite (d ∷ dst) [] = refl
length-overwrite (d ∷ dst) (s ∷ src) = ap suc (length-overwrite dst src)

pub length-write_at :
    (dst : List ℕ) (off : ℕ) (src : List ℕ) → length (write_at dst off src) ≡ length dst
length-write_at [] off src = refl
length-write_at (d ∷ dst) zero src = length-overwrite (d ∷ dst) src
length-write_at (d ∷ dst) (suc off) src = ap suc (length-write_at dst off src)

pub take-overwrite :
    (dst src : List ℕ) → length src ≤ length dst → take (length src) (overwrite dst src) ≡ src
take-overwrite [] [] h = refl
take-overwrite [] (s ∷ src) h = elim h [ ]
take-overwrite (d ∷ dst) [] h = refl
take-overwrite (d ∷ dst) (s ∷ src) h = ap (λ t. s ∷ t) (take-overwrite dst src (omega arith))

-- A copy that fits extends the prefix that stood before it.
pub take-write_at :
    (dst src : List ℕ) (off : ℕ) {n : ℕ}
    → off + length src ≤ length dst
    → n ≡ off + length src
    → take n (write_at dst off src) ≡ take off dst ++ src
take-write_at [] [] zero {n} h e = let z : n ≡ 0 = omega arith in rw z
take-write_at [] (s ∷ src) zero h e = absurd (omega arith)
take-write_at [] src (suc off) h e = absurd (omega arith)
take-write_at (d ∷ dst) src zero {n} h e =
    let z : n ≡ length src = omega arith in rw z (take-overwrite (d ∷ dst) src (omega arith))
take-write_at (d ∷ dst) src (suc off) {n = zero} h e = absurd (omega arith)
take-write_at (d ∷ dst) src (suc off) {n = suc n} h e =
    ap (λ t. d ∷ t) (take-write_at dst src off (omega arith) (omega arith))

drop-overwrite :
    (dst src : List ℕ) {n : ℕ} → length src ≤ n → drop n (overwrite dst src) ≡ drop n dst
drop-overwrite [] src h = refl
drop-overwrite (d ∷ dst) [] h = refl
drop-overwrite (d ∷ dst) (s ∷ src) {n = zero} h = absurd (omega arith)
drop-overwrite (d ∷ dst) (s ∷ src) {n = suc n} h = drop-overwrite dst src (omega arith)

-- It leaves what stands behind it alone.
pub drop-write_at :
    (dst src : List ℕ) (off : ℕ) {n : ℕ}
    → off + length src ≤ n
    → drop n (write_at dst off src) ≡ drop n dst
drop-write_at [] src off h = refl
drop-write_at (d ∷ dst) src zero h = drop-overwrite (d ∷ dst) src (omega arith)
drop-write_at (d ∷ dst) src (suc off) {n = zero} h = absurd (omega arith)
drop-write_at (d ∷ dst) src (suc off) {n = suc n} h = drop-write_at dst src off (omega arith)

-- A copy over a whole buffer is the source.
pub overwrite_all : (dst src : List ℕ) → length src ≡ length dst → overwrite dst src ≡ src
overwrite_all [] [] h = refl
overwrite_all [] (s ∷ src) h = absurd (omega arith)
overwrite_all (d ∷ dst) [] h = absurd (omega arith)
overwrite_all (d ∷ dst) (s ∷ src) h = ap (λ t. s ∷ t) (overwrite_all dst src (omega arith))

-- A string stays inside its buffer, and its terminator too.
pub strlen-lt-length : (buf : List ℕ) {n : ℕ} → strlen buf ≡ some n → n < length buf
strlen-lt-length [] h = cc
strlen-lt-length (c ∷ buf) h = elim (Option-cases (strlen buf)) [
  | inl e ↦ ground arith
  | inr (k, e) ↦ ground (arith, strlen-lt-length buf e)
]

-- `strlen` counts the characters of the string.
pub strlen-eq-length : (buf : List ℕ) {n : ℕ} → strlen buf ≡ some n → n ≡ length (c_str buf)
strlen-eq-length [] h = cc
strlen-eq-length (c ∷ buf) h = elim (Option-cases (strlen buf)) [
  | inl e ↦ ground arith
  | inr (k, e) ↦ ground (arith, strlen-eq-length buf e)
]

pub write_at-nil : (buf : List ℕ) (off : ℕ) → write_at buf off [] ≡ buf
write_at-nil [] off = refl
write_at-nil (b ∷ buf) zero = refl
write_at-nil (b ∷ buf) (suc off) = ap (λ t. b ∷ t) (write_at-nil buf off)

pub overwrite-append :
    (dst src : List ℕ) → length src ≤ length dst → overwrite dst src ≡ src ++ drop (length src) dst
overwrite-append [] [] h = refl
overwrite-append [] (s ∷ src) h = elim h [ ]
overwrite-append (d ∷ dst) [] h = refl
overwrite-append (d ∷ dst) (s ∷ src) h = ap (λ t. s ∷ t) (overwrite-append dst src (omega arith))

-- `strcpy(dst, src)`; `none` where it reads or writes past the end of a buffer.
abbrev pub strcpy : List ℕ → List ℕ → Option (List ℕ)
strcpy dst src = elim (strlen src) [
  | none ↦ none
  | some n ↦ if ltb n (length dst) then some (overwrite dst (c_str src ++ 0 ∷ [])) else none
]

-- `strcat(dst, src)`.
abbrev pub strcat : List ℕ → List ℕ → Option (List ℕ)
strcat dst src = elim (strlen dst) [
  | none ↦ none
  | some m ↦ elim (strlen src) [
    | none ↦ none
    | some n ↦
        if ltb (m + n) (length dst) then some (write_at dst m (c_str src ++ 0 ∷ [])) else none
  ]
]
