-- ===== src/Common/Lists.antt =====
-- Lists measured and indexed by native numbers, under the library's names.
use Prim.Native.Nat.{ℕ, zero, suc, ◌+◌, ◌-◌, ◌≤◌, ◌<◌, min}
use mathlib.Core.Path.{◌≡◌, refl, sym, ap, ◌∙◌}
use mathlib.Core.Logic.{◌≢◌}
use mathlib.Core.List.{List, [], ◌∷◌, ◌++◌}
use mathlib.Core.Option.{Option, none, some}
use native.Mathlib.Omega.{arith}

module _ {ℓ} {A : Type ℓ} where
  abbrev pub length : List A → ℕ
  length [] = 0
  length (x ∷ xs) = suc (length xs)

  abbrev pub get_elem? : List A → ℕ → Option A
  get_elem? [] i = none
  get_elem? (x ∷ xs) zero = some x
  get_elem? (x ∷ xs) (suc i) = get_elem? xs i

  abbrev pub get_or : List A → ℕ → A → A
  get_or [] i d = d
  get_or (x ∷ xs) zero d = x
  get_or (x ∷ xs) (suc i) d = get_or xs i d

  -- A write out of bounds changes nothing.
  abbrev pub set : List A → ℕ → A → List A
  set [] i v = []
  set (x ∷ xs) zero v = v ∷ xs
  set (x ∷ xs) (suc i) v = x ∷ set xs i v

  abbrev pub take : ℕ → List A → List A
  take zero xs = []
  take (suc n) [] = []
  take (suc n) (x ∷ xs) = x ∷ take n xs

  abbrev pub drop : ℕ → List A → List A
  drop zero xs = xs
  drop (suc n) [] = []
  drop (suc n) (x ∷ xs) = drop n xs

  abbrev pub replicate : ℕ → A → List A
  replicate zero a = []
  replicate (suc n) a = a ∷ replicate n a

  pub length-append : (xs ys : List A) → length (xs ++ ys) ≡ length xs + length ys
  length-append [] ys = omega arith
  length-append (x ∷ xs) ys = omega (arith, length-append xs ys)

  pub length-set : (xs : List A) (i : ℕ) (v : A) → length (set xs i v) ≡ length xs
  length-set [] i v = refl
  length-set (x ∷ xs) zero v = refl
  length-set (x ∷ xs) (suc i) v = ap suc (length-set xs i v)

  pub length-take : (n : ℕ) (xs : List A) → length (take n xs) ≡ min n (length xs)
  length-take zero xs = omega arith
  length-take (suc n) [] = omega arith
  length-take (suc n) (x ∷ xs) = omega (arith, length-take n xs)

  pub length-drop : (n : ℕ) (xs : List A) → length (drop n xs) ≡ length xs - n
  length-drop zero xs = omega arith
  length-drop (suc n) [] = omega arith
  length-drop (suc n) (x ∷ xs) = omega (arith, length-drop n xs)

  pub length-replicate : (n : ℕ) (a : A) → length (replicate n a) ≡ n
  length-replicate zero a = refl
  length-replicate (suc n) a = ap suc (length-replicate n a)

  pub take-append : (xs ys : List A) {n : ℕ} → length xs ≡ n → take n (xs ++ ys) ≡ xs
  take-append [] ys {n = zero} h = refl
  take-append [] ys {n = suc n} h = absurd (omega arith)
  take-append (x ∷ xs) ys {n = zero} h = absurd (omega arith)
  take-append (x ∷ xs) ys {n = suc n} h = ap (λ t. x ∷ t) (take-append xs ys (omega arith))

  pub drop-append : (xs ys : List A) {n : ℕ} → length xs ≡ n → drop n (xs ++ ys) ≡ ys
  drop-append [] ys {n = zero} h = refl
  drop-append [] ys {n = suc n} h = absurd (omega arith)
  drop-append (x ∷ xs) ys {n = zero} h = absurd (omega arith)
  drop-append (x ∷ xs) ys {n = suc n} h = drop-append xs ys (omega arith)

  pub take-append-drop : (n : ℕ) (xs : List A) → take n xs ++ drop n xs ≡ xs
  take-append-drop zero xs = refl
  take-append-drop (suc n) [] = refl
  take-append-drop (suc n) (x ∷ xs) = ap (λ t. x ∷ t) (take-append-drop n xs)

  pub take_all : (xs : List A) {n : ℕ} → length xs ≤ n → take n xs ≡ xs
  take_all [] {n = zero} h = refl
  take_all [] {n = suc n} h = refl
  take_all (x ∷ xs) {n = zero} h = absurd (omega arith)
  take_all (x ∷ xs) {n = suc n} h = ap (λ t. x ∷ t) (take_all xs (omega arith))

  pub drop_all : (xs : List A) {n : ℕ} → length xs ≤ n → drop n xs ≡ []
  drop_all [] {n = zero} h = refl
  drop_all [] {n = suc n} h = refl
  drop_all (x ∷ xs) {n = zero} h = absurd (omega arith)
  drop_all (x ∷ xs) {n = suc n} h = drop_all xs (omega arith)

  pub get_elem?-set_self :
      (xs : List A) (i : ℕ) (v : A) → i < length xs → get_elem? (set xs i v) i ≡ some v
  get_elem?-set_self [] i v h = elim h [ ]
  get_elem?-set_self (x ∷ xs) zero v h = refl
  get_elem?-set_self (x ∷ xs) (suc i) v h = get_elem?-set_self xs i v (omega arith)

  pub get_elem?-set_ne :
      (xs : List A) (i j : ℕ) (v : A) → i ≢ j → get_elem? (set xs i v) j ≡ get_elem? xs j
  get_elem?-set_ne [] i j v h = refl
  get_elem?-set_ne (x ∷ xs) zero zero v h = absurd (h refl)
  get_elem?-set_ne (x ∷ xs) zero (suc j) v h = refl
  get_elem?-set_ne (x ∷ xs) (suc i) zero v h = refl
  get_elem?-set_ne (x ∷ xs) (suc i) (suc j) v h = get_elem?-set_ne xs i j v (λ e. h (ap suc e))

  pub get_or-eq-get_elem? :
      (xs : List A) (i : ℕ) (d : A) → i < length xs → get_elem? xs i ≡ some (get_or xs i d)
  get_or-eq-get_elem? [] i d h = elim h [ ]
  get_or-eq-get_elem? (x ∷ xs) zero d h = refl
  get_or-eq-get_elem? (x ∷ xs) (suc i) d h = get_or-eq-get_elem? xs i d (omega arith)

  pub get_or-append :
      (xs ys : List A) (i : ℕ) (d : A)
      → length xs ≤ i
      → get_or (xs ++ ys) i d ≡ get_or ys (i - length xs) d
  get_or-append [] ys i d h = ap (λ k. get_or ys k d) (omega arith)
  get_or-append (x ∷ xs) ys zero d h = elim h [ ]
  get_or-append (x ∷ xs) ys (suc i) d h =
      get_or-append xs ys i d (omega arith) ∙ ap (λ k. get_or ys k d) (omega arith)

module _ {ℓ} {A : Type ℓ} where
  pub drop-nil : (n : ℕ) → drop {A = A} n [] ≡ []
  drop-nil zero = refl
  drop-nil (suc n) = refl

  pub take-nil : (n : ℕ) → take {A = A} n [] ≡ []
  take-nil zero = refl
  take-nil (suc n) = refl

  pub drop-drop : (m n : ℕ) (xs : List A) {k : ℕ} → k ≡ n + m → drop m (drop n xs) ≡ drop k xs
  drop-drop m zero xs {k} e = ap (λ t. drop t xs) (omega arith)
  drop-drop m (suc n) [] {k} e = rw (drop-nil m, drop-nil k)
  drop-drop m (suc n) (x ∷ xs) {k = zero} e = absurd (omega arith)
  drop-drop m (suc n) (x ∷ xs) {k = suc k} e = drop-drop m n xs (omega arith)

  -- Past the end of the first part.
  pub drop-append_ge :
      (xs ys : List A) (n : ℕ) {k : ℕ}
      → length xs ≤ n
      → k ≡ n - length xs
      → drop n (xs ++ ys) ≡ drop k ys
  drop-append_ge [] ys n h e = ap (λ t. drop t ys) (omega arith)
  drop-append_ge (x ∷ xs) ys zero h e = elim h [ ]
  drop-append_ge (x ∷ xs) ys (suc n) h e = drop-append_ge xs ys n (omega arith) (omega arith)

  pub get_or-take : (n i : ℕ) (xs : List A) (d : A) → i < n → get_or (take n xs) i d ≡ get_or xs i d
  get_or-take zero i xs d h = elim h [ ]
  get_or-take (suc n) i [] d h = refl
  get_or-take (suc n) zero (x ∷ xs) d h = refl
  get_or-take (suc n) (suc i) (x ∷ xs) d h = get_or-take n i xs d (omega arith)

  pub get_or-drop :
      (n i : ℕ) (xs : List A) (d : A) {k : ℕ} → k ≡ n + i → get_or (drop n xs) i d ≡ get_or xs k d
  get_or-drop zero i xs d e = ap (λ t. get_or xs t d) (omega arith)
  get_or-drop (suc n) i [] d e = refl
  get_or-drop (suc n) i (x ∷ xs) d {k = zero} e = absurd (omega arith)
  get_or-drop (suc n) i (x ∷ xs) d {k = suc k} e = get_or-drop n i xs d (omega arith)

  -- The first parts of one list, cut at the same place, are one.
  pub append_cancel :
      (xs ys : List A) {us vs : List A}
      → length xs ≡ length ys
      → xs ++ us ≡ ys ++ vs
      → (xs ≡ ys) × (us ≡ vs)
  append_cancel xs ys {us} {vs} h e = (
    sym (take-append xs us refl) ∙ ap (take (length xs)) e ∙ take-append ys vs (sym h),
    sym (drop-append xs us refl) ∙ ap (drop (length xs)) e ∙ drop-append ys vs (sym h),
  )

module _ {ℓ} {A : Type ℓ} where
  pub take-split :
      (m n : ℕ) (xs : List A) {k : ℕ} → k ≡ m + n → take m xs ++ take n (drop m xs) ≡ take k xs
  take-split zero n xs e = ap (λ t. take t xs) (omega arith)
  take-split (suc m) zero [] {k} e = rw (take-nil k)
  take-split (suc m) (suc n) [] {k} e = rw (take-nil k)
  take-split (suc m) n (x ∷ xs) {k = zero} e = absurd (omega arith)
  take-split (suc m) n (x ∷ xs) {k = suc k} e = ap (λ t. x ∷ t) (take-split m n xs (omega arith))

  pub set-append :
      (xs : List A) (y v : A) (ys : List A) {i : ℕ}
      → i ≡ length xs
      → set (xs ++ (y ∷ ys)) i v ≡ xs ++ (v ∷ ys)
  set-append [] y v ys {i = zero} e = refl
  set-append [] y v ys {i = suc i} e = absurd (omega arith)
  set-append (x ∷ xs) y v ys {i = zero} e = absurd (omega arith)
  set-append (x ∷ xs) y v ys {i = suc i} e = ap (λ t. x ∷ t) (set-append xs y v ys (omega arith))

  pub get_or-set_self :
      (xs : List A) (i : ℕ) (v d : A) → i < length xs → get_or (set xs i v) i d ≡ v
  get_or-set_self [] i v d h = absurd (omega arith)
  get_or-set_self (x ∷ xs) zero v d h = refl
  get_or-set_self (x ∷ xs) (suc i) v d h = get_or-set_self xs i v d (omega arith)

  pub get_or-set_other :
      (xs : List A) (i j : ℕ) (v d : A) → i ≢ j → get_or (set xs i v) j d ≡ get_or xs j d
  get_or-set_other [] i j v d h = refl
  get_or-set_other (x ∷ xs) zero zero v d h = absurd (h refl)
  get_or-set_other (x ∷ xs) zero (suc j) v d h = refl
  get_or-set_other (x ∷ xs) (suc i) zero v d h = refl
  get_or-set_other (x ∷ xs) (suc i) (suc j) v d h = get_or-set_other xs i j v d (λ e. h (ap suc e))

  pub take-set : (n i : ℕ) (xs : List A) (v : A) → n ≤ i → take n (set xs i v) ≡ take n xs
  take-set zero i xs v h = refl
  take-set (suc n) i [] v h = refl
  take-set (suc n) zero (x ∷ xs) v h = absurd (omega arith)
  take-set (suc n) (suc i) (x ∷ xs) v h = ap (λ t. x ∷ t) (take-set n i xs v (omega arith))

  pub take-set_next :
      (xs : List A) (n : ℕ) (v : A)
      → n < length xs
      → take (suc n) (set xs n v) ≡ take n xs ++ v ∷ []
  take-set_next [] n v h = absurd (omega arith)
  take-set_next (x ∷ xs) zero v h = refl
  take-set_next (x ∷ xs) (suc n) v h = ap (λ t. x ∷ t) (take-set_next xs n v (omega arith))
