-- ===== src/Threads/Parts.antt =====
-- Texts of which a thread has seen a part: the first characters of a card's user name or password.
use secure_rfid_login.Common.{
  ℕ, zero, suc, ◌≡◌, refl, sym, ap, subst, ◌∙◌, List, [], ◌∷◌, ◌++◌, take, take-nil, take_all, ◌≤◌,
  length, strlen, strlen-eq-length, strlen-lt-length, some, drop, zeros, overwrite, c_str,
  c_str-HasNoNul, HasNoNul, arith,
}
use mathlib.Core.List.{Memᴰ}
use secure_rfid_login.Threads.{Card, stored}

-- Nothing, or the first characters of the text of an accepted card.
pub data IsPart (text_of : Card → List ℕ) (cards : List Card) (text : List ℕ) : Type 0 where
  blank : text ≡ [] → IsPart text_of cards text
  part : (c : Card) (k : ℕ) → Memᴰ c cards → text ≡ take k (text_of c) → IsPart text_of cards text

-- One more accepted card.
pub IsPart-cons :
    {text_of : Card → List ℕ} {cards : List Card} {text : List ℕ} (c : Card)
    → IsPart text_of cards text
    → IsPart text_of (c ∷ cards) text
IsPart-cons c (blank e) = blank e
IsPart-cons c (part d k m e) = part d k (Memᴰ.tail m) e

-- The lesser of two numbers, by clauses that compute.
abbrev lesser : ℕ → ℕ → ℕ
lesser zero n = zero
lesser (suc m) zero = zero
lesser (suc m) (suc n) = suc (lesser m n)

take-take : (m n : ℕ) (xs : List ℕ) → take m (take n xs) ≡ take (lesser m n) xs
take-take zero n xs = refl
take-take (suc m) zero xs = refl
take-take (suc m) (suc n) [] = refl
take-take (suc m) (suc n) (x ∷ xs) = ap (λ t. x ∷ t) (take-take m n xs)

-- A part of a part.
pub IsPart-take :
    {text_of : Card → List ℕ} {cards : List Card} {text : List ℕ} (n : ℕ)
    → IsPart text_of cards text
    → IsPart text_of cards (take n text)
IsPart-take n (blank e) = blank (ap (take n) e ∙ take-nil n)
IsPart-take {text_of} n (part c k m e) =
    part c (lesser n k) m (ap (take n) e ∙ take-take n k (text_of c))

stored_in :
    (size n : ℕ) (text : List ℕ)
    → HasNoNul text
    → c_str (overwrite (zeros size) (take n (overwrite (zeros size) (text ++ 0 ∷ []))))
      ≡ take (lesser n size) text
stored_in zero zero text h = refl
stored_in zero (suc n) text h = refl
stored_in (suc size) zero text h = refl
stored_in (suc size) (suc n) [] h = refl
stored_in (suc size) (suc n) (c ∷ text) h = ground (arith, stored_in size n text h.1, h.0)

-- What the server makes of a copy is a part of it.
pub stored-IsPart :
    {text_of : Card → List ℕ} {cards : List Card} (n : ℕ) (buff : List ℕ)
    → IsPart text_of cards (c_str buff)
    → IsPart text_of cards (stored n (c_str buff))
stored-IsPart {text_of} {cards} n buff h =
    subst (IsPart text_of cards) (sym (stored_in 64 n (c_str buff) (c_str-HasNoNul buff)))
      (IsPart-take (lesser n 64) h)

-- The buffer while a text is being written over a blank one.
pub c_str-written :
    (k : ℕ) (plain rest : List ℕ)
    → c_str rest ≡ []
    → c_str (take k plain ++ rest) ≡ take k (c_str plain)
c_str-written zero plain rest h = h
c_str-written (suc k) [] rest h = h
c_str-written (suc k) (c ∷ plain) rest h = ground (arith, c_str-written k plain rest h)

pub c_str-zeros : (k n : ℕ) → c_str (drop k (zeros n)) ≡ []
c_str-zeros zero zero = refl
c_str-zeros zero (suc n) = refl
c_str-zeros (suc k) zero = refl
c_str-zeros (suc k) (suc n) = c_str-zeros k n

le_lesser : (k m n : ℕ) → k ≤ m → k ≤ n → k ≤ lesser m n
le_lesser k zero n h l = h
le_lesser k (suc m) zero h l = l
le_lesser zero (suc m) (suc n) h l = omega arith
le_lesser (suc k) (suc m) (suc n) h l = omega (arith, le_lesser k m n (omega arith) (omega arith))

-- A text that is measured and copied with no change in between arrives whole.
pub stored_whole :
    (buff : List ℕ) {n : ℕ}
    → length buff ≡ 64
    → strlen buff ≡ some n
    → stored n (c_str buff) ≡ c_str buff
stored_whole buff {n} size e =
    let measured = strlen-eq-length buff e in
    let short = strlen-lt-length buff e in
    stored_in 64 n (c_str buff) (c_str-HasNoNul buff)
    ∙ take_all (c_str buff) (le_lesser (length (c_str buff)) n 64 (omega arith) (omega arith))
