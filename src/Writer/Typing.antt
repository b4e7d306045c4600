-- ===== src/Writer/Typing.antt =====
-- `secure_input` of ArgoRFID-Writer.c against a text that is edited at its end.
use secure_rfid_login.Common.{
  ℕ, zero, suc, ◌+◌, ◌-◌, ◌≤◌, ◌<◌, ◌≡◌, refl, sym, ap, ◌∙◌, not, ◌&&◌, ◌||◌, Option, none, some,
  List, [], ◌∷◌, ◌++◌, if◌then◌else◌, ltb, ◌==◌, Bool-cases, inl, inr, length, length-append,
  length-take, length-set, take, set, get_or, get_or-set_self, arith, some_inj, subst,
}
use secure_rfid_login.Writer.{secure_input}

-- The text that the keys leave: backspace takes off the last character if there is one, Enter and EOF
-- end it, and so does any key after 63 characters.
abbrev pub typed : List (Option ℕ) → List ℕ → Option (List ℕ × List (Option ℕ))
typed [] text = none
typed (none ∷ keys) text = some (text, keys)
typed (some c ∷ keys) text =
    if (c == 10) || ((c == 13) || not (ltb (length text) 63))
    then some (text, keys)
    else typed keys
        (if (c == 8) && ltb 0 (length text) then take (length text - 1) text else text ++ (c ∷ []))

-- The buffer holds the text and its terminator.
pub record Holds (buff text : List ℕ) : Type 0 where
  pub size : length buff ≡ 64
  pub short : length text < 64
  pub characters : take (length text) buff ≡ text
  pub terminated : get_or buff (length text) 1 ≡ 0

take-set : (xs : List ℕ) (i v : ℕ) → take i (set xs i v) ≡ take i xs
take-set [] zero v = refl
take-set [] (suc i) v = refl
take-set (x ∷ xs) zero v = refl
take-set (x ∷ xs) (suc i) v = ap (λ t. x ∷ t) (take-set xs i v)

take_suc-set :
    (xs : List ℕ) (i v : ℕ) {k : ℕ}
    → i < length xs
    → k ≡ i + 1
    → take k (set xs i v) ≡ take i xs ++ (v ∷ [])
take_suc-set [] i v h e = absurd (omega arith)
take_suc-set (x ∷ xs) i v {k = zero} h e = absurd (omega arith)
take_suc-set (x ∷ xs) zero v {k = suc k} h e = let z : k ≡ 0 = omega arith in rw z
take_suc-set (x ∷ xs) (suc i) v {k = suc k} h e =
    ap (λ t. x ∷ t) (take_suc-set xs i v (omega arith) (omega arith))

take-take : (xs : List ℕ) (m n : ℕ) → m ≤ n → take m (take n xs) ≡ take m xs
take-take xs zero n h = refl
take-take xs (suc m) zero h = absurd (omega arith)
take-take [] (suc m) (suc n) h = refl
take-take (x ∷ xs) (suc m) (suc n) h = ap (λ t. x ∷ t) (take-take xs m n (omega arith))

finish :
    (buff text : List ℕ)
    → length buff ≡ 64
    → length text < 64
    → take (length text) buff ≡ text
    → Holds (set buff (length text) 0) text
finish buff text size short same = record {
  size = length-set buff (length text) 0 ∙ size;
  short = short;
  characters = take-set buff (length text) 0 ∙ same;
  terminated = get_or-set_self buff (length text) 0 1 (omega arith);
}

one_less :
    (buff text : List ℕ) {i : ℕ}
    → i ≡ length text
    → take (length text) buff ≡ text
    → take (length (take (length text - 1) text)) (set buff (i - 1) 0) ≡ take (length text - 1) text
one_less buff text {i} at same =
    let less : length (take (length text - 1) text) ≡ length text - 1 =
      omega (arith, length-take (length text - 1) text) in
    ap (λ k. take k (set buff (i - 1) 0)) less
    ∙ ap (λ k. take (length text - 1) (set buff k 0)) (ap (λ k. k - 1) at)
    ∙ take-set buff (length text - 1) 0
    ∙ sym (take-take buff (length text - 1) (length text) (omega arith))
    ∙ ap (take (length text - 1)) same

secure_input_from :
    (keys : List (Option ℕ)) (buff text : List ℕ) {i : ℕ} {result : List ℕ} {rest : List (Option ℕ)}
    → i ≡ length text
    → length buff ≡ 64
    → length text < 64
    → take (length text) buff ≡ text
    → typed keys text ≡ some (result, rest)
    → (out : List ℕ) × (secure_input keys buff i ≡ some (out, rest)) × Holds out result
unfolding secure_input
secure_input_from [] buff text at size short same e = cc
secure_input_from (none ∷ keys) buff text {i} {result} {rest} at size short same e =
    let both : ◌≡◌ {A = List ℕ × List (Option ℕ)} (text, keys) (result, rest) = some_inj _ _ e in
    (
      set buff i 0,
      ap (λ t. some (set buff i 0, t.1)) both,
      subst (λ t. Holds (set buff i 0) t.0) both
          (subst (λ k. Holds (set buff k 0) text) (sym at) (finish buff text size short same)),
    )
secure_input_from (some c ∷ keys) buff text {i} {result} {rest} at size short same e =
    let stops : ((c == 10) || ((c == 13) || not (ltb i 63)))
        ≡ ((c == 10) || ((c == 13) || not (ltb (length text) 63))) =
      ap (λ k. (c == 10) || ((c == 13) || not (ltb k 63))) at in
    let goes_back : ((c == 8) && ltb 0 i) ≡ ((c == 8) && ltb 0 (length text)) =
      ap (λ k. (c == 8) && ltb 0 k) at in
    elim (Bool-cases ((c == 10) || ((c == 13) || not (ltb (length text) 63)))) [
      | inl stop ↦
          let both : ◌≡◌ {A = List ℕ × List (Option ℕ)} (text, keys) (result, rest) =
            some_inj _ _ (rw stop at e) in
          (
            set buff i 0,
            rw (stops ∙ stop) (ap (λ t. some (set buff i 0, t.1)) both),
            subst (λ t. Holds (set buff i 0) t.0) both
                (subst (λ k. Holds (set buff k 0) text) (sym at)
                  (finish buff text size short same)),
          )
      | inr on ↦ elim (Bool-cases ((c == 8) && ltb 0 (length text))) [
        | inl back ↦
            let less : length (take (length text - 1) text) ≡ length text - 1 =
              omega (arith, length-take (length text - 1) text) in
            let r =
              secure_input_from keys (set buff (i - 1) 0) (take (length text - 1) text) {i = i - 1}
                (omega (arith, less, at)) (length-set buff (i - 1) 0 ∙ size) (omega (arith, less))
                (one_less buff text at same) (rw (on, back) at e) in
            (r.0, rw (stops ∙ on, goes_back ∙ back) r.1, r.2)
        | inr key ↦
            let more : length (text ++ (c ∷ [])) ≡ length text + 1 = length-append text (c ∷ []) in
            let r =
              secure_input_from keys (set buff i c) (text ++ (c ∷ [])) {i = i + 1}
                (omega (arith, more, at)) (length-set buff i c ∙ size) (ground (arith, more, on))
                (ap (λ k. take (length (text ++ (c ∷ []))) (set buff k c)) at
                  ∙ take_suc-set buff (length text) c (omega arith) more
                  ∙ ap (λ t. t ++ (c ∷ [])) same)
                (rw (on, key) at e) in
            (r.0, rw (stops ∙ on, goes_back ∙ key) r.1, r.2)
      ]
    ]

-- If the keys end the input, `secure_input` on a buffer of 64 bytes comes back with the text that the
-- keys leave when they are read as an editor does: it has at most 63 characters, it is followed by its
-- terminator, and the same keys are left unread.
pub secure_input-typed :
    (keys : List (Option ℕ)) (buff : List ℕ) {text : List ℕ} {rest : List (Option ℕ)}
    → length buff ≡ 64
    → typed keys [] ≡ some (text, rest)
    → (out : List ℕ) × (secure_input keys buff 0 ≡ some (out, rest)) × Holds out text
secure_input-typed keys buff size e = secure_input_from keys buff [] refl size (omega arith) refl e
