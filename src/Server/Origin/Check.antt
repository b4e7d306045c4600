-- ===== src/Server/Origin/Check.antt =====
-- What `reject_request` of secure-rfid-login.c makes of a browser's handshake.
use secure_rfid_login.Common.{
  ℕ, zero, suc, ◌+◌, ◌≤◌, ◌≡◌, refl, sym, ap, ◌∙◌, Bool, true, false, not, Option, none, some, List,
  [], ◌∷◌, ◌++◌, inl, inr, if◌then◌else◌, ◌==◌, Bool-cases, Run, ok, ◌>>=◌, length, c_str,
  same_bytes, codes, take, drop, arith,
}
use secure_rfid_login.Server.{Connection}
use secure_rfid_login.Server.Origin.{
  authorized_url, token_names, judge, reject_tokens, reject_request,
}

-- The number of the header Origin in libwebsockets.
abbrev pub origin : ℕ
origin = 7

module _ {W : Type 0} (wsi : Connection W) (w : W) where
  -- The headers that only a client receives, which have no name in the table, are absent.
  abbrev pub IsBrowser : Type 0
  IsBrowser = (n : ℕ) → 18 ≤ n → wsi.hdr_total_length n w ≡ 0

  -- The buffer behind header `n`, and behind a list of headers from `n` on.
  abbrev pub next : ℕ → List ℕ → List ℕ
  next n buf = if wsi.hdr_total_length n w == 0 then buf else wsi.hdr_copy n buf 256 w

  abbrev pub filled : ℕ → ℕ → List ℕ → List ℕ
  filled zero n buf = buf
  filled (suc k) n buf = filled k (n + 1) (next n buf)

  -- What header `n` does to the verdict.
  step :
      (name : Option (List ℕ)) (names : List (Option (List ℕ))) (n : ℕ) (buf : List ℕ)
      (reject reject' : Bool)
      → (if wsi.hdr_total_length n w == 0 then ok reject else judge name (next n buf) reject)
        ≡ ok reject'
      → reject_tokens wsi (name ∷ names) n buf reject w
        ≡ reject_tokens wsi names (n + 1) (next n buf) reject' w
  unfolding reject_tokens
  step name names n buf reject reject' e =
      ap (λ m. m >>= λ r. reject_tokens wsi names (n + 1) (next n buf) r w) e

  -- A list of headers from `n` on that are absent or have a name other than Origin.
  abbrev AreOthers : List (Option (List ℕ)) → ℕ → Type 0
  AreOthers [] n = Unit
  AreOthers (none ∷ names) n = (wsi.hdr_total_length n w ≡ 0) × AreOthers names (n + 1)
  AreOthers (some name ∷ names) n =
      (same_bytes (codes "Origin") name ≡ false) × AreOthers names (n + 1)

  keeps_verdict :
      (name : Option (List ℕ)) (names : List (Option (List ℕ))) (n : ℕ) (buf : List ℕ)
      (reject : Bool)
      → AreOthers (name ∷ names) n
      → (if wsi.hdr_total_length n w == 0 then ok reject else judge name buf reject) ≡ ok reject
  unfolding judge
  keeps_verdict none names n buf reject h = rw h.0
  keeps_verdict (some name) names n buf reject h = ground (arith, h.0)

  skip :
      (xs ys : List (Option (List ℕ))) (n : ℕ) (buf : List ℕ) (reject : Bool) {m : ℕ}
      → AreOthers xs n
      → m ≡ n + length xs
      → reject_tokens wsi (xs ++ ys) n buf reject w
        ≡ reject_tokens wsi ys m (filled (length xs) n buf) reject w
  skip [] ys n buf reject {m} h e =
      let same : m ≡ n = omega arith in ap (λ t. reject_tokens wsi ys t buf reject w) (sym same)
  skip (x ∷ xs) ys n buf reject h e =
      step x (xs ++ ys) n buf reject reject (keeps_verdict x xs n (next n buf) reject h)
      ∙ skip xs ys (n + 1) (next n buf) reject (later x xs h) (omega arith)
    where
      later :
          (x : Option (List ℕ)) (xs : List (Option (List ℕ)))
          → AreOthers (x ∷ xs) n
          → AreOthers xs (n + 1)
      later none xs h = h.1
      later (some name) xs h = h.1

  -- Behind Origin nothing changes the verdict.
  behind_origin :
      (buf : List ℕ) (reject : Bool)
      → IsBrowser
      → reject_tokens wsi (drop 8 token_names) 8 buf reject w ≡ ok reject
  unfolding reject_tokens
  behind_origin buf reject browser =
      skip (drop 8 token_names) [] 8 buf reject {m = 23}
        (refl, (refl, (refl, (refl, (refl, (refl, (refl, (refl, (refl, (refl, client)))))))))) refl
    where
      client : AreOthers (drop 18 token_names) 18
      client = (
        browser 18 (omega arith),
        (
          browser 19 (omega arith),
          (browser 20 (omega arith), (browser 21 (omega arith), (browser 22 (omega arith), tt))),
        ),
      )

  in_front_of_origin :
      (buf : List ℕ)
      → reject_request wsi buf w
        ≡ reject_tokens wsi (drop 7 token_names) origin (filled origin 0 buf) true w
  unfolding reject_request
  in_front_of_origin buf =
      skip (take 7 token_names) (drop 7 token_names) 0 buf true
        (refl, (refl, (refl, (refl, (refl, (refl, (refl, tt))))))) refl

  -- The verdict of the header Origin, when its copy is made into `buf`.
  abbrev pub verdict : List ℕ → Bool
  verdict buf =
      if wsi.hdr_total_length origin w == 0
      then true
      else not (same_bytes authorized_url (c_str (wsi.hdr_copy origin buf 256 w)))

  judge-origin :
      (buf : List ℕ)
      → (if wsi.hdr_total_length origin w == 0
          then ok true
          else judge (some (codes "Origin")) (next origin buf) true)
        ≡ ok (verdict buf)
  unfolding judge
  judge-origin buf = elim (Bool-cases (wsi.hdr_total_length origin w == 0)) [
    | inl e ↦ rw e refl
    | inr e ↦ rw e (flip (same_bytes authorized_url (c_str (wsi.hdr_copy origin buf 256 w))))
  ]
    where
      flip : (b : Bool) → ◌≡◌ {A = Run Bool} (ok (if b then false else true)) (ok (not b))
      flip true = refl
      flip false = refl

  -- For a browser's handshake the verdict is that of the header Origin alone, on what its copy leaves
  -- in the buffer that the headers before it have used.
  pub reject_request_lem :
      (buf : List ℕ) → IsBrowser → reject_request wsi buf w ≡ ok (verdict (filled origin 0 buf))
  reject_request_lem buf browser =
      in_front_of_origin buf
      ∙ step (some (codes "Origin")) (drop 8 token_names) origin (filled origin 0 buf) true
          (verdict (filled origin 0 buf)) (judge-origin (filled origin 0 buf))
      ∙ behind_origin _ (verdict (filled origin 0 buf)) browser
