-- ===== src/Server/Origin/Url.antt =====
-- Which pages `reject_request` of secure-rfid-login.c lets in, by the text of the header Origin.
use secure_rfid_login.Common.{
  ℕ, zero, suc, ◌+◌, ◌≤◌, ◌<◌, ◌≡◌, refl, ap, ◌∙◌, false, not, List, [], ◌∷◌, ◌++◌, inl, inr, ◌==◌,
  ne→==_false, Bool-cases, ok, length, length-overwrite, overwrite, c_str, same_bytes, HasNoNul,
  overwrite_str, arith,
}
use secure_rfid_login.Server.{Connection}
use secure_rfid_login.Server.Origin.{authorized_url, reject_request}
use secure_rfid_login.Server.Origin.Check.{
  origin, IsBrowser, next, filled, verdict, reject_request_lem,
}

-- What libwebsockets does with the headers of a handshake: `lws_hdr_copy` writes the header and a
-- terminator if they fit, and nothing if they do not.
pub record Handshake {W : Type 0} (wsi : Connection W) (w : W) : Type 0 where
  pub value : ℕ → List ℕ
  pub no_nul : (n : ℕ) → HasNoNul (value n)
  pub total : (n : ℕ) → wsi.hdr_total_length n w ≡ length (value n)
  pub copies :
      (n : ℕ) (buf : List ℕ)
      → length (value n) < 256
      → wsi.hdr_copy n buf 256 w ≡ overwrite buf (value n ++ 0 ∷ [])
  pub keeps : (n : ℕ) (buf : List ℕ) → 256 ≤ length (value n) → wsi.hdr_copy n buf 256 w ≡ buf

module _ {W : Type 0} (wsi : Connection W) (w : W) (hs : Handshake wsi w) where
  length-hdr_copy : (n : ℕ) (buf : List ℕ) → length (wsi.hdr_copy n buf 256 w) ≡ length buf
  length-hdr_copy n buf =
      ground (arith, hs.copies n buf, hs.keeps n buf, length-overwrite buf (hs.value n ++ 0 ∷ []))

  length-next : (n : ℕ) (buf : List ℕ) → length (next wsi w n buf) ≡ length buf
  length-next n buf = elim (Bool-cases (wsi.hdr_total_length n w == 0)) [
    | inl e ↦ rw e
    | inr e ↦ rw e (length-hdr_copy n buf)
  ]

  length-filled : (k n : ℕ) (buf : List ℕ) → length (filled wsi w k n buf) ≡ length buf
  length-filled zero n buf = refl
  length-filled (suc k) n buf = length-filled k (n + 1) (next wsi w n buf) ∙ length-next n buf

  -- A header that fits is in the buffer.
  c_str-hdr_copy :
      (n : ℕ) (buf : List ℕ)
      → length buf ≡ 256
      → length (hs.value n) < 256
      → c_str (wsi.hdr_copy n buf 256 w) ≡ hs.value n
  c_str-hdr_copy n buf h small =
      ap c_str (hs.copies n buf small)
      ∙ (overwrite_str buf (hs.value n) (hs.no_nul n) (omega arith)).1

  verdict_fits :
      (buf : List ℕ)
      → length buf ≡ 256
      → length (hs.value origin) < 256
      → verdict wsi w buf ≡ not (same_bytes authorized_url (hs.value origin))
  verdict_fits buf h small =
      elim (hs.value origin)
          as (λ v. hs.value origin ≡ v → verdict wsi w buf ≡ not (same_bytes authorized_url v)) [
            | [] ↦ λ e. rw (hs.total origin, e)
            | x ∷ xs ↦ λ e.
                let some_came : (wsi.hdr_total_length origin w == 0) ≡ false =
                  ne→==_false (wsi.hdr_total_length origin w) 0
                    (λ z. absurd (omega (arith, hs.total origin, ap length e))) in
                rw some_came (
                  ap (λ t. not (same_bytes authorized_url t))
                    (c_str-hdr_copy origin buf h small ∙ e))
          ]
        refl

  -- For a browser's handshake whose header Origin is absent or has fewer than 256 characters, the
  -- request is rejected exactly if the header is not the authorized page's, and the code comes back.
  pub reject_request-origin :
      (buf : List ℕ)
      → IsBrowser wsi w
      → length buf ≡ 256
      → length (hs.value origin) < 256
      → reject_request wsi buf w ≡ ok (not (same_bytes authorized_url (hs.value origin)))
  reject_request-origin buf browser h small =
      reject_request_lem wsi w buf browser
      ∙ ap ok (verdict_fits (filled wsi w origin 0 buf) (length-filled origin 0 buf ∙ h) small)

  verdict_long :
      (buf v : List ℕ)
      → c_str buf ≡ v
      → 256 ≤ length (hs.value origin)
      → verdict wsi w buf ≡ not (same_bytes authorized_url v)
  verdict_long buf v e large =
      let some_came : (wsi.hdr_total_length origin w == 0) ≡ false =
        ne→==_false (wsi.hdr_total_length origin w) 0
          (λ z. absurd (omega (arith, hs.total origin))) in
      rw (some_came, hs.keeps origin buf large) (ap (λ t. not (same_bytes authorized_url t)) e)

  c_str-next :
      (n : ℕ) (buf : List ℕ)
      → length buf ≡ 256
      → 0 < length (hs.value n)
      → length (hs.value n) < 256
      → c_str (next wsi w n buf) ≡ hs.value n
  c_str-next n buf h some_came small =
      let present : (wsi.hdr_total_length n w == 0) ≡ false =
        ne→==_false (wsi.hdr_total_length n w) 0 (λ z. absurd (omega (arith, hs.total n))) in
      rw present (c_str-hdr_copy n buf h small)

  -- A header Origin of 256 characters or more is not read: the verdict is then that of the header
  -- Upgrade, which was left in the buffer, if that is present and fits.
  pub reject_request-upgrade :
      (buf : List ℕ)
      → IsBrowser wsi w
      → length buf ≡ 256
      → 256 ≤ length (hs.value origin)
      → 0 < length (hs.value 6)
      → length (hs.value 6) < 256
      → reject_request wsi buf w ≡ ok (not (same_bytes authorized_url (hs.value 6)))
  reject_request-upgrade buf browser h large some_came small =
      reject_request_lem wsi w buf browser
      ∙ ap ok (
          verdict_long (filled wsi w origin 0 buf) (hs.value 6)
            (c_str-next 6 (filled wsi w 6 0 buf) (length-filled 6 0 buf ∙ h) some_came small) large)
