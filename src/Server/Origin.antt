-- ===== src/Server/Origin.antt =====
-- `reject_request` of secure-rfid-login.c: which handshakes the credentials protocol turns down.
pub mod Check
pub mod Url
use secure_rfid_login.Common.{
  ℕ, suc, ◌+◌, ◌≤◌, ◌<◌, ◌≡◌, ◌≢◌, refl, sym, ap, ◌∙◌, Bool, true, false, not, Option, none, some,
  List, [], ◌∷◌, ◌++◌, if◌then◌else◌, ltb, ◌==◌, Run, ok, fault, ◌>>=◌, length, length-overwrite,
  overwrite, c_str, same_bytes, codes, HasNoNul, overwrite_str, arith,
}
use secure_rfid_login.Server.{Connection}

abbrev pub authorized_url : List ℕ
authorized_url = codes "https://www.portaleargo.it"

-- The table of names; libwebsockets numbers 23 headers, and C fills the rest of the table with NULL.
abbrev pub token_names : List (Option (List ℕ))
token_names =
    some (codes "GET URI")
    ∷ some (codes "Host")
    ∷ some (codes "Connection")
    ∷ some (codes "key 1")
    ∷ some (codes "key 2")
    ∷ some (codes "Protocol")
    ∷ some (codes "Upgrade")
    ∷ some (codes "Origin")
    ∷ some (codes "Draft")
    ∷ some (codes "Challenge")
    ∷ some (codes "Key")
    ∷ some (codes "Version")
    ∷ some (codes "Sworigin")
    ∷ some (codes "Extensions")
    ∷ some (codes "Accept")
    ∷ some (codes "Nonce")
    ∷ some (codes "Http")
    ∷ some (codes "MuxURL")
    ∷ none
    ∷ none
    ∷ none
    ∷ none
    ∷ none
    ∷ []

-- The two comparisons; `strcmp` on a NULL name is a fault.
pub judge : Option (List ℕ) → List ℕ → Bool → Run Bool
judge none buf reject = fault
judge (some name) buf reject = ok (
    if same_bytes (codes "Origin") name
    then (if same_bytes authorized_url (c_str buf) then false else reject)
    else reject)

module _ {W : Type 0} (wsi : Connection W) where
  -- The loop from header `n` on; `buf` is its buffer.
  pub reject_tokens : List (Option (List ℕ)) → ℕ → List ℕ → Bool → W → Run Bool
  unfolding judge
  reject_tokens [] n buf reject w = ok reject
  reject_tokens (name ∷ names) n buf reject w =
      let absent = wsi.hdr_total_length n w == 0 in
      let buf' = if absent then buf else wsi.hdr_copy n buf 256 w in
      (if absent then ok reject else judge name buf' reject) >>= λ reject'.
      reject_tokens names (n + 1) buf' reject' w

  -- `buf` is what the uninitialised buffer holds.
  unfoldable pub reject_request : (buf : List ℕ) → W → Run Bool
  unfolding reject_tokens
  reject_request buf w = reject_tokens token_names 0 buf true w
