-- ===== src/Server/Dump.antt =====
-- `dump_handshake_info` of secure-rfid-login.c: the headers of a handshake, printed for the log.
use secure_rfid_login.Common.{
  ℕ, ◌+◌, ◌<◌, ◌≡◌, refl, ◌∙◌, Option, List, [], ◌∷◌, ◌++◌, if◌then◌else◌, ◌==◌, Bool-cases, inl,
  inr, Run, ok, ◌>>=◌, in_bounds, length, length-overwrite, overwrite, overwrite_str, strlen, c_str,
  arith,
}
use secure_rfid_login.Server.{Connection}
use secure_rfid_login.Server.Origin.{token_names}
use secure_rfid_login.Server.Origin.Url.{Handshake}

-- A printed line: the header's name in the table, and its text.
abbrev pub Line : Type 0
Line = Option (List ℕ) × List ℕ

module _ {W : Type 0} (wsi : Connection W) where
  -- The loop from the header `n` on, for the rest of the table.
  pub dump_tokens : (names : List (Option (List ℕ))) (n : ℕ) (buf : List ℕ) → W → Run (List Line)
  dump_tokens [] n buf w = ok []
  dump_tokens (name ∷ names) n buf w =
      let copied = wsi.hdr_copy n buf 256 w in
      let skip = dump_tokens names (n + 1) buf w in
      let rest = dump_tokens names (n + 1) copied w in
      if wsi.hdr_total_length n w == 0
      then skip
      else (do len ← in_bounds (strlen copied); lines ← rest; ok ((name, c_str copied) ∷ lines))

  pub dump_handshake_info : (buf : List ℕ) → W → Run (List Line)
  unfolding dump_tokens
  dump_handshake_info buf w = dump_tokens token_names 0 buf w

  module _ (w : W) (h : Handshake wsi w) where
    -- The headers that the handshake has, each with its whole text.
    abbrev pub headers_from : (names : List (Option (List ℕ))) (n : ℕ) → List Line
    headers_from [] n = []
    headers_from (name ∷ names) n =
        let rest = headers_from names (n + 1) in
        if length (h.value n) == 0 then rest else (name, h.value n) ∷ rest

    dump_tokens_lem :
        (names : List (Option (List ℕ))) (n : ℕ) (buf : List ℕ)
        → length buf ≡ 256
        → ((m : ℕ) → length (h.value m) < 256)
        → dump_tokens names n buf w ≡ ok (headers_from names n)
    unfolding dump_tokens
    dump_tokens_lem [] n buf size short = refl
    dump_tokens_lem (name ∷ names) n buf size short =
        let text = h.value n in
        let copied = overwrite_str buf text (h.no_nul n) (omega (arith, short n, size)) in
        elim (Bool-cases (length text == 0)) [
          | inl absent ↦ rw (h.total n, absent) (dump_tokens_lem names (n + 1) buf size short)
          | inr there ↦
              rw
                (
                  h.total n,
                  there,
                  h.copies n buf (short n),
                  copied.0,
                  copied.1,
                  dump_tokens_lem names (n + 1) (overwrite buf (text ++ 0 ∷ []))
                      (length-overwrite buf (text ++ 0 ∷ []) ∙ size) short,
                )
                refl
        ]

    -- If no header has 256 characters or more, exactly the headers of the handshake are printed, in
    -- the table's order, each with its name and its whole text.
    pub dump_handshake_info_lem :
        (buf : List ℕ)
        → length buf ≡ 256
        → ((m : ℕ) → length (h.value m) < 256)
        → dump_handshake_info buf w ≡ ok (headers_from token_names 0)
    unfolding dump_handshake_info
    dump_handshake_info_lem buf size short = dump_tokens_lem token_names 0 buf size short
