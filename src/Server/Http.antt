-- ===== src/Server/Http.antt =====
-- The serving of files by `callback_http` of secure-rfid-login.c. The files and the HTTP side of
-- libwebsockets stand here as an interface.
pub mod Sending
pub mod Confined
use secure_rfid_login.Common.{
  ℕ, zero, suc, ◌-◌, Bool, true, false, Option, none, some, List, [], ◌∷◌, ◌++◌, ℤ, pos, negsuc,
  minus_one, eq_ℤ, is_nonneg, if◌then◌else◌, ltb, not, length, same_bytes, codes, Run, ok, fault,
  finished, ◌>>=◌,
}
use secure_rfid_login.Server.{
  Connection, Reason, established, receive, server_writeable, protocol_destroy,
  filter_protocol_connection, filter_network_connection, http, http_writeable, http_file_completion,
  other,
}

-- `read` returns the number of bytes, which it stores; 0 at the end of the file, and -1 on an error.
-- `print_size` is `sprintf("%u")`.
pub record Files (W : Type 0) : Type 0 where
  pub open_file : List ℕ → W → ℤ × W
  pub file_size : ℤ → W → ℕ
  pub read : ℤ → ℕ → W → ℤ × List ℕ × W
  pub lseek : ℤ → ℤ → W → W
  pub close_file : ℤ → W → W
  pub write_http : List ℕ → W → ℤ × W
  pub serve_http_file : List ℕ → List ℕ → W → ℤ × W
  pub print_size : ℕ → List ℕ

-- `struct serveable`, the two entries that are searched, and the one that is served if neither
-- matches.
pub record Serveable : Type 0 where
  pub urlpath : List ℕ
  pub mimetype : List ℕ

abbrev pub whitelist : List Serveable
whitelist =
    record { urlpath = codes "/favicon.ico"; mimetype = codes "image/x-icon" }
    ∷ record { urlpath = codes "/libwebsockets.org-logo.png"; mimetype = codes "image/png" }
    ∷ []

abbrev pub default_page : Serveable
default_page = record { urlpath = codes "/test.html"; mimetype = codes "text/html" }

-- The loop over the whitelist.
pub choose : List Serveable → List ℕ → Serveable
choose [] uri = default_page
choose (e ∷ entries) uri = if same_bytes uri e.urlpath then e else choose entries uri

abbrev pub leaf_header : List ℕ → List ℕ
leaf_header size =
    (codes "HTTP/1.0 200 OK" ++ (13 ∷ 10 ∷ []))
    ++ ((codes "Server: libwebsockets" ++ (13 ∷ 10 ∷ []))
        ++ ((codes "Content-Type: image/jpeg" ++ (13 ∷ 10 ∷ []))
            ++ (codes "Content-Length: " ++ (size ++ (13 ∷ 10 ∷ 13 ∷ 10 ∷ [])))))

-- `m - n` of two sizes.
abbrev pub minus : ℕ → ℕ → ℤ
minus m n = if ltb m n then negsuc (n - m - 1) else pos (m - n)

-- A length that is not negative.
abbrev pub as_length : ℤ → ℕ
as_length (pos n) = n
as_length (negsuc n) = 0

module _ {W : Type 0} (wsi : Connection W) (files : Files W) where
  -- LWS_CALLBACK_HTTP_WRITEABLE.
  unfoldable pub send_file : ℕ → (fd : ℤ) → W → Option (ℤ × W)
  send_file zero fd w = none
  send_file (suc fuel) fd w =
      let (n, bytes, w1) = files.read fd 4096 w in
      let (m, w2) = files.write_http bytes w1 in
      let w3 = if eq_ℤ m n then w2 else files.lseek fd (minus (as_length m) (as_length n)) w2 in
      let rest = send_file fuel fd w3 in
      if not (is_nonneg n)
      then some (minus_one, files.close_file fd w1)
      else if eq_ℤ n (pos 0)
      then some (minus_one, files.close_file fd w1)
      else if not (is_nonneg m)
      then some (minus_one, files.close_file fd w2)
      else if wsi.send_pipe_choked w3
      then some (pos 0, wsi.callback_on_writable w3)
      else rest

module _ {W : Type 0} (wsi : Connection W) (files : Files W) (resource_path : List ℕ) where
  -- The example of a file that is sent by hand: the value, `pss->fd`, and the world.
  pub send_leaf : (fd : ℤ) → W → ℤ × ℤ × W
  send_leaf fd w =
      let (leaf, w1) = files.open_file (resource_path ++ codes "/leaf.jpg") w in
      let (n, w2) =
        files.write_http (leaf_header (files.print_size (files.file_size leaf w1))) w1 in
      if ltb 1014 (length resource_path)
      then (minus_one, fd, w)
      else if not (is_nonneg leaf)
      then (minus_one, leaf, w1)
      else if not (is_nonneg n)
      then (minus_one, leaf, files.close_file leaf w2)
      else (pos 0, leaf, wsi.callback_on_writable w2)

  -- LWS_CALLBACK_HTTP. A path that does not fit `buf[256]` is written past its end.
  pub serve : (fd : ℤ) → List ℕ → W → Run (ℤ × ℤ × W)
  unfolding send_leaf choose
  serve fd uri w =
      let entry = choose whitelist uri in
      let path = resource_path ++ entry.urlpath in
      let (n, w1) = files.serve_http_file path entry.mimetype w in
      if same_bytes uri (codes "/leaf.jpg")
      then ok (send_leaf fd w)
      else if not (ltb (length path) 256)
      then fault
      else ok (if eq_ℤ n (pos 0) then pos 0 else minus_one, fd, w1)

  -- The cases of `callback_http` but those of the poll array: the value, `pss->fd`, and the world.
  pub callback_http : ℕ → Reason → (fd : ℤ) → List ℕ → W → Run (ℤ × ℤ × W)
  unfolding serve send_file
  callback_http fuel http fd uri w = serve fd uri w
  callback_http fuel http_file_completion fd uri w = ok (minus_one, fd, w)
  callback_http fuel http_writeable fd uri w = do
    (value, w') ← finished (send_file wsi files fuel fd w)
    ok (value, fd, w')
  callback_http fuel filter_network_connection fd uri w = ok (pos 0, fd, w)
  callback_http fuel established fd uri w = ok (pos 0, fd, w)
  callback_http fuel receive fd uri w = ok (pos 0, fd, w)
  callback_http fuel server_writeable fd uri w = ok (pos 0, fd, w)
  callback_http fuel protocol_destroy fd uri w = ok (pos 0, fd, w)
  callback_http fuel filter_protocol_connection fd uri w = ok (pos 0, fd, w)
  callback_http fuel other fd uri w = ok (pos 0, fd, w)
