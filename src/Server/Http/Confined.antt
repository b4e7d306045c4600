-- ===== src/Server/Http/Confined.antt =====
-- The files that `callback_http` of secure-rfid-login.c can reach.
use secure_rfid_login.Common.{
  ℕ, ◌≡◌, ◌≢◌, refl, ◌⊎◌, inl, inr, false, List, ◌++◌, ℤ, Bool-cases, codes, same_bytes,
  same_bytes→eq,
}
use secure_rfid_login.Server.{Connection}
use secure_rfid_login.Server.Http.{Files, whitelist, default_page, choose, send_leaf, serve}

-- Two systems of files that have the program's four files in common, and the writing to the page.
-- What else can be opened or served in them may differ.
pub record SharesServed {W : Type 0} (files other : Files W) (resource_path : List ℕ) : Type 0 where
  pub icon :
      files.serve_http_file (resource_path ++ codes "/favicon.ico") (codes "image/x-icon")
      ≡ other.serve_http_file (resource_path ++ codes "/favicon.ico") (codes "image/x-icon")
  pub logo :
      files.serve_http_file
        (resource_path ++ codes "/libwebsockets.org-logo.png")
        (codes "image/png")
      ≡ other.serve_http_file
          (resource_path ++ codes "/libwebsockets.org-logo.png")
          (codes "image/png")
  pub page :
      files.serve_http_file (resource_path ++ codes "/test.html") (codes "text/html")
      ≡ other.serve_http_file (resource_path ++ codes "/test.html") (codes "text/html")
  pub leaf :
      files.open_file (resource_path ++ codes "/leaf.jpg")
      ≡ other.open_file (resource_path ++ codes "/leaf.jpg")
  pub sizes : files.file_size ≡ other.file_size
  pub closes : files.close_file ≡ other.close_file
  pub writes : files.write_http ≡ other.write_http
  pub prints : files.print_size ≡ other.print_size

choose_cases :
    (uri : List ℕ)
    → (choose whitelist uri ≡ default_page)
      ⊎ ((uri ≡ codes "/favicon.ico")
          × (choose whitelist uri
              ≡ record { urlpath = codes "/favicon.ico"; mimetype = codes "image/x-icon" }))
      ⊎ ((uri ≡ codes "/libwebsockets.org-logo.png")
          × (choose whitelist uri ≡ record {
            urlpath = codes "/libwebsockets.org-logo.png";
            mimetype = codes "image/png";
          }))
unfolding choose
choose_cases uri = elim (Bool-cases (same_bytes uri (codes "/favicon.ico"))) [
  | inl icon ↦ inr (inl (same_bytes→eq uri (codes "/favicon.ico") icon, rw icon refl))
  | inr no_icon ↦ elim (Bool-cases (same_bytes uri (codes "/libwebsockets.org-logo.png"))) [
    | inl logo ↦ inr (
        inr (same_bytes→eq uri (codes "/libwebsockets.org-logo.png") logo, rw (no_icon, logo) refl))
    | inr no_logo ↦ inl (rw (no_icon, no_logo) refl)
  ]
]

choose_page :
    (uri : List ℕ)
    → uri ≢ codes "/favicon.ico"
    → uri ≢ codes "/libwebsockets.org-logo.png"
    → choose whitelist uri ≡ default_page
choose_page uri no_icon no_logo = elim (choose_cases uri) [
  | inl page ↦ page
  | inr (inl icon) ↦ absurd (no_icon icon.0)
  | inr (inr logo) ↦ absurd (no_logo logo.0)
]

different_bytes : (a b : List ℕ) → a ≢ b → same_bytes a b ≡ false
different_bytes a b h = elim (Bool-cases (same_bytes a b)) [
  | inl same ↦ absurd (h (same_bytes→eq a b same))
  | inr other ↦ other
]

module _ {W : Type 0} (wsi : Connection W) (files other : Files W) (resource_path : List ℕ) where
  send_leaf_same :
      (fd : ℤ) (w : W)
      → SharesServed files other resource_path
      → send_leaf wsi files resource_path fd w ≡ send_leaf wsi other resource_path fd w
  unfolding send_leaf
  send_leaf_same fd w s = rw (s.leaf, s.sizes, s.closes, s.writes, s.prints) refl

  served_same :
      (uri : List ℕ)
      → SharesServed files other resource_path
      → let entry = choose whitelist uri in
        files.serve_http_file (resource_path ++ entry.urlpath) entry.mimetype
        ≡ other.serve_http_file (resource_path ++ entry.urlpath) entry.mimetype
  served_same uri s = elim (choose_cases uri) [
    | inl page ↦ rw page s.page
    | inr (inl icon) ↦ rw icon.1 s.icon
    | inr (inr logo) ↦ rw logo.1 s.logo
  ]

  -- Whatever address is asked for, what is served does not depend on any file but favicon.ico,
  -- libwebsockets.org-logo.png, test.html and leaf.jpg of the resource path; and an address that is
  -- none of "/favicon.ico", "/libwebsockets.org-logo.png" and "/leaf.jpg" gets what "/test.html" gets.
  pub serve_same :
      (fd : ℤ) (uri : List ℕ) (w : W)
      → SharesServed files other resource_path
      → (serve wsi files resource_path fd uri w ≡ serve wsi other resource_path fd uri w)
        × (uri ≢ codes "/leaf.jpg"
            → uri ≢ codes "/favicon.ico"
            → uri ≢ codes "/libwebsockets.org-logo.png"
            → serve wsi files resource_path fd uri w
              ≡ serve wsi files resource_path fd (codes "/test.html") w)
  unfolding serve
  serve_same fd uri w s = (
    rw (served_same uri s, send_leaf_same fd w s) refl,
    λ no_leaf no_icon no_logo.
        rw (different_bytes uri (codes "/leaf.jpg") no_leaf, choose_page uri no_icon no_logo) refl,
  )
