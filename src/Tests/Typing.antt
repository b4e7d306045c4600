-- ===== src/Tests/Typing.antt =====
-- The typing of a password in ArgoRFID-Writer.c at a concrete input.
use secure_rfid_login.Common.{ℕ, ◌≡◌, refl, Option, some, List, [], ◌∷◌, zeros}
use secure_rfid_login.Writer.{secure_input}
use secure_rfid_login.Writer.Typing.{Holds, secure_input-typed}

-- a, b, backspace, c, Enter, and one key more.
abbrev keys : List (Option ℕ)
keys = some 97 ∷ some 98 ∷ some 8 ∷ some 99 ∷ some 13 ∷ some 100 ∷ []

secure_input-typed_example :
    (out : List ℕ) × (secure_input keys (zeros 64) 0 ≡ some (out, some 100 ∷ []))
    × Holds out (97 ∷ 99 ∷ [])
secure_input-typed_example = secure_input-typed keys (zeros 64) refl refl
