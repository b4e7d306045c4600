-- ===== src/Startup/Starts.antt =====
-- The program's starts, one after another.
use secure_rfid_login.Common.{
  ℕ, zero, suc, ◌+◌, ◌≡◌, refl, ltb, none, some, List, ◌++◌, codes, Run, ok, ◌>>=◌, if◌then◌else◌,
  length, length-append, arith,
}
use secure_rfid_login.Startup.{Registry, register_if_doesnt_exist}
use secure_rfid_login.Startup.Value.{line}
use secure_rfid_login.Startup.Again.{Works, register_if_doesnt_exist_lem}

length-line : (path : List ℕ) → length (line path) ≡ length path + 10
length-line path =
    omega (
      arith,
      length-append path (codes "\" "),
      length-append (path ++ codes "\" ") (codes "-foobar"),
    )

module _ {W : Type 0} (registry : Registry W) (name : List ℕ) (r : Works registry name) where
  -- `n` starts of the program, one after another.
  abbrev pub starts : ℕ → (path checked copied value : List ℕ) → W → Run W
  starts zero path checked copied value w = ok w
  starts (suc n) path checked copied value w =
      register_if_doesnt_exist registry path checked copied value name w >>= λ w'.
      starts n path checked copied value w'

  starts_stored :
      (n : ℕ) (path checked copied value : List ℕ) (w : W)
      → length checked ≡ 260
      → length copied ≡ 260
      → length value ≡ 520
      → r.value w ≡ some (line r.path)
      → (w' : W) × (starts n path checked copied value w ≡ ok w')
        × (r.warnings w' ≡ (if ltb (length r.path) 250 then r.warnings w else r.warnings w + n))
  starts_stored zero path checked copied value w h k l there = (w, refl, ground arith)
  starts_stored (suc n) path checked copied value w h k l there =
      let (w1, done, (new_value, new_warnings)) =
        register_if_doesnt_exist_lem registry name r path checked copied value w h k l in
      let (w2, rest, last) =
        starts_stored n path checked copied value w1 h k l (ground (arith, new_value, there)) in
      (w2, rw done rest, ground (arith, last, new_warnings, there, length-line r.path))

  -- Start a program that is not registered n + 1 times, on a registry that may be read and written. If
  -- its path has fewer than 250 characters, the user is warned at the first start only; if it has 250
  -- or more, at every start.
  pub starts_warnings :
      (n : ℕ) (path checked copied value : List ℕ) (w : W)
      → length checked ≡ 260
      → length copied ≡ 260
      → length value ≡ 520
      → r.value w ≡ none
      → (w' : W) × (starts (suc n) path checked copied value w ≡ ok w')
        × (r.warnings w' ≡ r.warnings w + (if ltb (length r.path) 250 then 1 else suc n))
  starts_warnings n path checked copied value w h k l missing =
      let (w1, done, (new_value, new_warnings)) =
        register_if_doesnt_exist_lem registry name r path checked copied value w h k l in
      let (w2, rest, last) =
        starts_stored n path checked copied value w1 h k l (ground (arith, new_value, missing)) in
      (w2, rw done rest, ground (arith, last, new_warnings, missing))
