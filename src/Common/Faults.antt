-- ===== src/Common/Faults.antt =====
-- The result of code that may run for ever or access memory out of bounds.
use mathlib.Core.Path.{◌≡◌, refl}
use mathlib.Core.Option.{Option, none, some}

-- How a piece of C code ends: the fuel of one of its loops was spent, it accessed memory out of
-- bounds, or it came back with a value.
pub data Run {ℓ} (A : Type ℓ) : Type ℓ where
  out_of_fuel fault : Run A
  ok : A → Run A

-- One piece of code after another.
infixl 5 ◌>>=◌
abbrev pub ◌>>=◌ {ℓ κ} : {X : Type ℓ} {Y : Type κ} (first : Run X) (next : X → Run Y) → Run Y
out_of_fuel >>= next = out_of_fuel
fault >>= next = fault
ok x >>= next = next x

pub >>=-eq-ok {ℓ κ} :
    {X : Type ℓ} {Y : Type κ} (first : Run X) (next : X → Run Y) {y : Y}
    → (first >>= next) ≡ ok y
    → (x : X) × (first ≡ ok x) × (next x ≡ ok y)
>>=-eq-ok out_of_fuel next h = cc
>>=-eq-ok fault next h = cc
>>=-eq-ok (ok x) next h = (x, refl, h)

module _ {ℓ} {X : Type ℓ} where
  -- A loop's result.
  abbrev pub finished : Option X → Run X
  finished (some x) = ok x
  finished none = out_of_fuel

  -- A string operation's result.
  abbrev pub in_bounds : Option X → Run X
  in_bounds (some x) = ok x
  in_bounds none = fault
