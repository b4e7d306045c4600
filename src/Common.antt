-- ===== src/Common.antt =====
-- Names that every other module shares: the libraries' names, Boolean tests on numbers, lists with
-- native indices, C buffers and strings, and integers.
mod Tests
mod Lists
mod Int
mod Buffers
mod Text
mod Strings
mod Faults
pub use Tests.*
pub use Buffers.*
pub use Faults.*
pub use Strings.*
pub use Text.*
pub use Prim.Native.String.{String}
pub use Int.*
pub use Lists.*
pub use Prim.Native.Nat.{ℕ, zero, suc, ◌+◌, ◌-◌, ◌*◌, ◌/◌, ◌%◌, ◌^◌, ◌≤◌, ◌<◌, min}
pub use mathlib.Core.Path.{◌≡◌, refl, sym, ap, ap₂, subst, ◌∙◌, ◌≡⟨◌⟩◌, ◌∎}
pub use mathlib.Core.Logic.{◌≢◌, ◌↔◌, ◌⊎◌, inl, inr}
pub use mathlib.Core.Bool.{Bool, true, false, not, ◌&&◌, ◌||◌}
pub use mathlib.Core.Option.{Option, none, some}
pub use mathlib.Core.List.{List, [], ◌∷◌, ◌++◌, map, append-nil, append_assoc}
pub use native.Mathlib.Omega.{arith}
