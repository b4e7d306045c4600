-- ===== src/Board/Writing/Arrays.antt =====
-- The four arrays of argoRFID_Writer.ino, by the number of the block.
use secure_rfid_login.Common.{
  ℕ, zero, suc, ◌<◌, ◌≡◌, ◌≢◌, refl, some, List, [], value_or, set, arith,
}
use secure_rfid_login.Board.Writing.{Board, array, put_byte}

abbrev pub at : Board → ℕ → List ℕ
at s i = value_or [] (array s i)

pub at_self : (s : Board) (k c : ℕ) → k < 4 → at (put_byte s k c) k ≡ set (at s k) s.num_of_byte c
at_self s zero c h = refl
at_self s (suc zero) c h = refl
at_self s (suc (suc zero)) c h = refl
at_self s (suc (suc (suc zero))) c h = refl
at_self s (suc (suc (suc (suc k)))) c h = absurd (omega arith)

pub at_other : (s : Board) (k c i : ℕ) → i ≢ k → at (put_byte s k c) i ≡ at s i
at_other s zero c zero h = absurd (h refl)
at_other s zero c (suc zero) h = refl
at_other s zero c (suc (suc zero)) h = refl
at_other s zero c (suc (suc (suc zero))) h = refl
at_other s zero c (suc (suc (suc (suc i)))) h = refl
at_other s (suc zero) c zero h = refl
at_other s (suc zero) c (suc zero) h = absurd (h refl)
at_other s (suc zero) c (suc (suc zero)) h = refl
at_other s (suc zero) c (suc (suc (suc zero))) h = refl
at_other s (suc zero) c (suc (suc (suc (suc i)))) h = refl
at_other s (suc (suc zero)) c zero h = refl
at_other s (suc (suc zero)) c (suc zero) h = refl
at_other s (suc (suc zero)) c (suc (suc zero)) h = absurd (h refl)
at_other s (suc (suc zero)) c (suc (suc (suc zero))) h = refl
at_other s (suc (suc zero)) c (suc (suc (suc (suc i)))) h = refl
at_other s (suc (suc (suc zero))) c zero h = refl
at_other s (suc (suc (suc zero))) c (suc zero) h = refl
at_other s (suc (suc (suc zero))) c (suc (suc zero)) h = refl
at_other s (suc (suc (suc zero))) c (suc (suc (suc zero))) h = absurd (h refl)
at_other s (suc (suc (suc zero))) c (suc (suc (suc (suc i)))) h = refl
at_other s (suc (suc (suc (suc k)))) c i h = refl

pub array-at : (s : Board) (k : ℕ) → k < 4 → array s k ≡ some (at s k)
array-at s zero h = refl
array-at s (suc zero) h = refl
array-at s (suc (suc zero)) h = refl
array-at s (suc (suc (suc zero))) h = refl
array-at s (suc (suc (suc (suc k)))) h = absurd (omega arith)

-- It changes nothing but one of the arrays.
pub put_byte_same :
    (s : Board) (k c : ℕ)
    → ((put_byte s k c).num_of_block ≡ s.num_of_block)
      × ((put_byte s k c).num_of_byte ≡ s.num_of_byte)
      × ((put_byte s k c).connection_done ≡ s.connection_done)
      × ((put_byte s k c).block_ready ≡ s.block_ready)
put_byte_same s zero c = (refl, refl, refl, refl)
put_byte_same s (suc zero) c = (refl, refl, refl, refl)
put_byte_same s (suc (suc zero)) c = (refl, refl, refl, refl)
put_byte_same s (suc (suc (suc zero))) c = (refl, refl, refl, refl)
put_byte_same s (suc (suc (suc (suc k)))) c = (refl, refl, refl, refl)
