-- ===== src/Board/Writing/Collect.antt =====
-- How argoRFID_Writer.ino collects a block: its loop on what has come in, against a description of
-- the bytes collected so far.
use secure_rfid_login.Common.{
  ℕ, suc, ◌+◌, ◌≤◌, ◌<◌, ◌≡◌, ◌≢◌, sym, ap, ap₂, ◌∙◌, inl, inr, List, [], ◌∷◌, ◌++◌, pos,
  Bool-cases, length, take, set, get_or, ◌==◌, length-set, take-set, take-set_next, get_or-set_self,
  ==→eq, arith,
}
use secure_rfid_login.Board.{Uno}
use secure_rfid_login.Board.Layout.{put}
use secure_rfid_login.Board.Writing.Arrays.{at, at_self, at_other}
use secure_rfid_login.Board.Writing.{Board, put_byte}

-- The bytes that have come in and were not read. The board's receive buffer holds `capacity` of
-- them; more may come in whenever the board waits.
pub record Queue {W : Type 0} (uno : Uno W) : Type 0 where
  pub pending : W → List ℕ
  pub capacity : ℕ
  pub bounded : (w : W) → length (pending w) ≤ capacity
  pub available-pending : (w : W) → uno.available w ≡ length (pending w)
  pub read_pending :
      (w : W) {b : ℕ} {rest : List ℕ}
      → pending w ≡ b ∷ rest
      → (b < 256) × ((uno.read w).0 ≡ pos b) × (pending (uno.read w).1 ≡ rest)

-- The blocks that are complete, by their numbers, and the bytes of the one that comes in.
pub record Holds (blocks : ℕ → List ℕ) (got : List ℕ) (s : Board) : Type 0 where
  pub block : s.num_of_block < 4
  pub byte : s.num_of_byte ≡ length got
  pub bound : length got ≤ 64
  pub size : (i : ℕ) → i < 4 → length (at s i) ≡ 65
  pub full : (i : ℕ) → i < s.num_of_block → take 64 (at s i) ≡ blocks i
  pub current : take s.num_of_byte (at s s.num_of_block) ≡ got

-- What the loop has made of `all`, the bytes collected before and those that came in: the block is
-- not whole yet; it is whole, and not the last or the last one; or its number is wrong, and the board
-- wants a new handshake. What comes in behind a whole block is dropped.
pub data Collects (blocks : ℕ → List ℕ) (all : List ℕ) (s s' : Board) : Type 0 where
  more :
      length all ≤ 64
      → Holds blocks all s'
      → s'.num_of_block ≡ s.num_of_block
      → s'.connection_done ≡ s.connection_done
      → s'.block_ready ≡ s.block_ready
      → Collects blocks all s s'
  whole :
      64 < length all
      → get_or all 64 0 ≡ s.num_of_block + 0x30
      → s.num_of_block ≢ 3
      → Holds (put s.num_of_block (take 64 all) blocks) [] s'
      → s'.num_of_block ≡ s.num_of_block + 1
      → s'.connection_done ≡ s.connection_done
      → s'.block_ready ≡ s.block_ready
      → Collects blocks all s s'
  complete :
      64 < length all
      → get_or all 64 0 ≡ 0x33
      → s.num_of_block ≡ 3
      → ((i : ℕ) → i < 4 → take 64 (at s' i) ≡ put 3 (take 64 all) blocks i)
      → Holds blocks [] s'
      → s'.num_of_block ≡ 0
      → s'.connection_done ≡ s.connection_done
      → s'.block_ready ≡ 1
      → Collects blocks all s s'
  refused :
      64 < length all
      → get_or all 64 0 ≢ s.num_of_block + 0x30
      → Holds blocks [] s'
      → s'.num_of_block ≡ s.num_of_block
      → s'.connection_done ≡ 0
      → s'.block_ready ≡ s.block_ready
      → Collects blocks all s s'

-- What the arrays hold with the next byte.
pub record Stored (blocks : ℕ → List ℕ) (got : List ℕ) (b : ℕ) (s s1 : Board) : Type 0 where
  pub size : (i : ℕ) → i < 4 → length (at s1 i) ≡ 65
  pub full : (i : ℕ) → i < s.num_of_block → take 64 (at s1 i) ≡ blocks i
  pub current : take (suc (length got)) (at s1 s.num_of_block) ≡ got ++ b ∷ []
  pub before : take (length got) (at s1 s.num_of_block) ≡ got
  pub last : get_or (at s1 s.num_of_block) (length got) 0 ≡ b

pub put_byte-Stored :
    (blocks : ℕ → List ℕ) (got : List ℕ) (b : ℕ) (s : Board)
    → Holds blocks got s
    → Stored blocks got b s (put_byte s s.num_of_block b)
put_byte-Stored blocks got b s h =
    let k = s.num_of_block in
    let room : length got < length (at s k) = omega (arith, h.size k h.block, h.bound) in
    let self : at (put_byte s k b) k ≡ set (at s k) (length got) b =
      at_self s k b h.block ∙ ap (λ n. set (at s k) n b) h.byte in
    let here : take (length got) (at s k) ≡ got =
      ap (λ n. take n (at s k)) (sym h.byte) ∙ h.current in
    record {
      size = λ i l. elim (Bool-cases (i == k)) [
        | inl e ↦
            let z = ==→eq i k e in
            ap (λ n. length (at (put_byte s k b) n)) z
            ∙ ap length self
            ∙ length-set (at s k) (length got) b
            ∙ h.size k h.block
        | inr e ↦ ap length (at_other s k b i (λ z. absurd (ground arith))) ∙ h.size i l
      ];
      full = λ i l. ap (take 64) (at_other s k b i (λ z. absurd (omega arith))) ∙ h.full i l;
      current =
          ap (take (suc (length got))) self
          ∙ take-set_next (at s k) (length got) b room
          ∙ ap (λ t. t ++ b ∷ []) here;
      before =
          ap (take (length got)) self
          ∙ take-set (length got) (length got) (at s k) b (omega arith)
          ∙ here;
      last =
          ap (λ t. get_or t (length got) 0) self ∙ get_or-set_self (at s k) (length got) b 0 room;
    }

-- The block that is whole now stands in its place.
pub placed :
    (blocks : ℕ → List ℕ) (got all : List ℕ) (b : ℕ) (s s1 : Board)
    → Stored blocks got b s s1
    → length got ≡ 64
    → take 64 all ≡ got
    → (i : ℕ) → i < s.num_of_block + 1
    → take 64 (at s1 i) ≡ put s.num_of_block (take 64 all) blocks i
placed blocks got all b s s1 p full e i l = elim (Bool-cases (i == s.num_of_block)) [
  | inl same ↦
      rw same
        (ap₂ (λ n j. take n (at s1 j)) (sym full) (==→eq i s.num_of_block same) ∙ p.before ∙ sym e)
  | inr other ↦ rw other (p.full i (ground arith))
]
