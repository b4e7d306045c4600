-- ===== src/Board/Mifare/Writes.antt =====
-- What `write_blocks` of MifareRFID.cpp changes on a card.
use secure_rfid_login.Common.{
  ℕ, ◌+◌, ◌/◌, ◌%◌, ◌≤◌, ◌<◌, ◌≡◌, ◌≢◌, refl, sym, ap, ap₂, ◌∙◌, Bool, true, false, not, ◌&&◌,
  Option, none, some, List, [], ◌∷◌, ◌++◌, ◌==◌, ltb, leb, ==→eq, length, take, drop, slice,
  length-take, length-drop, drop-drop, take-split, append-nil, arith,
}
use secure_rfid_login.Board.{
  Uno, Mfrc522, Field, block_name, block_cogn, block_user, block_pass, auth_trailer, error_dump,
  error_auth, error_write, b_key,
}
use secure_rfid_login.Board.Writing.{write_fields}
use secure_rfid_login.Board.Layout.{Store, Stores, Accepts, put, elem, layout, gather, field}
use secure_rfid_login.Board.Mifare.{
  Statement, auth, transfer, write_steps, write_step, run_writes, write_blocks, written_text,
}

abbrev pub is_open : Option ℕ → (block : ℕ) → Bool
is_open none b = false
is_open (some s) b = s == b / 4

-- Every transfer goes to a block of the sector that is open then, and not to its trailer.
abbrev is_allowed : Option ℕ → List Statement → Bool
is_allowed sector [] = true
is_allowed sector (auth t ∷ steps) = is_allowed (some (t / 4)) steps
is_allowed sector (transfer b o ∷ steps) =
    is_open sector b
    && (ltb b 64 && (not (b % 4 == 3) && (leb (o + 16) 64 && is_allowed sector steps)))

abbrev pub last_sector : Option ℕ → List Statement → Option ℕ
last_sector sector [] = sector
last_sector sector (auth t ∷ steps) = last_sector (some (t / 4)) steps
last_sector sector (transfer b o ∷ steps) = last_sector sector steps

-- The card after the transfers.
abbrev written : (buff : List ℕ) → List Statement → Store → Store
written buff [] m = m
written buff (auth t ∷ steps) m = written buff steps m
written buff (transfer b o ∷ steps) m = written buff steps (put b (slice o 16 buff) m)

pub is_open→eq : (sector : Option ℕ) (b : ℕ) → is_open sector b ≡ true → sector ≡ some (b / 4)
is_open→eq none b h = cc
is_open→eq (some s) b h = ap some (==→eq s (b / 4) h)

allowed :
    (sector : Option ℕ) (b o : ℕ) (steps : List Statement)
    → is_allowed sector (transfer b o ∷ steps) ≡ true
    → (sector ≡ some (b / 4))
      × (b < 64)
      × (b % 4 ≢ 3)
      × (o + 16 ≤ 64)
      × (is_allowed sector steps ≡ true)
allowed sector b o steps h = ground (arith, is_open→eq sector b)

four_slices :
    (buff : List ℕ)
    → slice 0 16 buff ++ (slice 16 16 buff ++ (slice 32 16 buff ++ (slice 48 16 buff ++ [])))
      ≡ take 64 buff
four_slices buff =
    ap (λ t. slice 0 16 buff ++ t)
      (ap (λ t. slice 16 16 buff ++ t)
          (ap (λ t. slice 32 16 buff ++ t) (append-nil (slice 48 16 buff)) ∙ both 32 16 16)
        ∙ both 16 16 32)
    ∙ both 0 16 48
  where
    both : (o m n : ℕ) → slice o m buff ++ slice (o + m) n buff ≡ slice o (m + n) buff
    both o m n =
        ap (λ t. slice o m buff ++ take n t) (sym (drop-drop m o buff refl))
        ∙ take-split m n (drop o buff) refl

-- A block that no transfer names keeps its bytes.
written_other :
    (buff : List ℕ) (f : Field) (m : Store) (i : ℕ)
    → elem i (layout f) ≡ false
    → written buff (write_steps f) m i ≡ m i
unfolding write_steps
written_other buff block_name m i h = ground arith
written_other buff block_cogn m i h = ground arith
written_other buff block_user m i h = ground arith
written_other buff block_pass m i h = ground arith

written_field :
    (buff : List ℕ) (f : Field) (m : Store)
    → field f (written buff (write_steps f) m) ≡ take 64 buff
unfolding write_steps
written_field buff block_name m = four_slices buff
written_field buff block_cogn m = four_slices buff
written_field buff block_user m = four_slices buff
written_field buff block_pass m = four_slices buff

abbrev disjoint : List ℕ → List ℕ → Bool
disjoint [] avoid = true
disjoint (b ∷ blocks) avoid = not (elem b avoid) && disjoint blocks avoid

gather_other :
    (blocks avoid : List ℕ) (m m' : Store)
    → ((i : ℕ) → elem i avoid ≡ false → m' i ≡ m i)
    → disjoint blocks avoid ≡ true
    → gather blocks m' ≡ gather blocks m
gather_other [] avoid m m' same h = refl
gather_other (b ∷ blocks) avoid m m' same h =
    ap₂ ◌++◌ (same b (ground arith)) (gather_other blocks avoid m m' same (ground arith))

module _ {W : Type 0} (uno : Uno W) (mfrc522 : Mfrc522 W) where
  pub good_lem :
      (code res : ℕ) (w : W)
      → res ≡ mfrc522.status_ok
      → ◌≡◌ {A = ℕ × W} (error_dump uno mfrc522 code res w) (0, w)
  unfolding error_dump
  good_lem code res w e = ground arith

module _ {W : Type 0} (uno : Uno W) (mfrc522 : Mfrc522 W) (key : List ℕ)
    (card : Stores uno mfrc522 key) (accepts : Accepts uno mfrc522 key card) where
  run_writes_lem :
      (buff ending : List ℕ) (steps : List Statement) (w : W)
      → 64 ≤ length buff
      → is_allowed (accepts.sector w) steps ≡ true
      → let w' = run_writes uno mfrc522 key buff ending steps w in
        (card.store w' ≡ written buff steps (card.store w))
        × (accepts.sector w' ≡ last_sector (accepts.sector w) steps)
  unfolding run_writes write_step auth_trailer
  run_writes_lem buff ending [] w h f = (card.print_store ending w, accepts.print_sector ending w)
  run_writes_lem buff ending (auth t ∷ steps) w h f =
      let r = mfrc522.authenticate t key w in
      let a = accepts.auth_ok t w in
      let ih = run_writes_lem buff ending steps r.1 h (ap (λ s. is_allowed s steps) a.1 ∙ f) in
      rw (good_lem uno mfrc522 error_auth r.0 r.1 a.0) (
        ih.0 ∙ ap (written buff steps) (card.auth_store t w),
        ih.1 ∙ ap (λ s. last_sector s steps) a.1,
      )
  run_writes_lem buff ending (transfer b o ∷ steps) w h f =
      let bytes = slice o 16 buff in
      let r = mfrc522.mifare_write b bytes w in
      let p = allowed (accepts.sector w) b o steps f in
      let size : length bytes ≡ 16 =
        omega (arith, p.3, length-take 16 (drop o buff), length-drop o buff) in
      let a = accepts.write_ok b bytes w p.0 p.1 p.2 size in
      let ih = run_writes_lem buff ending steps r.1 h (ap (λ s. is_allowed s steps) a.1 ∙ p.4) in
      rw (good_lem uno mfrc522 error_write r.0 r.1 a.0)
        (ih.0 ∙ ap (written buff steps) a.2, ih.1 ∙ ap (λ s. last_sector s steps) a.1)

  -- One call, where the open sector is right for its first transfer.
  write_blocks_lem :
      (f : Field) (buff : List ℕ) (w : W)
      → 64 ≤ length buff
      → is_allowed (accepts.sector w) (write_steps f) ≡ true
      → let w' = write_blocks uno mfrc522 key f buff w in
        (field f (card.store w') ≡ take 64 buff)
        × ((i : ℕ) → elem i (layout f) ≡ false → card.store w' i ≡ card.store w i)
        × (accepts.sector w' ≡ last_sector (accepts.sector w) (write_steps f))
  unfolding write_blocks
  write_blocks_lem f buff w h ok =
      let r = run_writes_lem buff (written_text f) (write_steps f) w h ok in
      (
        ap (field f) r.0 ∙ written_field buff f (card.store w),
        λ i e. ap (λ m. m i) r.0 ∙ written_other buff f (card.store w) i e,
        r.1,
      )

module _ {W : Type 0} (uno : Uno W) (mfrc522 : Mfrc522 W) (card : Stores uno mfrc522 b_key)
    (accepts : Accepts uno mfrc522 b_key card) (n c u p : List ℕ) (hn : 64 ≤ length n)
    (hc : 64 ≤ length c) (hu : 64 ≤ length u) (hp : 64 ≤ length p) where
  -- The four calls of the writer's sketch: the four fields stand on the card, and no other block
  -- has changed, no trailer among them.
  pub write_fields_lem :
      (w : W)
      → (field block_name (card.store (write_fields uno mfrc522 n c u p w)) ≡ take 64 n)
        × (field block_cogn (card.store (write_fields uno mfrc522 n c u p w)) ≡ take 64 c)
        × (field block_user (card.store (write_fields uno mfrc522 n c u p w)) ≡ take 64 u)
        × (field block_pass (card.store (write_fields uno mfrc522 n c u p w)) ≡ take 64 p)
        × ((i : ℕ)
            → elem i (layout block_name) ≡ false
            → elem i (layout block_cogn) ≡ false
            → elem i (layout block_user) ≡ false
            → elem i (layout block_pass) ≡ false
            → card.store (write_fields uno mfrc522 n c u p w) i ≡ card.store w i)
  unfolding write_steps write_fields
  write_fields_lem w =
      let w1 = write_blocks uno mfrc522 b_key block_name n w in
      let w2 = write_blocks uno mfrc522 b_key block_cogn c w1 in
      let w3 = write_blocks uno mfrc522 b_key block_user u w2 in
      let w4 = write_blocks uno mfrc522 b_key block_pass p w3 in
      let r1 = write_blocks_lem uno mfrc522 b_key card accepts block_name n w hn refl in
      let r2 = write_blocks_lem uno mfrc522 b_key card accepts block_cogn c w1 hc (rw r1.2 refl) in
      let r3 = write_blocks_lem uno mfrc522 b_key card accepts block_user u w2 hu (rw r2.2 refl) in
      let r4 = write_blocks_lem uno mfrc522 b_key card accepts block_pass p w3 hp refl in
      let keep_2 = λ (f : Field).
        gather_other (layout f) (layout block_cogn) (card.store w1) (card.store w2) r2.1 in
      let keep_3 = λ (f : Field).
        gather_other (layout f) (layout block_user) (card.store w2) (card.store w3) r3.1 in
      let keep_4 = λ (f : Field).
        gather_other (layout f) (layout block_pass) (card.store w3) (card.store w4) r4.1 in
      (
        keep_4 block_name refl ∙ keep_3 block_name refl ∙ keep_2 block_name refl ∙ r1.0,
        keep_4 block_cogn refl ∙ keep_3 block_cogn refl ∙ r2.0,
        keep_4 block_user refl ∙ r3.0,
        r4.0,
        λ i a b d e. r4.1 i e ∙ r3.1 i d ∙ r2.1 i b ∙ r1.1 i a,
      )
