-- ===== src/Device/Frame.antt =====
-- The message that the Arduino board sends and `wait_message` of ArduinoRFID.c checks: four blocks
-- of 64 bytes, each with the acknowledgement byte of its number.
use secure_rfid_login.Common.{
  ℕ, ◌+◌, ◌-◌, ◌≡◌, refl, sym, ap, ◌∙◌, true, ◌&&◌, List, [], ◌∷◌, ◌++◌, ◌==◌, length, take, drop,
  slice, get_or, length-append, take-append, drop-append, drop-drop, get_or-take, get_or-drop,
  get_or-append, arith,
}
use secure_rfid_login.Device.{check_message, check_blocks}

-- The size of a message.
abbrev pub message_size : ℕ
message_size = 260

abbrev pub frame : (name surname username password : List ℕ) → List ℕ
frame n s u p = n ++ (0x30 ∷ s ++ (0x31 ∷ u ++ (0x32 ∷ p ++ 0x33 ∷ [])))

-- The tests look at four bytes of the buffer.
pub check_blocks_lem :
    (buff : List ℕ)
    → check_blocks buff ≡ (
        (get_or buff 64 0 == 0x30)
        && ((get_or buff 129 0 == 0x31)
            && ((get_or buff 194 0 == 0x32) && (get_or buff 259 0 == 0x33))))
unfolding check_blocks check_message
check_blocks_lem buff = rw (ack 0 refl, ack 65 refl, ack 130 refl, ack 195 refl)
  where
    ack : (at : ℕ) {k : ℕ} → k ≡ at + 64 → get_or (slice at 65 buff) 64 0 ≡ get_or buff k 0
    ack at e = get_or-take 65 64 (drop at buff) 0 (omega arith) ∙ get_or-drop at 64 buff 0 e

-- They stand behind the first 64 bytes.
pub check_blocks-drop : (a b : List ℕ) → drop 64 a ≡ drop 64 b → check_blocks a ≡ check_blocks b
check_blocks-drop a b e = rw (
  check_blocks_lem a,
  check_blocks_lem b,
  same 0 refl,
  same 65 refl,
  same 130 refl,
  same 195 refl,
)
  where
    same : (i : ℕ) {k : ℕ} → k ≡ 64 + i → get_or a k 0 ≡ get_or b k 0
    same i h = sym (get_or-drop 64 i a 0 h) ∙ ap (λ t. get_or t i 0) e ∙ get_or-drop 64 i b 0 h

-- Behind a block of 64 bytes and its acknowledgement byte.
drop-block : (n r : List ℕ) (a : ℕ) → length n ≡ 64 → drop 65 (n ++ (a ∷ r)) ≡ r
drop-block n r a h =
    sym (drop-drop 1 64 (n ++ (a ∷ r)) refl) ∙ ap (drop 1) (drop-append n (a ∷ r) h)

module _ (n s u p : List ℕ) (hn : length n ≡ 64) (hs : length s ≡ 64) (hu : length u ≡ 64)
    (hp : length p ≡ 64) where
  pub length-frame : length (frame n s u p) ≡ message_size
  length-frame = omega (
    arith,
    length-append n (0x30 ∷ s ++ (0x31 ∷ u ++ (0x32 ∷ p ++ 0x33 ∷ []))),
    length-append s (0x31 ∷ u ++ (0x32 ∷ p ++ 0x33 ∷ [])),
    length-append u (0x32 ∷ p ++ 0x33 ∷ []),
    length-append p (0x33 ∷ []),
  )

  drop_1 : drop 65 (frame n s u p) ≡ s ++ (0x31 ∷ u ++ (0x32 ∷ p ++ 0x33 ∷ []))
  drop_1 = drop-block n _ 0x30 hn

  drop_2 : drop 130 (frame n s u p) ≡ u ++ (0x32 ∷ p ++ 0x33 ∷ [])
  drop_2 = sym (drop-drop 65 65 (frame n s u p) refl) ∙ ap (drop 65) drop_1 ∙ drop-block s _ 0x31 hs

  drop_3 : drop 195 (frame n s u p) ≡ p ++ 0x33 ∷ []
  drop_3 =
      sym (drop-drop 65 130 (frame n s u p) refl) ∙ ap (drop 65) drop_2 ∙ drop-block u _ 0x32 hu

  -- The four blocks can be read back.
  pub slices_frame :
      (slice 0 64 (frame n s u p) ≡ n)
      × (slice 65 64 (frame n s u p) ≡ s)
      × (slice 130 64 (frame n s u p) ≡ u)
      × (slice 195 64 (frame n s u p) ≡ p)
  slices_frame = (
    take-append n _ hn,
    ap (take 64) drop_1 ∙ take-append s _ hs,
    ap (take 64) drop_2 ∙ take-append u _ hu,
    ap (take 64) drop_3 ∙ take-append p _ hp,
  )

  block_ack :
      (b r : List ℕ) (a at : ℕ) {k : ℕ}
      → length b ≡ 64
      → drop at (frame n s u p) ≡ b ++ (a ∷ r)
      → k ≡ at + 64
      → get_or (frame n s u p) k 0 ≡ a
  block_ack b r a at h e k =
      let z : 64 - length b ≡ 0 = omega arith in
      sym (get_or-drop at 64 (frame n s u p) 0 k)
      ∙ ap (λ t. get_or t 64 0) e
      ∙ get_or-append b (a ∷ r) 64 0 (omega arith)
      ∙ ap (λ t. get_or (a ∷ r) t 0) z

  pub check_blocks-frame : check_blocks (frame n s u p) ≡ true
  check_blocks-frame = ground (
    arith,
    check_blocks_lem (frame n s u p),
    block_ack n _ 0x30 0 hn refl refl,
    block_ack s _ 0x31 65 hs drop_1 refl,
    block_ack u _ 0x32 130 hu drop_2 refl,
    block_ack p _ 0x33 195 hp drop_3 refl,
  )
