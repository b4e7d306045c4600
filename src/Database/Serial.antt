-- ===== src/Database/Serial.antt =====
-- The text of a serial number, `sprintf("%x%x%x%x")` of DatabaseManager.c: it fits the buffers, tells
-- serial numbers apart as long as no byte is below 16, and does not in general.
use secure_rfid_login.Common.{
  ℕ, ◌+◌, ◌*◌, ◌/◌, ◌%◌, ◌≤◌, ◌<◌, ◌≡◌, ◌≢◌, List, [], ◌∷◌, ◌++◌, length, length-append, arith,
  get_or, codes, le→ltb_false,
}
use secure_rfid_login.Database.{
  Mysql, hex_digit, hex, serial_text, insert_query, select_query, is_serial_present,
}

length-hex : (b : ℕ) → length (hex b) ≤ 2
unfolding hex
length-hex b = ground arith

length-serial_text : (s : List ℕ) → length (serial_text s) ≤ 8
unfolding serial_text
length-serial_text s =
    let a = hex (get_or s 0 0) in
    let b = hex (get_or s 1 0) in
    let c = hex (get_or s 2 0) in
    let d = hex (get_or s 3 0) in
    omega (
      arith,
      length-append a (b ++ (c ++ d)),
      length-append b (c ++ d),
      length-append c d,
      length-hex (get_or s 0 0),
      length-hex (get_or s 1 0),
      length-hex (get_or s 2 0),
      length-hex (get_or s 3 0),
    )

-- The text of a serial number has at most 8 characters, so that it fits `string_serial[9]` with its
-- terminator, and both queries fit `query[100]` with theirs.
pub serial_text_fits :
    (s : List ℕ)
    → (length (serial_text s) < 9)
      × (length (insert_query (serial_text s)) < 100)
      × (length (select_query (serial_text s)) < 100)
unfolding insert_query select_query
serial_text_fits s =
    let n = length-serial_text s in
    (
      omega arith,
      omega (arith, length-append (serial_text s) (codes "')")),
      omega (arith, length-append (serial_text s) (codes "'")),
    )

hex_digit_injective : (a b : ℕ) → a < 16 → b < 16 → hex_digit a ≡ hex_digit b → a ≡ b
hex_digit_injective a b ha hb e = ground arith

-- Every byte prints as two digits.
abbrev pub AreWide : List ℕ → Type 0
AreWide [] = Unit
AreWide (b ∷ s) = ((16 ≤ b) × (b < 256)) × AreWide s

hex_injective : (a b : ℕ) → 16 ≤ a → a < 256 → 16 ≤ b → b < 256 → hex a ≡ hex b → a ≡ b
unfolding hex
hex_injective a b la ha lb hb e =
    ground (arith, hex_digit_injective (a / 16) (b / 16), hex_digit_injective (a % 16) (b % 16))

hex-append_injective :
    (a b : ℕ) (xs ys : List ℕ)
    → 16 ≤ a
    → a < 256
    → 16 ≤ b
    → b < 256
    → hex a ++ xs ≡ hex b ++ ys
    → (a ≡ b) × (xs ≡ ys)
unfolding hex
hex-append_injective a b xs ys la ha lb hb e =
    ground (arith, hex_digit_injective (a / 16) (b / 16), hex_digit_injective (a % 16) (b % 16))

-- On four bytes that are 16 or more, none of which prints as one digit, the text determines the
-- serial number.
pub serial_text_injective :
    (a b c d a' b' c' d' : ℕ)
    → AreWide (a ∷ b ∷ c ∷ d ∷ [])
    → AreWide (a' ∷ b' ∷ c' ∷ d' ∷ [])
    → serial_text (a ∷ b ∷ c ∷ d ∷ []) ≡ serial_text (a' ∷ b' ∷ c' ∷ d' ∷ [])
    → ◌≡◌ {A = List ℕ} (a ∷ b ∷ c ∷ d ∷ []) (a' ∷ b' ∷ c' ∷ d' ∷ [])
unfolding serial_text
serial_text_injective a b c d a' b' c' d' v v' e =
    let p = hex-append_injective a a' _ _ v.0.0 v.0.1 v'.0.0 v'.0.1 e in
    let q = hex-append_injective b b' _ _ v.1.0.0 v.1.0.1 v'.1.0.0 v'.1.0.1 p.1 in
    let r = hex-append_injective c c' _ _ v.1.1.0.0 v.1.1.0.1 v'.1.1.0.0 v'.1.1.0.1 q.1 in
    let s = hex_injective d d' v.1.1.1.0.0 v.1.1.1.0.1 v'.1.1.1.0.0 v'.1.1.1.0.1 r.1 in ground arith

hex_small : (b : ℕ) → b < 16 → hex b ≡ hex_digit b ∷ []
unfolding hex
hex_small b h = ground arith

hex_large : (d e : ℕ) → 0 < d → d < 16 → e < 16 → hex (16 * d + e) ≡ hex_digit d ∷ hex_digit e ∷ []
unfolding hex
hex_large d e p h k =
    let q : (16 * d + e) / 16 ≡ d = omega arith in
    let r : (16 * d + e) % 16 ≡ e = omega arith in
    rw (q, r, le→ltb_false (16 * d + e) 16 (omega arith))

collision :
    (x y z : ℕ) (rest : List ℕ)
    → 0 < x
    → x < 16
    → 0 < y
    → y < 16
    → z < 16
    → hex x ++ (hex (16 * y + z) ++ rest) ≡ hex (16 * x + y) ++ (hex z ++ rest)
collision x y z rest px hx py hy hz =
    rw (hex_small x hx, hex_large y z py hy hz, hex_large x y px hx hy, hex_small z hz)

-- The database is asked by the text alone.
is_serial_present-serial_text :
    {W : Type 0} (db : Mysql W) (s t : List ℕ) (w : W)
    → serial_text s ≡ serial_text t
    → is_serial_present db s w ≡ is_serial_present db t w
unfolding is_serial_present
is_serial_present-serial_text db s t w e = rw e

-- The missing leading zeros make different cards one to the database: for digits x, y (not 0) and z,
-- the serial numbers x, yz, c, d and xy, z, c, d differ, and whatever the database does,
-- `is_serial_present` answers for one what it answers for the other.
pub is_serial_present_collision :
    {W : Type 0} (db : Mysql W) (w : W) (x y z c d : ℕ)
    → 0 < x
    → x < 16
    → 0 < y
    → y < 16
    → z < 16
    → ◌≢◌ {A = List ℕ} (x ∷ (16 * y + z) ∷ c ∷ d ∷ []) ((16 * x + y) ∷ z ∷ c ∷ d ∷ [])
      × (is_serial_present db (x ∷ (16 * y + z) ∷ c ∷ d ∷ []) w
          ≡ is_serial_present db ((16 * x + y) ∷ z ∷ c ∷ d ∷ []) w)
unfolding serial_text
is_serial_present_collision db w x y z c d px hx py hy hz = (
  λ e. absurd (ground arith),
  is_serial_present-serial_text db _ _ w (collision x y z (hex c ++ hex d) px hx py hy hz),
)
