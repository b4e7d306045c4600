-- ===== src/Database/Table.antt =====
-- DatabaseManager.c against the table that it keeps in MySQL: adding a card and asking for one.
use secure_rfid_login.Common.{
  get_or, append-nil, subst, ℕ, ◌≡◌, refl, Bool, true, false, Option, none, some, List, [], ◌∷◌,
  pos, if◌then◌else◌, ◌||◌, ◌≢◌, ◌++◌, codes, same_bytes, arith,
}
use secure_rfid_login.Database.{
  Mysql, serial_text, hex, insert_query, select_query, insert_serial, check_row, is_serial_present,
}

-- The rows that are a given text, and whether there is one.
abbrev pub matching : List ℕ → List (List ℕ) → List (List ℕ)
matching text [] = []
matching text (row ∷ rows) =
    if same_bytes text row then row ∷ matching text rows else matching text rows

abbrev pub contains : List ℕ → List (List ℕ) → Bool
contains text [] = false
contains text (row ∷ rows) = same_bytes text row || contains text rows

abbrev pub first : List (List ℕ) → Option (List ℕ)
first [] = none
first (row ∷ rows) = some row

-- The texts in which SQL quotes nothing: no quote and no backslash.
abbrev pub IsPlain : List ℕ → Type 0
IsPlain [] = Unit
IsPlain (c ∷ text) = ((c ≢ 39) × (c ≢ 92)) × IsPlain text

-- The two statements on the table `allowcard`, as SQL has them.
abbrev pub insert_statement : List ℕ → List ℕ
insert_statement text =
    codes "INSERT INTO allowcard (serialnumber) VALUES ('" ++ (text ++ codes "')")

abbrev pub select_statement : List ℕ → List ℕ
select_statement text =
    codes "SELECT serialnumber FROM allowcard WHERE serialnumber='" ++ (text ++ codes "'")

-- A server that is up and holds the table `allowcard`, as MySQL documents it: `INSERT` adds a row,
-- `SELECT ... WHERE` leaves the rows of that value to be fetched, and nothing else changes the table.
-- Nothing is known of other statements.
pub record Serves {W : Type 0} (db : Mysql W) : Type 0 where
  pub rows : W → List (List ℕ)
  pub pending : W → List (List ℕ)
  pub init_rows : (w : W) → ((db.init w).0 ≡ true) × (rows (db.init w).1 ≡ rows w)
  pub connect_rows :
      (w : W) → ((db.real_connect w).0 ≡ true) × (rows (db.real_connect w).1 ≡ rows w)
  pub insert_rows :
      (text : List ℕ) (w : W)
      → IsPlain text
      → let (done, w') = db.query (insert_statement text) w in
        (done ≡ true) × (rows w' ≡ text ∷ rows w)
  pub select_rows :
      (text : List ℕ) (w : W)
      → IsPlain text
      → let (done, w') = db.query (select_statement text) w in
        (done ≡ true) × (rows w' ≡ rows w) × (pending w' ≡ matching text (rows w))
  pub store_rows :
      (w : W)
      → let (has_result, w') = db.store_result w in
        (has_result ≡ true) × (rows w' ≡ rows w) × (pending w' ≡ pending w)
  pub fetch_rows :
      (w : W) → let (row, w') = db.fetch_row w in (row ≡ first (pending w)) × (rows w' ≡ rows w)
  pub close_rows : (w : W) → rows (db.close w) ≡ rows w

hex-IsPlain : (b : ℕ) (text : List ℕ) → IsPlain text → IsPlain (hex b ++ text)
unfolding hex
hex-IsPlain b text h = ground arith

serial_text-IsPlain : (s : List ℕ) → IsPlain (serial_text s)
unfolding serial_text
serial_text-IsPlain s =
    let last = get_or s 3 0 in
    hex-IsPlain (get_or s 0 0) _ (
      hex-IsPlain (get_or s 1 0) _ (
        hex-IsPlain (get_or s 2 0) _
          (subst IsPlain (append-nil (hex last)) (hex-IsPlain last [] tt))))

module _ {W : Type 0} (db : Mysql W) (server : Serves db) where
  check_row_rows :
      (text : List ℕ) (row : Option (List ℕ)) (w : W)
      → server.rows (check_row db text row w).1 ≡ server.rows w
  unfolding check_row
  check_row_rows text none w = server.close_rows w
  check_row_rows text (some row) w = ground (arith, server.close_rows w)

  check_row-first :
      (text : List ℕ) (rows : List (List ℕ)) (w : W)
      → (check_row db text (first (matching text rows)) w).0
        ≡ (if contains text rows then pos 1 else pos 0)
  unfolding check_row
  check_row-first text [] w = refl
  check_row-first text (row ∷ rows) w = ground (arith, check_row-first text rows w)

  -- On a server that is up, `insert_serial` adds the card's text to the table and nothing else.
  pub insert_serial_rows :
      (s : List ℕ) (w : W) → server.rows (insert_serial db s w).1 ≡ serial_text s ∷ server.rows w
  unfolding insert_serial insert_query
  insert_serial_rows s w =
      let w1 = (db.init w).1 in
      let w2 = (db.real_connect w1).1 in
      let w3 = (db.query (insert_query (serial_text s)) w2).1 in
      ground (
        arith,
        server.init_rows w,
        server.connect_rows w1,
        server.insert_rows (serial_text s) w2 (serial_text-IsPlain s),
        server.close_rows w3,
      )

  -- On a server that is up, `is_serial_present` answers 1 if the card's text is in the table and 0
  -- if not, and leaves the table as it was.
  pub is_serial_present_lem :
      (s : List ℕ) (w : W)
      → let (answer, w') = is_serial_present db s w in
        (answer ≡ (if contains (serial_text s) (server.rows w) then pos 1 else pos 0))
        × (server.rows w' ≡ server.rows w)
  unfolding is_serial_present select_query
  is_serial_present_lem s w =
      let w1 = (db.init w).1 in
      let w2 = (db.real_connect w1).1 in
      let w3 = (db.query (select_query (serial_text s)) w2).1 in
      let w4 = (db.store_result w3).1 in
      let (row, w5) = db.fetch_row w4 in
      ground (
        arith,
        server.init_rows w,
        server.connect_rows w1,
        server.select_rows (serial_text s) w2 (serial_text-IsPlain s),
        server.store_rows w3,
        server.fetch_rows w4,
        check_row_rows (serial_text s) row w5,
        check_row-first (serial_text s) (server.rows w2) w5,
      )

  -- On a server that is up and keeps the table allowcard, adding a card makes `is_serial_present`
  -- answer 1 for every serial number of the same text, and leaves its answer for all others.
  pub is_serial_present-insert_serial :
      (s t : List ℕ) (w : W)
      → (is_serial_present db t (insert_serial db s w).1).0 ≡ (
          if same_bytes (serial_text t) (serial_text s)
          then pos 1
          else (is_serial_present db t w).0)
  is_serial_present-insert_serial s t w =
      let w' = (insert_serial db s w).1 in
      ground (arith, insert_serial_rows s w, is_serial_present_lem t w', is_serial_present_lem t w)
