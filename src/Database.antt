-- ===== src/Database.antt =====
-- app/libwebsockets-master/srl/DatabaseManager.c: the table `allowcard` of the cards that may log in,
-- keyed by the card's serial number in hexadecimal. MySQL's client library stands here as an interface
-- over a state `W` of the world.
pub mod Serial
pub mod Table
pub mod Handles
use secure_rfid_login.Common.{
  ℕ, ◌+◌, ◌-◌, ◌/◌, ◌%◌, Bool, true, false, not, Option, none, some, List, [], ◌∷◌, ◌++◌, ℤ, pos,
  minus_one, if◌then◌else◌, ltb, get_or, same_bytes, codes,
}

-- What DatabaseManager.c calls of the MySQL client. `init` and `real_connect` say whether they
-- returned a connection, `query` whether it returned 0, `store_result` whether it returned a
-- result; `fetch_row` gives the characters of the first column of the next row.
pub record Mysql (W : Type 0) : Type 0 where
  pub init : W → Bool × W
  pub real_connect : W → Bool × W
  pub query : List ℕ → W → Bool × W
  pub store_result : W → Bool × W
  pub fetch_row : W → Option (List ℕ) × W
  pub close : W → W

-- A digit of `%x`.
abbrev pub hex_digit : ℕ → ℕ
hex_digit d = if ltb d 10 then b'0' + d else b'a' - 10 + d

-- `sprintf("%x")` of a byte: no leading zero is printed.
pub hex : ℕ → List ℕ
hex b = if ltb b 16 then hex_digit b ∷ [] else hex_digit (b / 16) ∷ hex_digit (b % 16) ∷ []

-- `sprintf("%x%x%x%x")` of the four bytes of a serial number.
pub serial_text : List ℕ → List ℕ
serial_text s =
    hex (get_or s 0 0) ++ (hex (get_or s 1 0) ++ (hex (get_or s 2 0) ++ hex (get_or s 3 0)))

unfoldable pub insert_query : List ℕ → List ℕ
insert_query text = codes "INSERT INTO allowcard (serialnumber) VALUES ('" ++ (text ++ codes "')")

unfoldable pub select_query : List ℕ → List ℕ
select_query text =
    codes "SELECT serialnumber FROM allowcard WHERE serialnumber='" ++ (text ++ codes "'")

module _ {W : Type 0} (db : Mysql W) where
  -- `none` where the function ends with no `return`: its value is indeterminate.
  pub insert_serial : List ℕ → W → Option Bool × W
  insert_serial serial w =
      let (has_con, w1) = db.init w in
      let (connected, w2) = db.real_connect w1 in
      let (done, w3) = db.query (insert_query (serial_text serial)) w2 in
      if not has_con
      then (some false, w1)
      else if not connected
      then (some false, db.close w2)
      else if not done
      then (some false, db.close w3)
      else (none, db.close w3)

  -- The comparison of the fetched row with the serial number, and the return without `mysql_close`.
  -- A row of more than 8 characters, which C copies past the end of `fetched_serial`, is taken as
  -- unequal.
  check_row : List ℕ → Option (List ℕ) → W → ℤ × W
  check_row text none w = (pos 0, db.close w)
  check_row text (some row) w = if same_bytes text row then (pos 1, w) else (pos 0, db.close w)

  unfoldable pub is_serial_present : List ℕ → W → ℤ × W
  unfolding check_row
  is_serial_present serial w =
      let text : List ℕ = serial_text serial in
      let (has_con, w1) = db.init w in
      let (connected, w2) = db.real_connect w1 in
      let (done, w3) = db.query (select_query text) w2 in
      let (has_result, w4) = db.store_result w3 in
      let (row, w5) = db.fetch_row w4 in
      if not has_con
      then (minus_one, w1)
      else if not connected
      then (minus_one, db.close w2)
      else if not done
      then (minus_one, db.close w3)
      else if not has_result
      then (minus_one, db.close w4)
      else check_row text row w5
