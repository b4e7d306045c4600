-- ===== src/Database/Handles.antt =====
-- The connections that DatabaseManager.c opens and closes.
use secure_rfid_login.Common.{
  ℕ, suc, ◌-◌, ◌≡◌, Option, none, some, List, pos, eq_ℤ, if◌then◌else◌, arith,
}
use secure_rfid_login.Database.{
  Mysql, serial_text, insert_query, select_query, insert_serial, check_row, is_serial_present,
}

-- How many connections are open: `mysql_init` opens one if it returns one, `mysql_close` closes one.
pub record CountsHandles {W : Type 0} (db : Mysql W) : Type 0 where
  pub handles : W → ℕ
  pub init_handles :
      (w : W) → handles (db.init w).1 ≡ (if (db.init w).0 then suc (handles w) else handles w)
  pub connect_handles : (w : W) → handles (db.real_connect w).1 ≡ handles w
  pub query_handles : (q : List ℕ) (w : W) → handles (db.query q w).1 ≡ handles w
  pub store_handles : (w : W) → handles (db.store_result w).1 ≡ handles w
  pub fetch_handles : (w : W) → handles (db.fetch_row w).1 ≡ handles w
  pub close_handles : (w : W) → handles (db.close w) ≡ handles w - 1

module _ {W : Type 0} (db : Mysql W) (c : CountsHandles db) where
  check_row_handles :
      (text : List ℕ) (row : Option (List ℕ)) (w : W)
      → let (answer, w') = check_row db text row w in
        c.handles w' ≡ (if eq_ℤ answer (pos 1) then c.handles w else c.handles w - 1)
  unfolding check_row
  check_row_handles text none w = c.close_handles w
  check_row_handles text (some row) w = ground (arith, c.close_handles w)

  -- `insert_serial` closes the connection that it opens, on every path.
  pub insert_serial_handles :
      (s : List ℕ) (w : W) → c.handles (insert_serial db s w).1 ≡ c.handles w
  unfolding insert_serial
  insert_serial_handles s w =
      let w1 = (db.init w).1 in
      let w2 = (db.real_connect w1).1 in
      let w3 = (db.query (insert_query (serial_text s)) w2).1 in
      ground (
        arith,
        c.init_handles w,
        c.connect_handles w1,
        c.query_handles (insert_query (serial_text s)) w2,
        c.close_handles w2,
        c.close_handles w3,
      )

  -- `is_serial_present` leaves one connection open exactly when it answers 1, and closes it on every
  -- other path.
  pub is_serial_present_handles :
      (s : List ℕ) (w : W)
      → let (answer, w') = is_serial_present db s w in
        c.handles w' ≡ (if eq_ℤ answer (pos 1) then suc (c.handles w) else c.handles w)
  unfolding is_serial_present
  is_serial_present_handles s w =
      let w1 = (db.init w).1 in
      let w2 = (db.real_connect w1).1 in
      let w3 = (db.query (select_query (serial_text s)) w2).1 in
      let w4 = (db.store_result w3).1 in
      let (row, w5) = db.fetch_row w4 in
      ground (
        arith,
        c.init_handles w,
        c.connect_handles w1,
        c.query_handles (select_query (serial_text s)) w2,
        c.store_handles w3,
        c.fetch_handles w4,
        c.close_handles w2,
        c.close_handles w3,
        c.close_handles w4,
        check_row_handles (serial_text s) row w5,
      )
