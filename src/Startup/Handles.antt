-- ===== src/Startup/Handles.antt =====
-- The registry keys that system-register.c opens and closes.
use secure_rfid_login.Common.{
  ℕ, suc, ◌-◌, ◌+◌, ◌*◌, ◌/◌, ◌==◌, ◌≡◌, ◌∙◌, Bool, Option, none, some, List, ok, >>=-eq-ok,
  in_bounds, take, strlen, if◌then◌else◌, Bool-cases, inl, inr, arith,
}
use secure_rfid_login.Startup.{
  Registry, max_path, close_if_open, is_my_program_registered_for_startup, command_line,
  store_value, register_my_program_for_startup, register_program, register_if_doesnt_exist,
}
use secure_rfid_login.Startup.Value.{arguments}

-- How many keys are open with `key` just opened or not.
abbrev pub with_key : Option ℕ → ℕ → ℕ
with_key none n = n
with_key (some key) n = suc n

-- A call that returns a handle has opened a key, whatever its error code says; `RegCloseKey` closes
-- one.
pub record CountsKeys {W : Type 0} (registry : Registry W) : Type 0 where
  pub keys : W → ℕ
  pub open_keys :
      (w : W) → let (code, key, w') = registry.open_key w in keys w' ≡ with_key key (keys w)
  pub create_keys :
      (w : W) → let (code, key, w') = registry.create_key w in keys w' ≡ with_key key (keys w)
  pub get_keys :
      (key : Option ℕ) (name buff : List ℕ) (size : ℕ) (w : W)
      → keys (registry.get_value key name buff size w).2 ≡ keys w
  pub set_keys :
      (key : Option ℕ) (name value : List ℕ) (w : W)
      → keys (registry.set_value key name value w).1 ≡ keys w
  pub close_keys : (key : ℕ) (w : W) → keys (registry.close_key key w) ≡ keys w - 1
  pub path_keys :
      (buff : List ℕ) (size : ℕ) (w : W) → keys (registry.module_file_name buff size w).1 ≡ keys w
  pub box_keys : (w : W) → keys (registry.message_box w) ≡ keys w

module _ {W : Type 0} (registry : Registry W) (c : CountsKeys registry) where
  closed :
      (key : Option ℕ) (n : ℕ) (w : W)
      → c.keys w ≡ with_key key n
      → c.keys (close_if_open registry key w) ≡ n
  closed none n w h = h
  closed (some key) n w h = omega (arith, c.close_keys key w)

  check_keys :
      (path name : List ℕ) (w w' : W) (b : Bool)
      → is_my_program_registered_for_startup registry path name w ≡ ok (b, w')
      → c.keys w' ≡ c.keys w
  unfolding is_my_program_registered_for_startup
  check_keys path name w w' b e =
      let (opened, key, w1) = registry.open_key w in
      let (got, path', w2) = registry.get_value key name path (max_path * 2) w1 in
      let after_open = closed key (c.keys w) w1 (c.open_keys w) in
      let after_get =
        closed key (c.keys w) w2 (c.get_keys key name path (max_path * 2) w1 ∙ c.open_keys w) in
      ground (arith, after_open, after_get)

  store_keys :
      (v name : List ℕ) (w w' : W) (b : Bool)
      → store_value registry v name w ≡ ok (b, w')
      → c.keys w' ≡ c.keys w
  unfolding store_value
  store_keys v name w w' b e =
      let (created, key, w1) = registry.create_key w in
      let after_create = closed key (c.keys w) w1 (c.create_keys w) in
      elim (Bool-cases (created == 0)) [
        | inl made ↦
            let (n, measured, e1) =
              >>=-eq-ok (in_bounds (strlen v))
                (λ n.
                  let (stored, w2) = registry.set_value key name (take ((n + 1) * 2 / 2) v) w1 in
                  ok (stored == 0, close_if_open registry key w2))
                (rw made at e) in
            let w2 = (registry.set_value key name (take ((n + 1) * 2 / 2) v) w1).1 in
            let after_set =
              closed key (c.keys w) w2
                (c.set_keys key name (take ((n + 1) * 2 / 2) v) w1 ∙ c.create_keys w) in
            ground (arith, e1, after_set)
        | inr refused ↦ ground (arith, rw refused at e, after_create)
      ]

  register_program_keys :
      (path value name : List ℕ) (w w' : W)
      → register_program registry path value name w ≡ ok w'
      → c.keys w' ≡ c.keys w
  unfolding register_program register_my_program_for_startup
  register_program_keys path value name w w' e =
      let (path', w1) = registry.module_file_name path max_path w in
      let (r, registered, last) =
        >>=-eq-ok (register_my_program_for_startup registry value name path' (some arguments) w1)
          (λ r. ok r.1) e in
      let (v, made, stored) =
        >>=-eq-ok (command_line value path' (some arguments)) (λ v. store_value registry v name w1)
          registered in
      ground (arith, store_keys v name w1 r.1 r.0 stored, c.path_keys path max_path w)

  -- Whatever the registry answers: when the program comes back from its registration, as many keys
  -- are open as before.
  pub register_if_doesnt_exist_keys :
      (path checked copied value name : List ℕ) (w w' : W)
      → register_if_doesnt_exist registry path checked copied value name w ≡ ok w'
      → c.keys w' ≡ c.keys w
  unfolding register_if_doesnt_exist
  register_if_doesnt_exist_keys path checked copied value name w w' e =
      let (path', w1) = registry.module_file_name path max_path w in
      let (r, is_there, e1) =
        >>=-eq-ok (is_my_program_registered_for_startup registry checked name w1)
          (λ r.
            if r.0
            then ok r.1
            else register_program registry copied value name (registry.message_box r.1))
          e in
      let after_check = check_keys checked name w1 r.1 r.0 is_there in
      elim (Bool-cases r.0) [
        | inl yes_there ↦
            ground (arith, rw yes_there at e1, after_check, c.path_keys path max_path w)
        | inr not_there ↦ omega (
          arith,
          register_program_keys copied value name (registry.message_box r.1) w'
              (rw not_there at e1),
          c.box_keys r.1,
          after_check,
          c.path_keys path max_path w,
        )
      ]
