-- ===== src/Startup.antt =====
-- app/libwebsockets-master/srl/system-register.c: at its start the program looks whether Windows will
-- start it the next time, and registers itself if not. The registry, the program's own path and the
-- message box are Windows' and stand here as an interface. A text is the list of its wide characters.
pub mod Value
pub mod Handles
pub mod Again
pub mod Starts
use secure_rfid_login.Common.{
  ℕ, ◌+◌, ◌*◌, ◌/◌, Bool, true, false, Option, none, some, List, [], ◌∷◌, ◌++◌, if◌then◌else◌, ltb,
  ◌==◌, Run, ok, ◌>>=◌, in_bounds, take, strlen, strcpy, strcat, codes,
}

abbrev pub max_path : ℕ
max_path = 260

-- What system-register.c calls of Windows. A call on the registry returns its error code, 0 if it
-- succeeded; a key that is opened is NULL (`none`) or a handle; `get_value key name buff size` is
-- also the buffer afterwards, and `set_value` gets the characters that its count of bytes covers.
pub record Registry (W : Type 0) : Type 0 where
  pub open_key : W → ℕ × Option ℕ × W
  pub create_key : W → ℕ × Option ℕ × W
  pub get_value : Option ℕ → (name buff : List ℕ) → (size : ℕ) → W → ℕ × List ℕ × W
  pub set_value : Option ℕ → (name value : List ℕ) → W → ℕ × W
  pub close_key : ℕ → W → W
  pub module_file_name : (buff : List ℕ) → (size : ℕ) → W → List ℕ × W
  pub message_box : W → W

-- The command line that is registered: the path in quotes, a blank, and the arguments if there are
-- any. `wcscpy_s` and `wcscat_s` end the program where a text does not fit.
pub command_line : (value path : List ℕ) (args : Option (List ℕ)) → Run (List ℕ)
command_line value path args = do
  v1 ← in_bounds (strcpy value (codes "\"" ++ 0 ∷ []))
  v2 ← in_bounds (strcat v1 path)
  v3 ← in_bounds (strcat v2 (codes "\" " ++ 0 ∷ []))
  elim args [ none ↦ ok v3 | some text ↦ in_bounds (strcat v3 text) ]

module _ {W : Type 0} (registry : Registry W) where
  -- `if (hKey != NULL) RegCloseKey(hKey)`
  abbrev pub close_if_open : Option ℕ → W → W
  close_if_open none w = w
  close_if_open (some key) w = registry.close_key key w

  -- `path` is the buffer on the stack, with what stands there.
  unfoldable pub is_my_program_registered_for_startup : (path name : List ℕ) → W → Run (Bool × W)
  is_my_program_registered_for_startup path name w =
      let (opened, key, w1) = registry.open_key w in
      let (got, path', w2) = registry.get_value key name path (max_path * 2) w1 in
      if opened == 0
      then (if got == 0
          then (do n ← in_bounds (strlen path'); ok (ltb 0 n, close_if_open key w2))
          else ok (false, close_if_open key w2))
      else ok (false, close_if_open key w1)

  -- The second half of `RegisterMyProgramForStartup`, for the command line `v`.
  pub store_value : (v name : List ℕ) → W → Run (Bool × W)
  store_value v name w = do
    let (created, key, w1) = registry.create_key w
    if created == 0
        then (do
          n ← in_bounds (strlen v)
          let size = (n + 1) * 2
          let (stored, w2) = registry.set_value key name (take (size / 2) v) w1
          ok (stored == 0, close_if_open key w2))
        else ok (false, close_if_open key w1)

  unfoldable pub register_my_program_for_startup :
      (value name path : List ℕ) (args : Option (List ℕ)) → W → Run (Bool × W)
  unfolding store_value
  register_my_program_for_startup value name path args w = do
    v ← command_line value path args
    store_value v name w

  unfoldable pub register_program : (path value name : List ℕ) → W → Run W
  unfolding register_my_program_for_startup
  register_program path value name w = do
    let (path', w1) = registry.module_file_name path max_path w
    (registered, w2) ←
        register_my_program_for_startup value name path' (some (codes "-foobar" ++ 0 ∷ [])) w1
    ok w2

  -- The buffers `path`, `checked`, `copied` and `value` are those of this function and of the three
  -- that it calls.
  unfoldable pub register_if_doesnt_exist : (path checked copied value name : List ℕ) → W → Run W
  unfolding is_my_program_registered_for_startup register_program
  register_if_doesnt_exist path checked copied value name w = do
    let (path', w1) = registry.module_file_name path max_path w
    (registered, w2) ← is_my_program_registered_for_startup checked name w1
    let w3 = registry.message_box w2
    if registered then ok w2 else register_program copied value name w3
