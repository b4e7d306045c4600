-- ===== src/Startup/Again.antt =====
-- What the registration does for the starts of the program, on a registry that can be used.
use secure_rfid_login.Common.{
  ℕ, suc, ◌+◌, ◌*◌, ◌/◌, ◌≤◌, ◌<◌, ◌≡◌, ◌≢◌, refl, ap, ◌∙◌, Bool, false, ◌&&◌, ltb, Option, none,
  some, List, [], ◌∷◌, ◌++◌, ok, if◌then◌else◌, take, length, overwrite, overwrite_str, strlen,
  c_str, HasNoNul, ltb→lt, Option-cases, Bool-cases, inl, inr, arith,
}
use secure_rfid_login.Startup.{
  Registry, max_path, close_if_open, is_my_program_registered_for_startup, store_value,
  register_my_program_for_startup, register_program, register_if_doesnt_exist,
}
use secure_rfid_login.Startup.Value.{line, command_line_lem, c_str-take}

-- A registry that may be read and written, for the value of one name: what is stored under the
-- name, how many message boxes were shown, and the program's path.
pub record Works {W : Type 0} (registry : Registry W) (name : List ℕ) : Type 0 where
  pub value : W → Option (List ℕ)
  pub warnings : W → ℕ
  pub path : List ℕ
  pub path_no_nul : HasNoNul path
  pub path_short : length path < 260
  pub value_no_nul : (w : W) {v : List ℕ} → value w ≡ some v → HasNoNul v
  pub opens :
      (w : W)
      → let (code, key, w') = registry.open_key w in
        (code ≡ 0) × (value w' ≡ value w) × (warnings w' ≡ warnings w)
  pub creates :
      (w : W)
      → let (code, key, w') = registry.create_key w in
        (code ≡ 0) × (value w' ≡ value w) × (warnings w' ≡ warnings w)
  pub reads :
      (key : Option ℕ) (buff : List ℕ) (size : ℕ) (w : W)
      → let w' = (registry.get_value key name buff size w).2 in
        (value w' ≡ value w) × (warnings w' ≡ warnings w)
  pub misses :
      (key : Option ℕ) (buff : List ℕ) (size : ℕ) (w : W)
      → value w ≡ none
      → (registry.get_value key name buff size w).0 ≢ 0
  pub overflows :
      (key : Option ℕ) (buff : List ℕ) (size : ℕ) (w : W) {v : List ℕ}
      → value w ≡ some v
      → size < (length v + 1) * 2
      → (registry.get_value key name buff size w).0 ≢ 0
  pub gets :
      (key : Option ℕ) (buff : List ℕ) (size : ℕ) (w : W) {v : List ℕ}
      → value w ≡ some v
      → (length v + 1) * 2 ≤ size
      → let (code, buff', w') = registry.get_value key name buff size w in
        (code ≡ 0) × (buff' ≡ overwrite buff (v ++ 0 ∷ []))
  pub sets :
      (key : Option ℕ) (text : List ℕ) (w : W)
      → let (code, w') = registry.set_value key name text w in
        (code ≡ 0) × (value w' ≡ some (c_str text)) × (warnings w' ≡ warnings w)
  pub closes :
      (key : ℕ) (w : W)
      → (value (registry.close_key key w) ≡ value w)
        × (warnings (registry.close_key key w) ≡ warnings w)
  pub names :
      (buff : List ℕ) (w : W)
      → let (buff', w') = registry.module_file_name buff max_path w in
        (buff' ≡ overwrite buff (path ++ 0 ∷ []))
        × (value w' ≡ value w)
        × (warnings w' ≡ warnings w)
  pub shows :
      (w : W)
      → (value (registry.message_box w) ≡ value w)
        × (warnings (registry.message_box w) ≡ suc (warnings w))

-- A value that the check can read: it is not empty, and fits 260 characters with its terminator.
abbrev pub is_readable : Option (List ℕ) → Bool
is_readable none = false
is_readable (some v) = ltb 0 (length v) && ltb (length v) 260

module _ {W : Type 0} (registry : Registry W) (name : List ℕ) (r : Works registry name) where
  -- Two worlds with the same value and as many warnings.
  abbrev Same : W → W → Type 0
  Same w w' = (r.value w' ≡ r.value w) × (r.warnings w' ≡ r.warnings w)

  closed : (key : Option ℕ) (w : W) → Same w (close_if_open registry key w)
  closed none w = (refl, refl)
  closed (some key) w = r.closes key w

  check_passes :
      (path : List ℕ) (w : W)
      → length path ≡ 260
      → (w' : W) × (is_my_program_registered_for_startup registry path name w
          ≡ ok (is_readable (r.value w), w'))
        × Same w w'
  unfolding is_my_program_registered_for_startup
  check_passes path w h =
      let (opened, key, w1) = registry.open_key w in
      let (got, path', w2) = registry.get_value key name path (max_path * 2) w1 in
      let end = close_if_open registry key w2 in
      let (open_code, open_value, open_warnings) = r.opens w in
      let same : Same w end =
        let (read_value, read_warnings) = r.reads key path (max_path * 2) w1 in
        let (close_value, close_warnings) = closed key w2 in
        (close_value ∙ read_value ∙ open_value, close_warnings ∙ read_warnings ∙ open_warnings) in
      elim (Option-cases (r.value w)) [
        | inl missing ↦ (
          end,
          ground (
            arith,
            r.misses key path (max_path * 2) w1 (open_value ∙ missing),
            missing,
            open_code,
          ),
          same,
        )
        | inr (v, there) ↦ elim (Bool-cases (ltb (length v) 260)) [
          | inl fits ↦
              let short = ltb→lt (length v) 260 fits in
              let (get_code, get_buff) =
                r.gets key path (max_path * 2) w1 (open_value ∙ there) (omega arith) in
              let measured = overwrite_str path v (r.value_no_nul w there) (omega arith) in
              (
                end,
                rw (open_code, get_code, get_buff, measured.0, there, fits) (ground arith),
                same,
              )
          | inr long ↦ (
            end,
            ground (
              arith,
              r.overflows key path (max_path * 2) w1 (open_value ∙ there) (ground (arith, long)),
              there,
              open_code,
            ),
            same,
          )
        ]
      ]

  registers :
      (copied value : List ℕ) (w : W)
      → length copied ≡ 260
      → length value ≡ 520
      → (w' : W) × (register_program registry copied value name w ≡ ok w')
        × (r.value w' ≡ some (line r.path))
        × (r.warnings w' ≡ r.warnings w)
  unfolding register_program register_my_program_for_startup store_value
  registers copied value w h k =
      let (path', w1) = registry.module_file_name copied max_path w in
      let (name_path, name_value, name_warnings) = r.names copied w in
      let measured = overwrite_str copied r.path r.path_no_nul (omega (arith, r.path_short)) in
      let (v, made, v_measured, v_text, v_size) =
        command_line_lem value path' k (ap strlen name_path ∙ measured.0)
          (omega (arith, r.path_short)) in
      let (created, key, w2) = registry.create_key w1 in
      let (create_code, create_value, create_warnings) = r.creates w1 in
      let text = take ((length r.path + 10 + 1) * 2 / 2) v in
      let (stored, w3) = registry.set_value key name text w2 in
      let (set_code, set_value, set_warnings) = r.sets key text w2 in
      let (close_value, close_warnings) = closed key w3 in
      let half : (length r.path + 10 + 1) * 2 / 2 ≡ length r.path + 11 = omega arith in
      let stored_text : c_str text ≡ line r.path =
        ap (λ t. c_str (take t v)) half
        ∙ c_str-take v (length r.path + 11) v_measured (omega arith)
        ∙ v_text
        ∙ ap line (ap c_str name_path ∙ measured.1) in
      (
        close_if_open registry key w3,
        rw (made, v_measured, create_code) refl,
        close_value ∙ set_value ∙ ap some stored_text,
        close_warnings ∙ set_warnings ∙ create_warnings ∙ name_warnings,
      )

  -- What a start leaves of the value and of the number of warnings.
  abbrev pub AfterStart : W → W → Type 0
  AfterStart w w' =
      let readable = is_readable (r.value w) in
      (r.value w' ≡ (if readable then r.value w else some (line r.path)))
      × (r.warnings w' ≡ (if readable then r.warnings w else suc (r.warnings w)))

  -- On a registry that may be read and written the program comes back from the registration at its
  -- start. If a value is stored that is not empty and fits 260 characters with its terminator,
  -- nothing changes; if not, the user is warned once and the program's quoted path with the
  -- arguments is stored.
  pub register_if_doesnt_exist_lem :
      (path checked copied value : List ℕ) (w : W)
      → length checked ≡ 260
      → length copied ≡ 260
      → length value ≡ 520
      → (w' : W) × (register_if_doesnt_exist registry path checked copied value name w ≡ ok w')
        × AfterStart w w'
  unfolding register_if_doesnt_exist
  register_if_doesnt_exist_lem path checked copied value w h k l =
      let (path', w1) = registry.module_file_name path max_path w in
      let (name_path, name_value, name_warnings) = r.names path w in
      let (w2, passed, (check_value, check_warnings)) = check_passes checked w1 h in
      let (box_value, box_warnings) = r.shows w2 in
      let (w3, done, new_value, new_warnings) =
        registers copied value (registry.message_box w2) k l in
      elim (Bool-cases (is_readable (r.value w))) [
        | inl already ↦ (
          w2,
          rw (passed, name_value, already) refl,
          (rw already (check_value ∙ name_value), rw already (check_warnings ∙ name_warnings)),
        )
        | inr not_yet ↦ (
          w3,
          rw (passed, name_value, not_yet) done,
          (
            rw not_yet new_value,
            rw not_yet (new_warnings ∙ box_warnings ∙ ap suc (check_warnings ∙ name_warnings)),
          ),
        )
      ]
