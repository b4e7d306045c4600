-- ===== src/Tray/Modal.antt =====
-- The flag `g_bModalState`.
use secure_rfid_login.Common.{ℕ, ◌%◌, ◌≡◌, Bool, if◌then◌else◌, true, false, arith}
use secure_rfid_login.Host.{Host}
use secure_rfid_login.Tray.{
  Shell, Screen, on_world, open_menu, close_tray, on_command, show_popup_menu, wnd_proc, Event,
  event, Events, done, then_next, dispatch, dispatch_all,
}

otherwise_off :
    {W : Type 0} (b : Bool) (s t : Screen W)
    → b ≡ false
    → t.modal ≡ false
    → (if b then s else t).modal ≡ false
otherwise_off true s t h k = cc
otherwise_off false s t h k = k

module _ {W : Type 0} (shell : Shell W) (host : Host W) where
  -- What happens meanwhile does not switch the flag on.
  abbrev StaysOff : (Screen W → Screen W) → Type 0
  StaysOff f = (s : Screen W) → s.modal ≡ false → (f s).modal ≡ false

  on_command_off :
      (wparam : ℕ) (boxed : Screen W → Screen W) (s : Screen W)
      → s.modal ≡ false
      → (on_command shell host wparam boxed s).1.modal ≡ false
  unfolding on_command
  on_command_off wparam boxed s h = ground arith

  show_popup_menu_off :
      (choice : ℕ) (shown boxed : Screen W → Screen W) (s : Screen W)
      → StaysOff shown
      → s.modal ≡ false
      → (show_popup_menu shell host choice shown boxed s).modal ≡ false
  unfolding show_popup_menu
  show_popup_menu_off choice shown boxed s k h =
      let (menu, w) = shell.create_popup_menu s.world in
      let opened = shown (record s { world = open_menu shell menu w }) in
      otherwise_off s.modal (record s { world = w })
        (on_world (shell.destroy_menu menu) (on_command shell host (choice % 65536) boxed opened).1)
        h
        (on_command_off (choice % 65536) boxed opened
          (k (record s { world = open_menu shell menu w }) h))

  wnd_proc_off :
      (msg wparam lparam choice : ℕ) (shown boxed : Screen W → Screen W) (s : Screen W)
      → StaysOff shown
      → s.modal ≡ false
      → (wnd_proc shell host msg wparam lparam choice shown boxed s).1.modal ≡ false
  unfolding wnd_proc
  wnd_proc_off msg wparam lparam choice shown boxed s k h =
      let foreground = on_world shell.set_foreground_window s in
      let boxed_now = on_world shell.message_box s in
      let destroyed = on_world (λ w. shell.destroy_window (close_tray shell w)) s in
      ground (
        arith,
        show_popup_menu_off choice shown boxed foreground k h,
        on_command_off wparam shown s h,
        k boxed_now h,
        k destroyed h,
      )

  mutual
    unfolding dispatch

    dispatch_off :
        (e : Event) (s : Screen W) → s.modal ≡ false → (dispatch shell host e s).1.modal ≡ false
    dispatch_off (event msg wparam lparam choice shown boxed) s h =
        wnd_proc_off msg wparam lparam choice (dispatch_all shell host shown)
          (dispatch_all shell host boxed) s (dispatch_all_off shown) h

    dispatch_all_off :
        (es : Events) (s : Screen W)
        → s.modal ≡ false
        → (dispatch_all shell host es s).modal ≡ false
    dispatch_all_off done s h = h
    dispatch_all_off (then_next e es) s h =
        dispatch_all_off es (dispatch shell host e s).1 (dispatch_off e s h)

  -- Whatever message comes, and whatever messages come while its message boxes and its menu are
  -- open: if the flag was off before, it is off again after it.
  pub dispatch_modal :
      (e : Event) (s : Screen W) → s.modal ≡ false → (dispatch shell host e s).1.modal ≡ false
  dispatch_modal e s h = dispatch_off e s h
