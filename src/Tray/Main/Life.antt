-- ===== src/Tray/Main/Life.antt =====
-- A whole run of the program in tray.c, from its start to WM_QUIT.
use secure_rfid_login.Common.{ℕ, ◌≡◌, refl, true, false, List, codes, ok, length}
use secure_rfid_login.Host.{Host}
use secure_rfid_login.Startup.{Registry}
use secure_rfid_login.Startup.Again.{Works, register_if_doesnt_exist_lem}
use secure_rfid_login.Tray.{Shell, Screen, event, dispatch}
use secure_rfid_login.Tray.Modal.{dispatch_modal}
use secure_rfid_login.Tray.Main.{Queue, message, quit, failed, start_tray, message_loop, win_main}

-- The code that the queue ends with, if the messages before it had the code `last`.
abbrev pub code_of : Queue → (last : ℕ) → ℕ
code_of (message (event msg wparam lparam choice shown boxed) q) last = code_of q wparam
code_of (quit wparam) last = wparam
code_of failed last = last

abbrev pub title : List ℕ
title = codes "Secure-RFID-Login: Argo"

module _ {W : Type 0} (shell : Shell W) (host : Host W) where
  message_loop_lem :
      (q : Queue) (last : ℕ) (s : Screen W)
      → s.modal ≡ false
      → ((message_loop shell host q last s).0 ≡ code_of q last)
        × ((message_loop shell host q last s).1.modal ≡ false)
  unfolding message_loop
  message_loop_lem (message (event msg wparam lparam choice shown boxed) q) last s h =
      let e = event msg wparam lparam choice shown boxed in
      message_loop_lem q wparam (dispatch shell host e s).1 (dispatch_modal shell host e s h)
  message_loop_lem (quit wparam) last s h = (refl, h)
  message_loop_lem failed last s h = (refl, h)

module _ {W : Type 0} (shell : Shell W) (host : Host W) (registry : Registry W)
    (r : Works registry title) where
  -- On a registry that may be read and written, and if Windows registers the window's class and
  -- creates the window: the program comes back when WM_QUIT comes, or when no message can be got,
  -- with the code of WM_QUIT or of the last message before; whatever messages came, the flag for an
  -- open message box is off at the end if it was at the start.
  pub win_main_lem :
      (path checked copied value : List ℕ) (last : ℕ) (q : Queue) (s : Screen W)
      → length checked ≡ 260
      → length copied ≡ 260
      → length value ≡ 520
      → ((w : W) → (shell.register_class w).0 ≡ true)
      → ((w : W) → (shell.create_window w).0 ≡ true)
      → s.modal ≡ false
      → (t : Screen W) × (win_main shell host registry path checked copied value last q s
          ≡ ok (code_of q last, t))
        × (t.modal ≡ false)
  unfolding win_main start_tray
  win_main_lem path checked copied value last q s h k l registers creates off =
      let (w, started, after) =
        register_if_doesnt_exist_lem registry title r path checked copied value s.world h k l in
      let w1 = (shell.register_class w).1 in
      let w2 = (shell.create_window w1).1 in
      let w3 = shell.notify_icon 0 (shell.update_window w2) in
      let w4 = shell.create_thread 1 (shell.create_thread 0 w3) in
      let ready : Screen W = record s { world = w4 } in
      let (code, still_off) = message_loop_lem shell host q last ready off in
      let end = (message_loop shell host q last ready).1 in
      (
        record end { world = shell.unregister_class end.world },
        rw (started, registers w, creates w1, code) refl,
        still_off,
      )
