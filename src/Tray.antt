-- ===== src/Tray.antt =====
-- app/libwebsockets-master/srl/tray.c: the window procedure of the icon in the tray, its menu, and
-- the program's start. Windows' calls stand here as an interface. A message box, an open menu and
-- the destruction of the window let Windows call the window procedure again before they return;
-- what it then does to the state is an argument, and `dispatch` ties the knot.
pub mod Modal
pub mod Menus
pub mod Main
use secure_rfid_login.Common.{
  ℕ, zero, suc, ◌+◌, ◌*◌, ◌%◌, Bool, true, false, Option, none, some, List, [], ◌∷◌, ◌++◌, ℤ, pos,
  if◌then◌else◌, ◌==◌, Run, ok, fault, ◌>>=◌, in_bounds, zeros, strcpy, codes,
}
use secure_rfid_login.Host.{Host}
use secure_rfid_login.Reader.{Reader, Notification, close_rfid_reader, notify_flags}

-- What tray.c calls of Windows. `notify_icon` gets the operation (NIM_ADD, NIM_MODIFY, NIM_DELETE).
pub record Shell (W : Type 0) : Type 0 where
  pub message_box : W → W
  pub set_foreground_window : W → W
  pub post_message : (msg : ℕ) → W → W
  pub create_thread : (thread : ℕ) → W → W
  pub notify_icon : (operation : ℕ) → W → W
  pub destroy_window : W → W
  pub post_quit_message : W → W
  pub def_window_proc : (msg wparam lparam : ℕ) → W → ℤ × W
  pub create_popup_menu : W → ℕ × W
  pub insert_menu : (menu position item : ℕ) (text : List ℕ) → W → W
  pub set_menu_default_item : (menu item : ℕ) → W → W
  pub set_focus : W → W
  pub get_cursor_pos : W → (ℕ × ℕ) × W
  pub track_popup_menu : (menu : ℕ) (place : ℕ × ℕ) → W → W
  pub destroy_menu : (menu : ℕ) → W → W
  pub register_class : W → Bool × W
  pub create_window : W → Bool × W
  pub update_window : W → W
  pub unregister_class : W → W

-- WM_DESTROY, WM_CLOSE, WM_COMMAND, WM_INITMENUPOPUP, WM_RBUTTONUP, WM_LBUTTONDBLCLK and WM_APP.
abbrev pub wm_destroy : ℕ
wm_destroy = 2

abbrev pub wm_close : ℕ
wm_close = 16

abbrev pub wm_command : ℕ
wm_command = 273

abbrev pub wm_initmenupopup : ℕ
wm_initmenupopup = 279

abbrev pub wm_lbuttondblclk : ℕ
wm_lbuttondblclk = 515

abbrev pub wm_rbuttonup : ℕ
wm_rbuttonup = 517

abbrev pub wm_app : ℕ
wm_app = 32768

abbrev pub id_about : ℕ
id_about = 2000

abbrev pub id_exit : ℕ
id_exit = 2001

abbrev pub id_notify : ℕ
id_notify = 2002

abbrev pub id_reset : ℕ
id_reset = 2003

-- The two threads that the program starts.
abbrev pub server_thread : ℕ
server_thread = 0

abbrev pub serial_thread : ℕ
serial_thread = 1

-- `g_bModalState`, the reader's globals and the rest of the machine.
pub record Screen (W : Type 0) : Type 0 where
  pub modal : Bool
  pub reader : Reader
  pub world : W

abbrev pub on_world : {W : Type 0} → (W → W) → Screen W → Screen W
on_world f s = record s { world = f s.world }

module _ {W : Type 0} (shell : Shell W) where
  pub close_tray : W → W
  close_tray w = shell.notify_icon 2 w

  -- `DefWindowProc`
  abbrev pub def_proc : (msg wparam lparam : ℕ) → Screen W → ℤ × Screen W
  def_proc msg wparam lparam s =
      let (result, w) = shell.def_window_proc msg wparam lparam s.world in
      (result, record s { world = w })

  -- The items are put in, the menu is announced (WM_INITMENUPOPUP comes to the window procedure, which
  -- hands it on) and opened where the cursor is.
  pub open_menu : (menu : ℕ) → W → W
  open_menu menu w =
      let w1 = shell.insert_menu menu 0 id_about (codes "About...") w in
      let w2 = shell.insert_menu menu 2 id_exit (codes "Exit") w1 in
      let w3 = shell.insert_menu menu 1 id_notify (codes "Notify") w2 in
      let w4 = shell.insert_menu menu 1 id_reset (codes "Reset") w3 in
      let w5 = shell.set_focus (shell.set_menu_default_item menu id_about w4) in
      let (_, w6) = shell.def_window_proc wm_initmenupopup menu 0 w5 in
      let (place, w7) = shell.get_cursor_pos w6 in shell.track_popup_menu menu place w7

module _ {W : Type 0} (shell : Shell W) (host : Host W) where
  -- The WM_COMMAND branch. The test of `g_bModalState` stands before the first `case`, where no jump
  -- comes to it.
  pub on_command : (wparam : ℕ) (boxed : Screen W → Screen W) → Screen W → ℤ × Screen W
  on_command wparam boxed s =
      let id = wparam % 65536 in
      let about = boxed (on_world shell.message_box (record s { modal = true })) in
      let (closed, w) = close_rfid_reader host s.reader s.world in
      if id == id_about
      then (pos 0, record about { modal = false })
      else if id == id_exit
      then (pos 0, on_world (shell.post_message wm_close) s)
      else if id == id_reset
      then (
        pos 0,
        record s { reader = closed; world = shell.create_thread serial_thread (host.sleep 100 w) },
      )
      else (pos 0, s)

  -- `choice` is the item that the user takes, `shown` what happens while the menu is open, `boxed`
  -- while a message box of the chosen command is.
  pub show_popup_menu : (choice : ℕ) (shown boxed : Screen W → Screen W) → Screen W → Screen W
  unfolding on_command open_menu
  show_popup_menu choice shown boxed s =
      let (menu, w) = shell.create_popup_menu s.world in
      let opened = shown (record s { world = open_menu shell menu w }) in
      let (_, ended) = on_command (choice % 65536) boxed opened in
      if s.modal then record s { world = w } else on_world (shell.destroy_menu menu) ended

  unfoldable pub wnd_proc :
      (msg wparam lparam choice : ℕ) (shown boxed : Screen W → Screen W) → Screen W → ℤ × Screen W
  unfolding show_popup_menu close_tray
  wnd_proc msg wparam lparam choice shown boxed s =
      let menu = show_popup_menu choice shown boxed (on_world shell.set_foreground_window s) in
      let destroyed = shown (on_world (λ w. shell.destroy_window (close_tray shell w)) s) in
      if msg == wm_app
      then (if lparam == wm_lbuttondblclk
          then (pos 0, shown (on_world shell.message_box s))
          else if lparam == wm_rbuttonup
          then (pos 0, on_world (shell.post_message (wm_app + 1)) menu)
          else (pos 0, s))
      else if msg == wm_command
      then on_command wparam shown s
      else if msg == wm_close
      then def_proc shell msg wparam lparam destroyed
      else if msg == wm_destroy
      then def_proc shell msg wparam lparam (on_world shell.post_quit_message s)
      else def_proc shell msg wparam lparam s

-- A message with what comes to the window procedure while a box or the menu is open (`shown`), or a
-- box of the command that was chosen in the menu (`boxed`).
mutual
  pub data Event : Type 0 where
    event : (msg wparam lparam choice : ℕ) (shown boxed : Events) → Event

  pub data Events : Type 0 where
    done : Events
    then_next : Event → Events → Events

module _ {W : Type 0} (shell : Shell W) (host : Host W) where
  -- `DispatchMessage`, with all that it leads to.
  mutual
    unfolding wnd_proc

    pub dispatch : Event → Screen W → ℤ × Screen W
    dispatch (event msg wparam lparam choice shown boxed) s =
        wnd_proc shell host msg wparam lparam choice (dispatch_all shown) (dispatch_all boxed) s

    pub dispatch_all : Events → Screen W → Screen W
    dispatch_all done s = s
    dispatch_all (then_next e es) s = dispatch_all es (dispatch e s).1
