-- ===== src/Tray/Menus.antt =====
-- The menus that tray.c creates and destroys.
use secure_rfid_login.Common.{
  ℕ, suc, ◌+◌, ◌-◌, ◌%◌, ◌≡◌, ap, ◌∙◌, Bool, true, false, List, minus_one, ℤ, if◌then◌else◌, codes,
  arith,
}
use secure_rfid_login.Host.{Host}
use secure_rfid_login.Reader.{close_rfid_reader}
use secure_rfid_login.Tray.{
  Shell, Screen, wm_app, wm_rbuttonup, wm_close, wm_initmenupopup, id_about, id_exit, id_notify,
  id_reset, serial_thread, on_world, open_menu, on_command, show_popup_menu, wnd_proc,
}

-- How many menus there are. Only `CreatePopupMenu` and `DestroyMenu` change their number.
pub record CountsMenus {W : Type 0} (shell : Shell W) (host : Host W) : Type 0 where
  pub menus : W → ℕ
  pub create_menus : (w : W) → menus (shell.create_popup_menu w).1 ≡ suc (menus w)
  pub destroy_menus : (menu : ℕ) (w : W) → menus (shell.destroy_menu menu w) ≡ menus w - 1
  pub box_menus : (w : W) → menus (shell.message_box w) ≡ menus w
  pub foreground_menus : (w : W) → menus (shell.set_foreground_window w) ≡ menus w
  pub post_menus : (msg : ℕ) (w : W) → menus (shell.post_message msg w) ≡ menus w
  pub thread_menus : (thread : ℕ) (w : W) → menus (shell.create_thread thread w) ≡ menus w
  pub proc_menus :
      (msg wparam lparam : ℕ) (w : W)
      → menus (shell.def_window_proc msg wparam lparam w).1 ≡ menus w
  pub insert_menus :
      (menu position item : ℕ) (text : List ℕ) (w : W)
      → menus (shell.insert_menu menu position item text w) ≡ menus w
  pub default_menus :
      (menu item : ℕ) (w : W) → menus (shell.set_menu_default_item menu item w) ≡ menus w
  pub focus_menus : (w : W) → menus (shell.set_focus w) ≡ menus w
  pub cursor_menus : (w : W) → menus (shell.get_cursor_pos w).1 ≡ menus w
  pub track_menus :
      (menu : ℕ) (place : ℕ × ℕ) (w : W) → menus (shell.track_popup_menu menu place w) ≡ menus w
  pub close_menus : (port : ℤ) (w : W) → menus (host.close_comport port w) ≡ menus w
  pub sleep_menus : (ms : ℕ) (w : W) → menus (host.sleep ms w) ≡ menus w

module _ {W : Type 0} (shell : Shell W) (host : Host W) (c : CountsMenus shell host) where
  -- What happens meanwhile leaves as many menus as there were.
  abbrev pub KeepsMenus : (Screen W → Screen W) → Type 0
  KeepsMenus f = (s : Screen W) → c.menus (f s).world ≡ c.menus s.world

  open_menus : (menu : ℕ) (w : W) → c.menus (open_menu shell menu w) ≡ c.menus w
  unfolding open_menu
  open_menus menu w =
      let w1 = shell.insert_menu menu 0 id_about (codes "About...") w in
      let w2 = shell.insert_menu menu 2 id_exit (codes "Exit") w1 in
      let w3 = shell.insert_menu menu 1 id_notify (codes "Notify") w2 in
      let w4 = shell.insert_menu menu 1 id_reset (codes "Reset") w3 in
      let w5 = shell.set_menu_default_item menu id_about w4 in
      let w6 = shell.set_focus w5 in
      let w7 = (shell.def_window_proc wm_initmenupopup menu 0 w6).1 in
      let (place, w8) = shell.get_cursor_pos w7 in
      c.track_menus menu place w8
      ∙ c.cursor_menus w7
      ∙ c.proc_menus wm_initmenupopup menu 0 w6
      ∙ c.focus_menus w5
      ∙ c.default_menus menu id_about w4
      ∙ c.insert_menus menu 1 id_reset (codes "Reset") w3
      ∙ c.insert_menus menu 1 id_notify (codes "Notify") w2
      ∙ c.insert_menus menu 2 id_exit (codes "Exit") w1
      ∙ c.insert_menus menu 0 id_about (codes "About...") w

  on_command_menus :
      (wparam : ℕ) (boxed : Screen W → Screen W) (s : Screen W)
      → KeepsMenus boxed
      → c.menus (on_command shell host wparam boxed s).1.world ≡ c.menus s.world
  unfolding on_command close_rfid_reader
  on_command_menus wparam boxed s k =
      let (closed, w) = close_rfid_reader host s.reader s.world in
      ground (
        arith,
        k (on_world shell.message_box (record s { modal = true })),
        c.box_menus s.world,
        c.post_menus wm_close s.world,
        c.thread_menus serial_thread (host.sleep 100 w),
        c.sleep_menus 100 w,
        c.close_menus minus_one s.world,
      )

  either :
      (b : Bool) (s t : Screen W) {n : ℕ}
      → c.menus s.world ≡ suc n
      → c.menus t.world ≡ n
      → c.menus (if b then s else t).world ≡ (if b then suc n else n)
  either true s t h k = h
  either false s t h k = k

  show_popup_menu_menus :
      (choice : ℕ) (shown boxed : Screen W → Screen W) (s : Screen W)
      → KeepsMenus shown
      → KeepsMenus boxed
      → c.menus (show_popup_menu shell host choice shown boxed s).world
        ≡ (if s.modal then suc (c.menus s.world) else c.menus s.world)
  unfolding show_popup_menu
  show_popup_menu_menus choice shown boxed s k l =
      let (menu, w) = shell.create_popup_menu s.world in
      let tracked : Screen W = record s { world = open_menu shell menu w } in
      let (_, ended) = on_command shell host (choice % 65536) boxed (shown tracked) in
      let one_more =
        on_command_menus (choice % 65536) boxed (shown tracked) l
        ∙ k tracked
        ∙ open_menus menu w
        ∙ c.create_menus s.world in
      either s.modal (record s { world = w }) (on_world (shell.destroy_menu menu) ended)
        (c.create_menus s.world) (omega (arith, c.destroy_menus menu ended.world, one_more))

  -- On a right click, with whatever is chosen in the menu and as long as what happens meanwhile
  -- leaves no menu behind: the menu that is created is destroyed again if the flag for an open
  -- message box is off, and stays if it is on.
  pub wnd_proc_menus :
      (wparam choice : ℕ) (shown boxed : Screen W → Screen W) (s : Screen W)
      → KeepsMenus shown
      → KeepsMenus boxed
      → c.menus (wnd_proc shell host wm_app wparam wm_rbuttonup choice shown boxed s).1.world
        ≡ (if s.modal then suc (c.menus s.world) else c.menus s.world)
  unfolding wnd_proc
  wnd_proc_menus wparam choice shown boxed s k l =
      let front = on_world shell.set_foreground_window s in
      let after = show_popup_menu shell host choice shown boxed front in
      c.post_menus (wm_app + 1) after.world
      ∙ show_popup_menu_menus choice shown boxed front k l
      ∙ ap (λ t. if s.modal then suc t else t) (c.foreground_menus s.world)
