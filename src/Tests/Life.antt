-- ===== src/Tests/Life.antt =====
-- A whole run of tray.c at a concrete input: a right click, the item About, and the end.
use secure_rfid_login.Common.{◌≡◌, refl, true, false, [], pos, ok, length, zeros}
use secure_rfid_login.Host.{Host}
use secure_rfid_login.Tray.{Shell, Screen, wm_app, wm_rbuttonup, id_about, event, done}
use secure_rfid_login.Tray.Main.{Queue, message, quit, win_main}
use secure_rfid_login.Tray.Main.Life.{win_main_lem}
use secure_rfid_login.Tests.Starts.{Machine, registry, registry_works, fresh}
use secure_rfid_login.Tests.World.{waiting}

abbrev shell : Shell Machine
shell = record {
  message_box = λ w. w;
  set_foreground_window = λ w. w;
  post_message = λ msg w. w;
  create_thread = λ thread w. w;
  notify_icon = λ operation w. w;
  destroy_window = λ w. w;
  post_quit_message = λ w. w;
  def_window_proc = λ msg wparam lparam w. (pos 0, w);
  create_popup_menu = λ w. (0, w);
  insert_menu = λ menu position item text w. w;
  set_menu_default_item = λ menu item w. w;
  set_focus = λ w. w;
  get_cursor_pos = λ w. ((0, 0), w);
  track_popup_menu = λ menu place w. w;
  destroy_menu = λ menu w. w;
  register_class = λ w. (true, w);
  create_window = λ w. (true, w);
  update_window = λ w. w;
  unregister_class = λ w. w;
}

abbrev host : Host Machine
host = record {
  open_comport = λ p baud w. (1, w);
  close_comport = λ p w. w;
  send_buf = λ p bytes w. (pos (length bytes), w);
  cputs = λ p text w. w;
  poll_comport = λ p n w. ([], w);
  sleep = λ ms w. w;
  time = λ w. 0;
}

abbrev at_start : Screen Machine
at_start = record { modal = false; reader = waiting; world = fresh }

abbrev messages : Queue
messages = message (event wm_app 0 wm_rbuttonup id_about done done) (quit 5)

win_main_lem_example :
    (t : Screen Machine) × (win_main shell host registry
        (zeros 260)
        (zeros 260)
        (zeros 260)
        (zeros 520)
        0
        messages
        at_start
      ≡ ok (5, t))
    × (t.modal ≡ false)
win_main_lem_example =
    win_main_lem shell host registry registry_works (zeros 260) (zeros 260) (zeros 260) (zeros 520)
      0 messages at_start refl refl refl (λ w. refl) (λ w. refl) refl
