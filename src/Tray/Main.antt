-- ===== src/Tray/Main.antt =====
-- The start of the program in tray.c: its registration, its window, its icon, its threads and its
-- messages.
pub mod Life
use secure_rfid_login.Common.{
  ℕ, ◌+◌, List, [], ◌∷◌, ◌++◌, if◌then◌else◌, Run, ok, ◌>>=◌, in_bounds, zeros, overwrite, strcpy,
  codes,
}
use secure_rfid_login.Host.{Host}
use secure_rfid_login.Reader.{Notification, notify_flags}
use secure_rfid_login.Startup.{Registry, register_if_doesnt_exist}
use secure_rfid_login.Tray.{
  Shell, Screen, on_world, wm_app, server_thread, serial_thread, Event, event, dispatch,
}

-- What `GetMessage` brings: a message, WM_QUIT with its code, or an error.
pub data Queue : Type 0 where
  message : Event → Queue → Queue
  quit : (wparam : ℕ) → Queue
  failed : Queue

-- The fields of `nData` that the icon starts with, and its text.
pub record Icon : Type 0 where
  pub id : ℕ
  pub flags : ℕ
  pub callback_message : ℕ
  pub tip : List ℕ

abbrev pub tip_text : List ℕ
tip_text = codes "Secure RFID Login: Argo"

-- `szTip` has 128 bytes, like the array that is copied into it.
pub start_tray : {W : Type 0} (shell : Shell W) → W → Run (Icon × W)
start_tray shell w = do
  tip ← in_bounds (strcpy (zeros 128) (overwrite (zeros 128) tip_text))
  ok (
    record { id = 100; flags = 2 + 1 + 4; callback_message = wm_app; tip = tip },
    shell.notify_icon 0 w,
  )

-- `sendNotification`, which nothing calls.
pub send_sample_notification :
    {W : Type 0} (shell : Shell W) → Notification → W → Run (Notification × W)
send_sample_notification shell n w = do
  info ← in_bounds (strcpy n.info (codes "Description here!" ++ 0 ∷ []))
  title ← in_bounds (strcpy n.info_title (codes "I'm the Title!" ++ 0 ∷ []))
  ok (
    record { flags = notify_flags; info = info; info_title = title; info_flags = 1 },
    shell.notify_icon 1 w,
  )

module _ {W : Type 0} (shell : Shell W) (host : Host W) where
  -- The message loop, and the code that `WinMain` returns: `last` is the one of the last message.
  -- `TranslateMessage`, which only adds messages for characters, is left out.
  pub message_loop : Queue → (last : ℕ) → Screen W → ℕ × Screen W
  message_loop (message (event msg wparam lparam choice shown boxed) q) last s =
      message_loop q wparam (dispatch shell host (event msg wparam lparam choice shown boxed) s).1
  message_loop (quit wparam) last s = (wparam, s)
  message_loop failed last s = (last, s)

module _ {W : Type 0} (shell : Shell W) (host : Host W) (registry : Registry W) where
  pub win_main :
      (path checked copied value : List ℕ) (last : ℕ) → Queue → Screen W → Run (ℕ × Screen W)
  unfolding message_loop start_tray
  win_main path checked copied value last q s = do
    w ←
        register_if_doesnt_exist registry path checked copied value
          (codes "Secure-RFID-Login: Argo") s.world
    let (registered, w1) = shell.register_class w
    let (created, w2) = shell.create_window w1
    if registered
        then (if created
            then (do
              (icon, w3) ← start_tray shell (shell.update_window w2)
              let w4 = shell.create_thread serial_thread (shell.create_thread server_thread w3)
              let (code, end) = message_loop shell host q last (record s { world = w4 })
              ok (code, on_world shell.unregister_class end))
            else ok (0, record s { world = shell.message_box w2 }))
        else ok (0, record s { world = shell.message_box w1 })
