-- ===== src/Tests/Uarts.antt =====
-- The stand-alone tool at concrete inputs: a port whose attributes can be set, and a board that is
-- silent.
use secure_rfid_login.Common.{
  ◌≡◌, refl, [], ℤ, pos, minus_one, eq_ℤ, Bool, true, false, if◌then◌else◌, zeros,
}
use secure_rfid_login.Uart.{Termios, Uart, init_serial, listen_for_incoming_message}
use secure_rfid_login.Uart.Descriptors.{HoldsDescriptors, listen_for_incoming_message_descriptors}

record Port : Type 0 where
  tty : Termios
  held : ℤ → Bool

-- Writing to this port fails.
abbrev port : Uart Port
port = record {
  open_uart = λ w. (pos 3, record w { held = λ q. if eq_ℤ q (pos 3) then true else w.held q });
  tcgetattr = λ usb w. (pos 0, w.tty, w);
  tcsetattr = λ usb tty w. (pos 0, record w { tty = tty });
  usleep = λ us w. w;
  tcflush = λ usb w. w;
  read = λ usb n w. (minus_one, [], w);
  write = λ usb bytes w. (minus_one, w);
  close = λ usb w. (pos 0, record w { held = λ q. if eq_ℤ q usb then false else w.held q });
}

-- A terminal with ICANON (2) and ECHO (8) among its local modes.
abbrev terminal : Termios
terminal = record {
  c_iflag = 1280;
  c_oflag = 5;
  c_cflag = 191;
  c_lflag = 35387;
  vmin = 1;
  vtime = 0;
  ospeed = 15;
  ispeed = 15;
}

abbrev plugged : Port
plugged = record { tty = terminal; held = λ q. false }

port-HoldsDescriptors : HoldsDescriptors port
port-HoldsDescriptors = record {
  is_open = λ q w. w.held q;
  open_opens = λ q w h. refl;
  get_keeps = λ q usb w. refl;
  set_keeps = λ q usb tty w. refl;
  sleep_keeps = λ q us w. refl;
  flush_keeps = λ q usb w. refl;
  read_keeps = λ q usb n w. refl;
  write_keeps = λ q usb bytes w. refl;
  close_closes = λ q usb w. refl;
}

-- INIT cannot be sent, and the descriptor stays open.
listen_for_incoming_message_descriptors_example :
    (listen_for_incoming_message port (zeros 129) plugged).1.held (pos 3)
    ≡ eq_ℤ (init_serial port plugged).0 minus_one
unfolding port-HoldsDescriptors
listen_for_incoming_message_descriptors_example =
    listen_for_incoming_message_descriptors port port-HoldsDescriptors (pos 3) (zeros 129) plugged
      refl
