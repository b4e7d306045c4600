-- ===== src/Tests/Races.antt =====
-- The two threads at concrete inputs.
use secure_rfid_login.Common.{
  ℕ, ◌+◌, arith, ◌≡◌, refl, eq_ℤ, pos, ok, List, [], ◌∷◌, replicate, c_str, codes,
}
use secure_rfid_login.Device.Frame.{frame}
use secure_rfid_login.Crypt.{dec_cfb, decrypt_data}
use secure_rfid_login.Database.{is_serial_present}
use secure_rfid_login.Reader.{Reader, load_fields, check_card}
use secure_rfid_login.Reader.Card.{check_card_ok}
use secure_rfid_login.Threads.{
  Shared, System, Reach, later, server_moves, polling, received, notifying, resting, stored,
  measure_password, copy_password, agreed,
}
use secure_rfid_login.Threads.Invariant.{SentInv}
use secure_rfid_login.Threads.Safety.{first_state, Reach-SentInv}
use secure_rfid_login.Threads.Passage.{reached, after, check_card-Reach}
use secure_rfid_login.Threads.Mixing.{replaced, both, asked_after, next_card, replaced-Reach}
use secure_rfid_login.Server.{Connection, receive}
use secure_rfid_login.Server.Credentials.{id_yes, callback_dumb_increment}
use secure_rfid_login.Server.Credentials.Release.{IsCard, answered}
use secure_rfid_login.Threads.Request.{with_sent, callback_dumb_increment-Reach}
use secure_rfid_login.Tests.World.{
  sim_connection, Sim, sim_db, sim_aes, sim_desktop, with_input, text, waiting,
}

-- A text of one letter, encrypted by the toy cipher.
abbrev raised : ℕ → List ℕ
raised c = (c + 1) ∷ replicate 63 1

abbrev message : List ℕ
message = frame (text 65) (text 66) (raised 67) (raised 68)

abbrev number : List ℕ
number = 1 ∷ 2 ∷ 3 ∷ 4 ∷ []

-- A card is read from the start of the program, and the page asks for it.
abbrev blank_shared : Shared
blank_shared = (first_state waiting).shared

abbrev loaded_shared : Shared
loaded_shared = replaced sim_aes [] [] blank_shared message number

abbrev served_shared : Shared
served_shared = record loaded_shared {
  sent =
      (
        stored 1 (c_str loaded_shared.globals.username),
        stored 1 (c_str loaded_shared.globals.password),
      )
      ∷ [];
}

abbrev served : System
served = record { shared = served_shared; reader = notifying; server = resting }

served-Reach : Reach sim_aes [] [] (first_state waiting) served
unfolding dec_cfb decrypt_data load_fields
served-Reach =
    later
      (later
        (later
          (both sim_aes [] []
            (reached sim_aes [] [] resting (next_card sim_aes [] [] blank_shared message number))
            (asked_after sim_aes [] [] loaded_shared notifying refl refl))
          (server_moves (measure_password {n = 1} refl)))
        (server_moves (copy_password {n = 1} {k = 1} refl)))
      (server_moves agreed)

Reach-SentInv_example : SentInv sim_aes [] [] served.shared.accepted served.shared.sent
Reach-SentInv_example = Reach-SentInv sim_aes [] [] waiting served served-Reach

abbrev present_shared : Shared
present_shared = record { globals = waiting; accepted = []; sent = [] }

replaced-Reach_example :
    let next = replaced sim_aes [] [] present_shared message number in
    Reach sim_aes [] []
      (record { shared = present_shared; reader = polling; server = resting })
      (record {
        shared = record next { sent = (c_str (text 67), c_str next.globals.password) ∷ [] };
        reader = notifying;
        server = resting;
      })
unfolding dec_cfb decrypt_data load_fields
replaced-Reach_example =
    replaced-Reach sim_aes [] [] present_shared message number {n = 1} {k = 1} refl refl refl refl
      refl

abbrev arrived_shared : Shared
arrived_shared = record { globals = record waiting { buff = message }; accepted = []; sent = [] }

abbrev known : Sim
known = record (with_input []) { rows = codes "0000" ∷ [] }

check_passed :
    (r : Reader × Sim) × (check_card sim_db sim_desktop sim_aes [] []
        (load_fields arrived_shared.globals)
        known
      ≡ ok r)
unfolding load_fields
check_passed =
    check_card_ok sim_db sim_desktop sim_aes [] [] (load_fields arrived_shared.globals) known 1 1
      refl refl refl (omega arith) (omega arith) (omega arith)

check_card-Reach_example :
    let answer =
      (is_serial_present sim_db (load_fields arrived_shared.globals).serialnumber known).0 in
    Reach sim_aes [] []
      (record { shared = arrived_shared; reader = received; server = resting })
      (record {
        shared = after sim_aes [] [] (eq_ℤ answer (pos 1)) arrived_shared check_passed.0.0;
        reader = polling;
        server = resting;
      })
check_card-Reach_example =
    check_card-Reach sim_aes [] [] sim_db sim_desktop arrived_shared resting check_passed.0.0 known
      check_passed.0.1 check_passed.1

waiting-IsCard : IsCard waiting
waiting-IsCard = record {
  username_size = refl;
  password_size = refl;
  user_length = 1;
  pass_length = 1;
  username_text = refl;
  password_text = refl;
}

abbrev page : Connection Sim
page = sim_connection (λ n. []) id_yes

callback_dumb_increment-Reach_example :
    (callback_dumb_increment page receive waiting (codes "INIT") [] [] (with_input [])
      ≡ ok (pos 0, answered page waiting (with_input [])))
    × Reach sim_aes [] []
        (record { shared = present_shared; reader = polling; server = resting })
        (record {
          shared = with_sent sim_aes [] [] present_shared (c_str (text 67)) (c_str (text 68));
          reader = polling;
          server = resting;
        })
callback_dumb_increment-Reach_example =
    callback_dumb_increment-Reach sim_aes [] [] page present_shared polling (codes "INIT") [] []
      (with_input []) waiting-IsCard (omega arith) refl
