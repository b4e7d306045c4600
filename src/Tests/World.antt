-- ===== src/Tests/World.antt =====
-- A simulated machine for the tests: the bytes that the board will send, a clock, what was sent,
-- and the database's table.
use secure_rfid_login.Common.{
  ℕ, zero, suc, ◌+◌, ◌-◌, ◌/◌, ◌≤◌, ◌≡◌, refl, sym, ap, ap₂, ◌∙◌, Bool, true, false, none, some,
  List, [], ◌∷◌, ◌++◌, ℤ, pos, if◌then◌else◌, ltb, ◌==◌, zeros, get_or, length, take, drop,
  take-append, take-append-drop, take-overwrite, length-take, length-append, length-overwrite,
  overwrite, codes, arith,
}
use secure_rfid_login.Host.{Host, IsStream, Ticks}
use secure_rfid_login.Database.{Mysql}
use secure_rfid_login.Database.Table.{insert_statement, select_statement, Serves, matching, first}
use secure_rfid_login.Crypt.{Aes, Mode, aes_encrypt, aes_decrypt}
use secure_rfid_login.Crypt.Laws.{IsCfb}
use secure_rfid_login.Reader.{Desktop, Notification, Reader}
use secure_rfid_login.Server.{Connection}

pub record Sim : Type 0 where
  pub input : List ℕ
  pub clock : ℕ
  pub sent : List ℕ
  pub rows : List (List ℕ)
  pub pending : List (List ℕ)
  pub handles : ℕ
  pub balloons : ℕ
  pub page : List (List ℕ)

-- The board is on COM4; the clock has four ticks a second.
abbrev pub sim_host : Host Sim
sim_host = record {
  open_comport = λ p baud w. (if p == 3 then 0 else 1, w);
  close_comport = λ p w. w;
  send_buf = λ p bytes w. (pos (length bytes), record w { sent = w.sent ++ bytes });
  cputs = λ p text w. record w { sent = w.sent ++ text };
  poll_comport =
      λ p n w. (take n w.input, record w { input = drop n w.input; clock = w.clock + 1 });
  sleep = λ ms w. w;
  time = λ w. w.clock / 4;
}

abbrev pub sim_stream : (port : ℤ) → IsStream sim_host port
sim_stream port = record {
  input = λ w. w.input;
  poll_input = λ n w. (omega (arith, length-take n w.input), sym (take-append-drop n w.input));
  sleep_input = λ ms w. refl;
  cputs_input = λ text w. refl;
}

abbrev pub sim_ticks : (port : ℤ) → Ticks sim_host port
sim_ticks port = record {
  ticks = λ w. w.clock;
  rate = 4;
  rate_pos = omega arith;
  time-ticks = λ w. refl;
  poll_ticks = λ n w. omega arith;
}

-- The text between the quotes of a query.
abbrev quoted : ℕ → ℕ → List ℕ → List ℕ
quoted before behind q = take (length (drop before q) - behind) (drop before q)

quoted_lem : (text q : List ℕ) {n : ℕ} → n ≡ length text → take n (text ++ q) ≡ text
quoted_lem text q e = rw e (take-append text q refl)

abbrev run_query : List ℕ → Sim → Bool × Sim
run_query q w =
    if get_or q 0 0 == b'I'
    then (true, record w { rows = quoted 46 2 q ∷ w.rows })
    else (true, record w { pending = matching (quoted 55 1 q) w.rows })

abbrev rest_of : List (List ℕ) → List (List ℕ)
rest_of [] = []
rest_of (row ∷ rows) = rows

abbrev pub sim_db : Mysql Sim
sim_db = record {
  init = λ w. (true, record w { handles = w.handles + 1 });
  real_connect = λ w. (true, w);
  query = run_query;
  store_result = λ w. (true, w);
  fetch_row = λ w. (first w.pending, record w { pending = rest_of w.pending });
  close = λ w. record w { handles = w.handles - 1 };
}

insert_lem :
    (text : List ℕ) (w : Sim)
    → run_query (insert_statement text) w ≡ (true, record w { rows = text ∷ w.rows })
insert_lem text w =
    ap (λ t. (true, record w { rows = t ∷ w.rows }))
      (quoted_lem text (codes "')") (omega (arith, length-append text (codes "')"))))

select_lem :
    (text : List ℕ) (w : Sim)
    → run_query (select_statement text) w ≡ (true, record w { pending = matching text w.rows })
select_lem text w =
    ap (λ t. (true, record w { pending = matching t w.rows }))
      (quoted_lem text (codes "'") (omega (arith, length-append text (codes "'"))))

pub sim-Serves : Serves sim_db
sim-Serves = record {
  rows = λ w. w.rows;
  pending = λ w. w.pending;
  init_rows = λ w. (refl, refl);
  connect_rows = λ w. (refl, refl);
  insert_rows = λ s w plain. let e = insert_lem s w in (ap (λ t. t.0) e, ap (λ t. t.1.rows) e);
  select_rows = λ s w plain.
      let e = select_lem s w in (ap (λ t. t.0) e, ap (λ t. t.1.rows) e, ap (λ t. t.1.pending) e);
  store_rows = λ w. (refl, refl, refl);
  fetch_rows = λ w. (refl, refl);
  close_rows = λ w. refl;
}

-- A toy cipher: every byte is raised by one, and lowered again.
abbrev shift : Mode → List ℕ → List ℕ
shift m [] = []
shift aes_encrypt (b ∷ bs) = (b + 1) ∷ shift aes_encrypt bs
shift aes_decrypt (b ∷ bs) = (b - 1) ∷ shift aes_decrypt bs

shift_back : (bs : List ℕ) → shift aes_decrypt (shift aes_encrypt bs) ≡ bs
shift_back [] = refl
shift_back (b ∷ bs) = ap₂ ◌∷◌ (omega arith) (shift_back bs)

take-shift : (n : ℕ) (m : Mode) (bs : List ℕ) → take n (shift m bs) ≡ shift m (take n bs)
take-shift zero m bs = refl
take-shift (suc n) m [] = refl
take-shift (suc n) aes_encrypt (b ∷ bs) = ap (λ t. (b + 1) ∷ t) (take-shift n aes_encrypt bs)
take-shift (suc n) aes_decrypt (b ∷ bs) = ap (λ t. (b - 1) ∷ t) (take-shift n aes_decrypt bs)

length-shift : (m : Mode) (bs : List ℕ) → length (shift m bs) ≡ length bs
length-shift m [] = refl
length-shift aes_encrypt (b ∷ bs) = ap suc (length-shift aes_encrypt bs)
length-shift aes_decrypt (b ∷ bs) = ap suc (length-shift aes_decrypt bs)

abbrev pub sim_aes : Aes Unit
sim_aes = record {
  setkey_enc = λ key bits. if bits == 128 then some tt else none;
  crypt_cfb8 = λ ctx m len iv input output. (true, overwrite output (take len (shift m input)));
}

-- What is left of a call's output.
crypt_lem :
    (m : Mode) (len : ℕ) (input output : List ℕ)
    → len ≤ length input
    → len ≤ length output
    → take len (overwrite output (take len (shift m input))) ≡ take len (shift m input)
crypt_lem m len input output h k =
    let n : length (take len (shift m input)) ≡ len =
      omega (arith, length-take len (shift m input), length-shift m input) in
    ap (λ t. take t (overwrite output (take len (shift m input)))) (sym n)
    ∙ take-overwrite output (take len (shift m input)) (omega arith)

pub sim_aes-IsCfb : (key : List ℕ) → IsCfb sim_aes key
sim_aes-IsCfb key = record {
  context = tt;
  accepts_key = refl;
  succeeds = λ m len iv input output h k. refl;
  keeps_size = λ m len iv input output. length-overwrite output (take len (shift m input));
  decrypts = λ len iv input out_1 out_2 h k l.
      let cipher : List ℕ = overwrite out_1 (take len (shift aes_encrypt input)) in
      crypt_lem aes_decrypt len cipher out_2
        (omega (arith, length-overwrite out_1 (take len (shift aes_encrypt input)))) l
      ∙ take-shift len aes_decrypt cipher
      ∙ ap (shift aes_decrypt) (crypt_lem aes_encrypt len input out_1 h k)
      ∙ sym (take-shift len aes_decrypt (shift aes_encrypt input))
      ∙ ap (take len) (shift_back input);
}

abbrev pub sim_desktop : Desktop Sim
sim_desktop = record {
  modify_icon = λ n w. record w { balloons = w.balloons + 1 };
  system = λ command w. w;
}

-- The board has `bytes` to send; everything else is at its start.
abbrev pub with_input : List ℕ → Sim
with_input bytes = record {
  input = bytes;
  clock = 0;
  sent = [];
  rows = [];
  pending = [];
  handles = 0;
  balloons = 0;
  page = [];
}

-- A connection of a page with the given headers, and a user who gives the given answer.
abbrev pub sim_connection : (headers : ℕ → List ℕ) (answer : ℕ) → Connection Sim
sim_connection headers answer = record {
  hdr_total_length = λ n w. length (headers n);
  hdr_copy = λ n buf size w.
      if ltb (length (headers n)) size then overwrite buf (headers n ++ 0 ∷ []) else buf;
  write = λ bytes w. (pos (length bytes), record w { page = w.page ++ (bytes ∷ []) });
  send_pipe_choked = λ w. false;
  callback_on_writable = λ w. w;
  callback_on_writable_all = λ w. w;
  rx_flow_control = λ on w. w;
  rx_flow_allow_all = λ w. w;
  message_box = λ w. (answer, w);
}

-- A text of one letter in a block of 64 bytes.
abbrev pub text : ℕ → List ℕ
text c = c ∷ zeros 63

abbrev pub notify : Notification
notify = record { flags = 0; info = zeros 256; info_title = zeros 64; info_flags = 0 }

-- The reader's globals with an open port.
abbrev pub waiting : Reader
waiting = record {
  port = pos 3;
  response_buffer = zeros 2;
  buff = zeros 260;
  name = text 65;
  surname = text 66;
  username = text 67;
  password = text 68;
  is_data_present = true;
  notification = notify;
  enc_username = zeros 64;
  enc_password = zeros 64;
  serialnumber = zeros 4;
}
