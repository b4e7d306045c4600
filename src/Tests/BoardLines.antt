-- ===== src/Tests/BoardLines.antt =====
-- A message on argoRFID_Writer.ino at concrete inputs: a board with a serial line and no card.
use secure_rfid_login.Common.{
  ℕ, suc, zero, sym, ◌%◌, ◌≤◌, ◌<◌, ◌≡◌, refl, ap, false, some, List, [], ◌∷◌, ◌++◌, map, ℤ, pos,
  minus_one, length, take, zeros, get_or, arith,
}
use secure_rfid_login.Board.{Uno, Mfrc522}
use secure_rfid_login.Board.Writing.{Board, receive_message}
use secure_rfid_login.Board.Writing.Arrays.{at}
use secure_rfid_login.Board.Writing.Collect.{Queue, Holds, Collects}
use secure_rfid_login.Board.Writing.Receive.{receive_message-Collects}
use secure_rfid_login.Board.Writing.Blocks.{calls, Brings}
use secure_rfid_login.Board.Writing.Message.{calls-Brings}
use secure_rfid_login.Tests.World.{text}

-- What waits on the line.
pub record SerialLine : Type 0 where
  pub waiting : List ℕ
  pub fits : length waiting ≤ 64

abbrev rest_of : List ℕ → List ℕ
rest_of [] = []
rest_of (b ∷ bytes) = bytes

pub shorter : (bytes : List ℕ) → length bytes ≤ 64 → length (rest_of bytes) ≤ 64
shorter [] h = h
shorter (b ∷ bytes) h = omega arith

abbrev next : List ℕ → ℤ
next [] = minus_one
next (b ∷ bytes) = pos (b % 256)

abbrev pub line_uno : Uno SerialLine
line_uno = record {
  available = λ w. length w.waiting;
  read = λ w.
      (next w.waiting, record { waiting = rest_of w.waiting; fits = shorter w.waiting w.fits });
  find = λ what w. (false, w);
  print = λ what w. w;
  println = λ what w. w;
  print_hex = λ b w. w;
  delay = λ ms w. w;
}

-- No card lies on it.
abbrev pub no_card : Mfrc522 SerialLine
no_card = record {
  status_ok = 0;
  status_name = λ status. [];
  uid = λ w. [];
  is_new_card_present = λ w. (false, w);
  read_card_serial = λ w. (false, w);
  halt_a = λ w. w;
  stop_crypto1 = λ w. w;
  authenticate = λ trailer key w. (1, w);
  mifare_write = λ block bytes w. (1, w);
  mifare_read = λ block w. (1, [], w);
}

pub length-map : (bytes : List ℕ) → length (map (λ b. b % 256) bytes) ≡ length bytes
length-map [] = refl
length-map (b ∷ bytes) = ap suc (length-map bytes)

abbrev pub as_bytes : SerialLine → List ℕ
as_bytes w = map (λ b. b % 256) w.waiting

pub first_byte :
    (bytes : List ℕ) {b : ℕ} {rest : List ℕ}
    → map (λ c. c % 256) bytes ≡ b ∷ rest
    → (b < 256) × (next bytes ≡ pos b) × (map (λ c. c % 256) (rest_of bytes) ≡ rest)
first_byte [] e = cc
first_byte (c ∷ bytes) {b} e =
    let head : c % 256 ≡ b = ap (λ t. get_or t 0 0) e in
    (omega (arith, head), ap pos head, ap rest_of e)

unfoldable pub queue : Queue line_uno
queue = record {
  pending = as_bytes;
  capacity = 64;
  bounded = λ w. omega (arith, length-map w.waiting, w.fits);
  available-pending = λ w. sym (length-map w.waiting);
  read_pending = λ w e. first_byte w.waiting e;
}

abbrev line : (bytes : List ℕ) → length bytes ≤ 64 → SerialLine
line bytes h = record { waiting = bytes; fits = h }

-- Sixteen bytes that come in at once, and the number of a block with the zeros behind it.
abbrev pub chunk : ℕ → SerialLine
chunk c = line (c ∷ zeros 15) (omega arith)

abbrev pub linked : Board
linked = record {
  nome = zeros 65;
  cognome = zeros 65;
  user = zeros 65;
  psw = zeros 65;
  num_of_block = 0;
  num_of_byte = 0;
  connection_done = 1;
  block_ready = 0;
}

abbrev pub nothing : ℕ → List ℕ
nothing i = []

sizes : (i : ℕ) → i < 4 → length (at linked i) ≡ 65
sizes zero h = refl
sizes (suc zero) h = refl
sizes (suc (suc zero)) h = refl
sizes (suc (suc (suc zero))) h = refl
sizes (suc (suc (suc (suc i)))) h = absurd (omega arith)

pub linked-Holds : Holds nothing [] linked
linked-Holds = record {
  block = omega arith;
  byte = refl;
  bound = omega arith;
  size = sizes;
  full = λ i h. absurd (omega arith);
  current = refl;
}

receive_message-Collects_example :
    (s' : Board) × (w' : SerialLine) × (receive_message line_uno no_card 65 65 linked (chunk 65)
      ≡ some (s', w'))
    × (as_bytes w' ≡ [])
    × Collects nothing (65 ∷ zeros 15) linked s'
unfolding queue
receive_message-Collects_example =
    receive_message-Collects line_uno no_card queue 65 nothing [] linked (chunk 65) linked-Holds
      (omega arith)

abbrev pub chunks : ℕ → List SerialLine
chunks c = chunk c ∷ chunk 0 ∷ chunk 0 ∷ chunk 0 ∷ []

brought_1 : Brings line_uno no_card queue (text 65) 0x30 (chunks 65) (chunk 0x30)
unfolding queue
brought_1 = record { junk = zeros 15; before = omega arith; comes = refl }

brought_2 : Brings line_uno no_card queue (text 66) 0x31 (chunks 66) (chunk 0x31)
unfolding queue
brought_2 = record { junk = zeros 15; before = omega arith; comes = refl }

brought_3 : Brings line_uno no_card queue (text 67) 0x32 (chunks 67) (chunk 0x32)
unfolding queue
brought_3 = record { junk = zeros 15; before = omega arith; comes = refl }

brought_4 : Brings line_uno no_card queue (text 68) 0x33 (chunks 68) (chunk 0x33)
unfolding queue
brought_4 = record { junk = zeros 15; before = omega arith; comes = refl }

calls-Brings_example :
    (s' : Board) × (calls line_uno no_card 65
        (chunks 65
          ++ (chunk 0x30
              ∷ (chunks 66
                  ++ (chunk 0x31
                      ∷ (chunks 67 ++ (chunk 0x32 ∷ (chunks 68 ++ (chunk 0x33 ∷ []))))))))
        linked
      ≡ some s')
    × (s'.block_ready ≡ 1)
    × (s'.connection_done ≡ 1)
    × (take 64 s'.nome ≡ text 65)
    × (take 64 s'.cognome ≡ text 66)
    × (take 64 s'.user ≡ text 67)
    × (take 64 s'.psw ≡ text 68)
unfolding queue
calls-Brings_example =
    calls-Brings line_uno no_card queue 65 nothing linked (text 65) (text 66) (text 67) (text 68)
      (chunks 65) (chunks 66) (chunks 67) (chunks 68) (chunk 0x30) (chunk 0x31) (chunk 0x32)
      (chunk 0x33) linked-Holds refl (λ e. absurd (omega arith)) refl (omega arith) refl refl refl
      refl brought_1 brought_2 brought_3 brought_4
