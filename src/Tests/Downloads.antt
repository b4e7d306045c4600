-- ===== src/Tests/Downloads.antt =====
-- The serving of files by secure-rfid-login.c at a concrete input: a file of five bytes, and a page
-- that takes three bytes at a time.
use secure_rfid_login.Common.{
  ◌≢◌, same_bytes, if◌then◌else◌, ℕ, ◌+◌, ◌-◌, ◌≡◌, refl, sym, ap, ◌∙◌, some, List, [], ◌∷◌, ◌++◌,
  append-nil, ℤ, pos, negsuc, minus_one, length, length-drop, length-take, take, drop, drop_all,
  codes, arith,
}
use secure_rfid_login.Server.{Connection}
use secure_rfid_login.Server.Http.{Files, send_file, serve}
use secure_rfid_login.Server.Http.Sending.{IsFile, Sent, send_file-Sent}
use secure_rfid_login.Server.Http.Confined.{SharesServed, serve_same}
use secure_rfid_login.Tests.World.{Sim, sim_connection, with_input}

abbrev five : List ℕ
five = 1 ∷ 2 ∷ 3 ∷ 4 ∷ 5 ∷ []

abbrev page : Connection Sim
page = sim_connection (λ n. []) 6

abbrev seek : ℤ → Sim → Sim
seek (pos n) w = record w { clock = w.clock + n }
seek (negsuc n) w = record w { clock = w.clock - (n + 1) }

-- The clock stands for the place in the file.
abbrev disk : Files Sim
disk = record {
  open_file = λ path w. (pos 3, w);
  file_size = λ fd w. 5;
  read = λ fd n w. (
    pos (length (drop w.clock five)),
    drop w.clock five,
    record w { clock = w.clock + length (drop w.clock five) },
  );
  lseek = λ fd j w. seek j w;
  close_file = λ fd w. w;
  write_http = λ bytes w. (pos (length (take 3 bytes)), record w { sent = w.sent ++ take 3 bytes });
  serve_http_file = λ path mime w. (pos 0, w);
  print_size = λ n. [];
}

all_read : (o : ℕ) → drop o five ≡ drop o five ++ drop (o + length (drop o five)) five
all_read o =
    sym (append-nil (drop o five))
    ∙ ap (λ t. drop o five ++ t) (sym (drop_all five (omega (arith, length-drop o five))))

taken_back : (bytes : List ℕ) → take 3 bytes ≡ take (length (take 3 bytes)) bytes
taken_back [] = refl
taken_back (a ∷ []) = refl
taken_back (a ∷ b ∷ []) = refl
taken_back (a ∷ b ∷ c ∷ r) = refl

disk-IsFile : IsFile page disk (pos 3)
disk-IsFile = record {
  content = five;
  offset = λ w. w.clock;
  got = λ w. w.sent;
  reads = λ w. (refl, all_read w.clock, refl, refl);
  writes = λ bytes w. (
    length (take 3 bytes),
    refl,
    omega (arith, length-take 3 bytes),
    refl,
    ap (λ t. w.sent ++ t) (taken_back bytes),
  );
  seeks = λ j w. (omega arith, refl);
  closes = λ w. (refl, refl);
  books = λ w. (refl, refl);
}

whole_file :
    send_file page disk 5 (pos 3) (with_input [])
    ≡ some (minus_one, record (with_input []) { clock = 5; sent = five })
unfolding send_file
whole_file = refl

send_file-Sent_example :
    Sent page disk
      (pos 3)
      disk-IsFile
      (with_input [])
      (record (with_input []) { clock = 5; sent = five })
send_file-Sent_example = send_file-Sent page disk (pos 3) disk-IsFile 5 (with_input []) whole_file

abbrev attack : List ℕ
attack = codes "/../../etc/passwd"

abbrev resources : List ℕ
resources = codes "/usr/share/libwebsockets-test-server"

-- The same files, and one more outside of the resource path.
abbrev secret_disk : Files Sim
secret_disk = record disk {
  serve_http_file = λ path mime w.
      if same_bytes path (resources ++ attack)
      then (pos 0, record w { sent = codes "root" })
      else (pos 0, w);
}

secret_disk-SharesServed : SharesServed disk secret_disk resources
secret_disk-SharesServed = record {
  icon = refl;
  logo = refl;
  page = refl;
  leaf = refl;
  sizes = refl;
  closes = refl;
  writes = refl;
  prints = refl;
}

serve_same_example :
    (serve page disk resources (pos 0) attack (with_input [])
      ≡ serve page secret_disk resources (pos 0) attack (with_input []))
    × (attack ≢ codes "/leaf.jpg"
        → attack ≢ codes "/favicon.ico"
        → attack ≢ codes "/libwebsockets.org-logo.png"
        → serve page disk resources (pos 0) attack (with_input [])
          ≡ serve page disk resources (pos 0) (codes "/test.html") (with_input []))
serve_same_example =
    serve_same page disk secret_disk resources (pos 0) attack (with_input [])
      secret_disk-SharesServed
