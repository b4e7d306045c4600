-- ===== src/Tests/Services.antt =====
-- The service loop of secure-rfid-login.c at concrete inputs: a server of three sockets that is
-- stopped after two polls.
use secure_rfid_login.Common.{
  ℕ, ◌+◌, ◌-◌, ◌≡◌, refl, true, ◌||◌, some, List, [], ◌∷◌, ◌++◌, pos, minus_one, ok, if◌then◌else◌,
  ltb, ◌==◌, zeros, codes, arith,
}
use secure_rfid_login.Server.PollFds.{Pollfd, PollFds}
use secure_rfid_login.Server.Service.{Info, Service, is_due, poll_round, start_server_socket}
use secure_rfid_login.Server.Service.Tick.{is_due_iff}
use secure_rfid_login.Server.Service.Ready.{KeepsBounds}
use secure_rfid_login.Server.Service.Signal.{SignalComes, start_server_socket_ends}

record Machine : Type 0 where
  polls : ℕ
  log : List ℕ

abbrev entries : List Pollfd
entries =
    record { fd = 0; events = 1; revents = 1 }
    ∷ record { fd = 1; events = 1; revents = 0 }
    ∷ record { fd = 2; events = 1; revents = 1 }
    ∷ []

abbrev sockets : PollFds
sockets = record {
  pollfds = entries;
  fd_lookup = 0 ∷ 1 ∷ 2 ∷ [];
  count_pollfds = 3;
  max_poll_elements = 3;
}

abbrev server : Service Machine
server = record {
  malloc_pollfds = λ w. (some sockets, w);
  create_context = λ info w. (true, w);
  context_destroy = λ w. w;
  gettimeofday = λ w. (w.polls, w);
  force_exit = λ w. w.polls == 0;
  callback_on_writable_all = λ w. w;
  poll = λ fds w. (pos 2, entries, record w { polls = w.polls - 1 });
  service_fd = λ fds n w. (pos 0, fds, record w { log = w.log ++ (n ∷ []) });
  service = λ w. (pos 0, w);
}

abbrev fresh : Machine
fresh = record { polls = 2; log = [] }

-- The clock has begun a new second 30 ms after the last tick.
is_due_iff_example : is_due 10000 980000 ≡ (ltb 10000 980000 || ltb (980000 + 50000) 10000)
is_due_iff_example = is_due_iff 10000 980000 (omega arith) (omega arith)

bounds : KeepsBounds server
bounds = record { size = λ fds n w. refl; bounded = λ fds n w h. h }

is_zero : (n : ℕ) → n ≡ 0 → (n == 0) ≡ true
is_zero n h = ground arith

signal : SignalComes server
signal = record {
  left = λ w. w.polls;
  interrupts = λ w h. is_zero w.polls h;
  time_left = λ w. omega arith;
  writable_left = λ w. omega arith;
  poll_left = λ fds w. omega arith;
  service_left = λ fds n w. omega arith;
}

abbrev resources : List ℕ
resources = codes "C:/share" ++ 0 ∷ []

start_server_socket_ends_example :
    (info : Info) × ((end : Machine) × (start_server_socket server
          (poll_round server 4)
          3
          resources
          (zeros 1024)
          (zeros 1024)
          fresh
        ≡ ok (
            if ltb 992 9
            then (minus_one, fresh)
            else if true
            then (pos 0, end)
            else (minus_one, fresh))))
unfolding signal
start_server_socket_ends_example =
    start_server_socket_ends server signal bounds resources (zeros 1024) (zeros 1024) sockets fresh
      refl (omega arith) refl refl refl
