-- ===== src/Server/PollFds.antt =====
-- The external poll array of secure-rfid-login.c (the cases *_POLL_FD of `callback_http`, built with
-- EXTERNAL_POLL): the sockets to poll, and for each its place.
pub mod Shape
pub mod Adding
pub mod Removing
pub mod Invariant
use secure_rfid_login.Common.{
  ℕ, ◌+◌, ◌-◌, List, if◌then◌else◌, ltb, ◌==◌, get_or, set, not, Bool, true, false, Run, ok, fault,
}
use Prim.Native.Nat.{bit_and, bit_or}

-- `struct pollfd`.
pub record Pollfd : Type 0 where
  pub fd : ℕ
  pub events : ℕ
  pub revents : ℕ

-- The globals `pollfds`, `fd_lookup`, `count_pollfds` and `max_poll_elements`; the two arrays have
-- `max_poll_elements` places.
pub record PollFds : Type 0 where
  pub pollfds : List Pollfd
  pub fd_lookup : List ℕ
  pub count_pollfds : ℕ
  pub max_poll_elements : ℕ

-- What a read outside the arrays gives.
abbrev pub no_pollfd : Pollfd
no_pollfd = record { fd = 0; events = 0; revents = 0 }

abbrev pub pollfd_at : PollFds → ℕ → Pollfd
pollfd_at s i = get_or s.pollfds i no_pollfd

abbrev pub place : PollFds → ℕ → ℕ
place s fd = get_or s.fd_lookup fd 0

-- LWS_CALLBACK_ADD_POLL_FD: the value of the callback, and the globals.
pub add_poll_fd : (fd events : ℕ) → PollFds → ℕ × PollFds
add_poll_fd fd events s = if not (ltb s.count_pollfds s.max_poll_elements) then (1, s) else (
  0,
  record s {
    fd_lookup = set s.fd_lookup fd s.count_pollfds;
    pollfds = set s.pollfds s.count_pollfds (record { fd = fd; events = events; revents = 0 });
    count_pollfds = s.count_pollfds + 1;
  },
)

-- LWS_CALLBACK_DEL_POLL_FD. With no socket the count becomes -1, and the code reads `pollfds[-1]`.
pub del_poll_fd : (fd : ℕ) → PollFds → Run PollFds
del_poll_fd fd s =
    let count = s.count_pollfds - 1 in
    let m = place s fd in
    let last = pollfd_at s count in
    if s.count_pollfds == 0
    then fault
    else if count == 0
    then ok (record s { count_pollfds = count })
    else ok (record s {
      pollfds = set s.pollfds m last;
      fd_lookup = set s.fd_lookup last.fd m;
      count_pollfds = count;
    })

-- LWS_CALLBACK_SET_MODE_POLL_FD.
pub set_mode_poll_fd : (fd mode : ℕ) → PollFds → PollFds
set_mode_poll_fd fd mode s =
    let p = pollfd_at s (place s fd) in
    record s { pollfds = set s.pollfds (place s fd) (record p { events = bit_or p.events mode }) }

-- LWS_CALLBACK_CLEAR_MODE_POLL_FD: `events & ~mode`.
pub clear_mode_poll_fd : (fd mode : ℕ) → PollFds → PollFds
clear_mode_poll_fd fd mode s =
    let p = pollfd_at s (place s fd) in
    record s {
      pollfds = set s.pollfds (place s fd) (record p { events = p.events - bit_and p.events mode });
    }
