-- ===== src/Server/PollFds/Shape.antt =====
-- What the poll array of secure-rfid-login.c looks like.
use secure_rfid_login.Common.{ℕ, ◌≤◌, ◌<◌, ◌≡◌, length}
use secure_rfid_login.Server.PollFds.{PollFds, pollfd_at, place}

-- The arrays have their sizes, `fds` is a bound of the descriptors, and the place of the socket of
-- every entry in use is the entry's.
pub record IsPoll (s : PollFds) : Type 0 where
  pub bounded : s.count_pollfds ≤ s.max_poll_elements
  pub size : length s.pollfds ≡ s.max_poll_elements
  pub fd_in : (i : ℕ) → i < s.count_pollfds → (pollfd_at s i).fd < length s.fd_lookup
  pub inverse : (i : ℕ) → i < s.count_pollfds → place s (pollfd_at s i).fd ≡ i

-- The socket has an entry in use.
pub record IsTracked (s : PollFds) (fd : ℕ) : Type 0 where
  pub in_use : place s fd < s.count_pollfds
  pub entry : (pollfd_at s (place s fd)).fd ≡ fd
