-- ===== src/Tests/Sockets.antt =====
-- The poll array of secure-rfid-login.c at concrete inputs: two sockets, of four that fit.
use secure_rfid_login.Common.{ℕ, zero, suc, ◌<◌, ◌≡◌, ◌≢◌, refl, [], ◌∷◌, ok, arith}
use secure_rfid_login.Server.PollFds.{Pollfd, PollFds, no_pollfd, pollfd_at, place, del_poll_fd}
use secure_rfid_login.Server.PollFds.Shape.{IsPoll, IsTracked}
use secure_rfid_login.Server.PollFds.Invariant.{del_poll_fd-IsPoll}

abbrev socket : ℕ → Pollfd
socket fd = record { fd = fd; events = 1; revents = 0 }

-- Sockets 3 and 1, at the places 0 and 1.
abbrev two : PollFds
two = record {
  pollfds = socket 3 ∷ socket 1 ∷ no_pollfd ∷ no_pollfd ∷ [];
  fd_lookup = 0 ∷ 1 ∷ 0 ∷ 0 ∷ [];
  count_pollfds = 2;
  max_poll_elements = 4;
}

fd_in_two : (i : ℕ) → i < 2 → (pollfd_at two i).fd < 4
fd_in_two zero h = omega arith
fd_in_two (suc zero) h = omega arith
fd_in_two (suc (suc i)) h = absurd (omega arith)

inverse_two : (i : ℕ) → i < 2 → place two (pollfd_at two i).fd ≡ i
inverse_two zero h = refl
inverse_two (suc zero) h = refl
inverse_two (suc (suc i)) h = absurd (omega arith)

fresh_two : (i : ℕ) → i < 2 → (pollfd_at two i).fd ≢ 2
fresh_two zero h = λ e. absurd (omega (arith, e))
fresh_two (suc zero) h = λ e. absurd (omega (arith, e))
fresh_two (suc (suc i)) h = absurd (omega arith)

two-IsPoll : IsPoll two
two-IsPoll = record { bounded = omega arith; size = refl; fd_in = fd_in_two; inverse = inverse_two }

two-IsTracked : IsTracked two 3
two-IsTracked = record { in_use = omega arith; entry = refl }

del_poll_fd-IsPoll_example :
    (s' : PollFds) × (del_poll_fd 3 two ≡ ok s')
    × IsPoll s'
    × (suc s'.count_pollfds ≡ 2)
    × ((other : ℕ)
        → IsTracked two other
        → other ≢ 3
        → IsTracked s' other × (pollfd_at s' (place s' other) ≡ pollfd_at two (place two other)))
del_poll_fd-IsPoll_example = del_poll_fd-IsPoll 3 two two-IsPoll two-IsTracked
