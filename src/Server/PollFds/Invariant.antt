-- ===== src/Server/PollFds/Invariant.antt =====
-- The poll array of secure-rfid-login.c is kept dense, and its lookup table inverts it.
use secure_rfid_login.Common.{
  ℕ, suc, ◌-◌, ◌<◌, ◌≡◌, ◌≢◌, refl, false, ◌==◌, Bool-cases, inl, inr, length, ok, arith, lt→ltb,
  le→ltb_false, ne→==_false,
}
use secure_rfid_login.Server.PollFds.{PollFds, pollfd_at, place, add_poll_fd, del_poll_fd}
use secure_rfid_login.Server.PollFds.Shape.{IsPoll, IsTracked}
use secure_rfid_login.Server.PollFds.Adding.{added_old, added-IsPoll, added-IsTracked}
use secure_rfid_login.Server.PollFds.Removing.{removed, removed-IsPoll, same_place, keeps_others}

-- With a place left, adding a socket that has no entry gives it one with the asked events, and keeps
-- the arrays well formed and the entries of all others; with none left the callback refuses, with 1,
-- and changes nothing.
pub add_poll_fd-IsPoll :
    (fd events : ℕ) (s : PollFds)
    → IsPoll s
    → fd < length s.fd_lookup
    → ((i : ℕ) → i < s.count_pollfds → (pollfd_at s i).fd ≢ fd)
    → let (value, s') = add_poll_fd fd events s in
      (s.count_pollfds < s.max_poll_elements
        → (value ≡ 0)
          × IsPoll s'
          × IsTracked s' fd
          × ((i : ℕ) → i < s.count_pollfds → pollfd_at s' i ≡ pollfd_at s i))
      × (s.count_pollfds ≡ s.max_poll_elements → (value ≡ 1) × (s' ≡ s))
unfolding add_poll_fd
add_poll_fd-IsPoll fd events s inv small fresh = (
  λ room. rw (lt→ltb s.count_pollfds s.max_poll_elements room) (
    refl,
    added-IsPoll fd events s inv room small fresh,
    added-IsTracked fd events s inv room small,
    added_old fd events s inv room,
  ),
  λ full. rw (le→ltb_false s.count_pollfds s.max_poll_elements (omega arith)) (refl, refl),
)

module _ (fd : ℕ) (s : PollFds) (inv : IsPoll s) (t : IsTracked s fd) where
  -- Taking out a socket that has an entry comes back with the arrays well formed, one entry fewer, and
  -- every other socket's entry as it was, wherever it now stands.
  pub del_poll_fd-IsPoll :
      (s' : PollFds) × (del_poll_fd fd s ≡ ok s')
      × IsPoll s'
      × (suc s'.count_pollfds ≡ s.count_pollfds)
      × ((other : ℕ)
          → IsTracked s other
          → other ≢ fd
          → IsTracked s' other × (pollfd_at s' (place s' other) ≡ pollfd_at s (place s other)))
  unfolding del_poll_fd
  del_poll_fd-IsPoll =
      let some_left : (s.count_pollfds == 0) ≡ false =
        ne→==_false s.count_pollfds 0 (λ e. absurd (omega (arith, t.in_use))) in
      elim (Bool-cases (s.count_pollfds - 1 == 0)) [
        | inl only ↦
            let one : s.count_pollfds ≡ 1 = ground (arith, only, t.in_use) in
            (
              record s { count_pollfds = s.count_pollfds - 1 },
              rw (some_left, only),
              record {
                bounded = omega (arith, inv.bounded);
                size = inv.size;
                fd_in = λ i h. absurd (omega (arith, one));
                inverse = λ i h. absurd (omega (arith, one));
              },
              omega (arith, one),
              λ other o apart.
                  absurd (
                    apart (same_place fd s inv t other o (omega (arith, one, o.in_use, t.in_use)))),
            )
        | inr more ↦ (
          removed fd s,
          rw (some_left, more),
          removed-IsPoll fd s inv t,
          omega (arith, t.in_use),
          keeps_others fd s inv t,
        )
      ]
