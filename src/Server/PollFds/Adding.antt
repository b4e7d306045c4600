-- ===== src/Server/PollFds/Adding.antt =====
-- The poll array after a socket was added.
use secure_rfid_login.Common.{
  ℕ, ◌+◌, ◌<◌, ◌≡◌, ◌≢◌, sym, ap, ◌∙◌, ◌==◌, Bool-cases, inl, inr, length, length-set,
  get_or-set_self, get_or-set_other, set, arith, ==→eq,
}
use secure_rfid_login.Server.PollFds.{PollFds, no_pollfd, pollfd_at}
use secure_rfid_login.Server.PollFds.Shape.{IsPoll, IsTracked}

-- The globals after a socket was added.
abbrev pub added : (fd events : ℕ) → PollFds → PollFds
added fd events s = record s {
  fd_lookup = set s.fd_lookup fd s.count_pollfds;
  pollfds = set s.pollfds s.count_pollfds (record { fd = fd; events = events; revents = 0 });
  count_pollfds = s.count_pollfds + 1;
}

module _ (fd events : ℕ) (s : PollFds) (inv : IsPoll s)
    (room : s.count_pollfds < s.max_poll_elements) where
  added_last :
      pollfd_at (added fd events s) s.count_pollfds
      ≡ record { fd = fd; events = events; revents = 0 }
  added_last = get_or-set_self s.pollfds s.count_pollfds _ no_pollfd (omega (arith, inv.size))

  pub added_old : (i : ℕ) → i < s.count_pollfds → pollfd_at (added fd events s) i ≡ pollfd_at s i
  added_old i h =
      get_or-set_other s.pollfds s.count_pollfds i _ no_pollfd (λ e. absurd (omega (arith, e)))

  pub added-IsPoll :
      fd < length s.fd_lookup
      → ((i : ℕ) → i < s.count_pollfds → (pollfd_at s i).fd ≢ fd)
      → IsPoll (added fd events s)
  added-IsPoll small fresh = record {
    bounded = omega arith;
    size = length-set s.pollfds s.count_pollfds _ ∙ inv.size;
    fd_in = λ i h. elim (Bool-cases (i == s.count_pollfds)) [
      | inl last ↦
          let e : i ≡ s.count_pollfds = ==→eq i s.count_pollfds last in
          rw (e, added_last, length-set s.fd_lookup fd s.count_pollfds) small
      | inr old ↦
          let lower : i < s.count_pollfds = ground (arith, old, h) in
          rw (added_old i lower, length-set s.fd_lookup fd s.count_pollfds) (inv.fd_in i lower)
    ];
    inverse = λ i h. elim (Bool-cases (i == s.count_pollfds)) [
      | inl last ↦
          let e : i ≡ s.count_pollfds = ==→eq i s.count_pollfds last in
          rw (e, added_last) (get_or-set_self s.fd_lookup fd s.count_pollfds 0 small)
      | inr old ↦
          let lower : i < s.count_pollfds = ground (arith, old, h) in
          rw (added_old i lower) (
            get_or-set_other s.fd_lookup fd (pollfd_at s i).fd s.count_pollfds 0
              (λ e. fresh i lower (sym e))
            ∙ inv.inverse i lower)
    ];
  }

  pub added-IsTracked : fd < length s.fd_lookup → IsTracked (added fd events s) fd
  added-IsTracked small =
      let there = get_or-set_self s.fd_lookup fd s.count_pollfds 0 small in
      record {
        in_use = omega (arith, there);
        entry = ap (λ i. (pollfd_at (added fd events s) i).fd) there ∙ ap (λ p. p.fd) added_last;
      }
