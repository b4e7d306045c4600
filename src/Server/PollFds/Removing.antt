-- ===== src/Server/PollFds/Removing.antt =====
-- The poll array after a socket was taken out.
use secure_rfid_login.Common.{
  ℕ, ◌-◌, ◌<◌, ◌≡◌, ◌≢◌, sym, ap, ◌∙◌, ◌==◌, Bool-cases, inl, inr, length, length-set,
  get_or-set_self, get_or-set_other, set, arith, ==→eq,
}
use secure_rfid_login.Server.PollFds.{Pollfd, PollFds, no_pollfd, pollfd_at, place}
use secure_rfid_login.Server.PollFds.Shape.{IsPoll, IsTracked}

-- The globals after a socket was taken out, when others are left.
abbrev pub removed : (fd : ℕ) → PollFds → PollFds
removed fd s =
    let last = pollfd_at s (s.count_pollfds - 1) in
    record s {
      pollfds = set s.pollfds (place s fd) last;
      fd_lookup = set s.fd_lookup last.fd (place s fd);
      count_pollfds = s.count_pollfds - 1;
    }

module _ (fd : ℕ) (s : PollFds) (inv : IsPoll s) (t : IsTracked s fd) where
  last : Pollfd
  last = pollfd_at s (s.count_pollfds - 1)

  last_in : last.fd < length s.fd_lookup
  unfolding last
  last_in = inv.fd_in (s.count_pollfds - 1) (omega (arith, t.in_use))

  last_place : place s last.fd ≡ s.count_pollfds - 1
  unfolding last
  last_place = inv.inverse (s.count_pollfds - 1) (omega (arith, t.in_use))

  removed_here : pollfd_at (removed fd s) (place s fd) ≡ last
  unfolding last
  removed_here =
      get_or-set_self s.pollfds (place s fd) _ no_pollfd
        (omega (arith, t.in_use, inv.bounded, inv.size))

  removed_else : (i : ℕ) → i ≢ place s fd → pollfd_at (removed fd s) i ≡ pollfd_at s i
  removed_else i e = get_or-set_other s.pollfds (place s fd) i _ no_pollfd (λ d. e (sym d))

  place_last : place (removed fd s) last.fd ≡ place s fd
  unfolding last
  place_last = get_or-set_self s.fd_lookup last.fd (place s fd) 0 last_in

  place_else : (other : ℕ) → other ≢ last.fd → place (removed fd s) other ≡ place s other
  unfolding last
  place_else other e = get_or-set_other s.fd_lookup last.fd other (place s fd) 0 (λ d. e (sym d))

  -- An entry below the last one has a socket of its own.
  not_last : (i : ℕ) → i < s.count_pollfds - 1 → (pollfd_at s i).fd ≢ last.fd
  not_last i h e = omega (arith, sym (inv.inverse i (omega arith)) ∙ ap (place s) e ∙ last_place)

  pub removed-IsPoll : IsPoll (removed fd s)
  removed-IsPoll = record {
    bounded = omega (arith, inv.bounded);
    size = length-set s.pollfds (place s fd) _ ∙ inv.size;
    fd_in = λ i h. elim (Bool-cases (i == place s fd)) [
      | inl here ↦
          let e : i ≡ place s fd = ==→eq i (place s fd) here in
          rw
            (
              e,
              removed_here,
              length-set s.fd_lookup (pollfd_at s (s.count_pollfds - 1)).fd (place s fd),
            )
            last_in
      | inr there ↦
          rw
            (
              removed_else i (λ e. ground (arith, e, there)),
              length-set s.fd_lookup (pollfd_at s (s.count_pollfds - 1)).fd (place s fd),
            )
            (inv.fd_in i (omega arith))
    ];
    inverse = λ i h. elim (Bool-cases (i == place s fd)) [
      | inl here ↦
          let e : i ≡ place s fd = ==→eq i (place s fd) here in rw (e, removed_here) place_last
      | inr there ↦
          rw (removed_else i (λ e. ground (arith, e, there)))
            (place_else (pollfd_at s i).fd (not_last i h) ∙ inv.inverse i (omega arith))
    ];
  }

  -- Two sockets at one place are one.
  pub same_place : (other : ℕ) → IsTracked s other → place s other ≡ place s fd → other ≡ fd
  same_place other o e = sym o.entry ∙ ap (λ i. (pollfd_at s i).fd) e ∙ t.entry

  -- Another socket that is the last one moves, and one that is not stays.
  keeps_last :
      (other : ℕ)
      → IsTracked s other
      → other ≢ fd
      → other ≡ last.fd
      → IsTracked (removed fd s) other
        × (pollfd_at (removed fd s) (place (removed fd s) other) ≡ pollfd_at s (place s other))
  unfolding last
  keeps_last other o apart e =
      let at : place (removed fd s) other ≡ place s fd = ap (place (removed fd s)) e ∙ place_last in
      let was : place s other ≡ s.count_pollfds - 1 = ap (place s) e ∙ last_place in
      let elsewhere : place s other ≢ place s fd = λ d. apart (same_place other o d) in
      let entry : pollfd_at (removed fd s) (place (removed fd s) other) ≡ last =
        ap (pollfd_at (removed fd s)) at ∙ removed_here in
      (
        record {
          in_use = ground (arith, at, was, elsewhere, t.in_use);
          entry = ap (λ p. p.fd) entry ∙ sym e;
        },
        entry ∙ ap (pollfd_at s) (sym was),
      )

  keeps_else :
      (other : ℕ)
      → IsTracked s other
      → other ≢ fd
      → other ≢ last.fd
      → IsTracked (removed fd s) other
        × (pollfd_at (removed fd s) (place (removed fd s) other) ≡ pollfd_at s (place s other))
  unfolding last
  keeps_else other o apart e =
      let at : place (removed fd s) other ≡ place s other = place_else other e in
      let elsewhere : place s other ≢ place s fd = λ d. apart (same_place other o d) in
      let not_end : place s other ≢ s.count_pollfds - 1 =
        λ d. e (sym o.entry ∙ ap (λ i. (pollfd_at s i).fd) d) in
      let entry : pollfd_at (removed fd s) (place (removed fd s) other)
          ≡ pollfd_at s (place s other) =
        ap (pollfd_at (removed fd s)) at ∙ removed_else (place s other) elsewhere in
      (
        record {
          in_use = ground (arith, at, not_end, o.in_use);
          entry = ap (λ p. p.fd) entry ∙ o.entry;
        },
        entry,
      )

  pub keeps_others :
      (other : ℕ)
      → IsTracked s other
      → other ≢ fd
      → IsTracked (removed fd s) other
        × (pollfd_at (removed fd s) (place (removed fd s) other) ≡ pollfd_at s (place s other))
  keeps_others other o apart = elim (Bool-cases (other == last.fd)) [
    | inl yes_last ↦ keeps_last other o apart (==→eq other last.fd yes_last)
    | inr not_it ↦ keeps_else other o apart (λ e. ground (arith, e, not_it))
  ]
