-- ===== src/Server/Service/Ready.antt =====
-- The loop over the entries of the poll array.
use secure_rfid_login.Common.{
  ℕ, zero, suc, ◌+◌, ◌≤◌, ◌<◌, ◌≡◌, refl, sym, ap, ◌∙◌, Bool, true, false, some, List, [], ◌∷◌,
  ◌++◌, append-nil, append_assoc, is_nonneg, if◌then◌else◌, ltb, ltb→lt, lt→ltb, le→ltb_false, ◌==◌,
  Bool-cases, inl, inr, arith,
}
use secure_rfid_login.Server.PollFds.{PollFds, pollfd_at}
use secure_rfid_login.Server.Service.{Service, Serving, service_ready}

-- Handling an entry leaves the size of the arrays alone and the entries inside them.
pub record KeepsBounds {W : Type 0} (lws : Service W) : Type 0 where
  pub size :
      (fds : PollFds) (n : ℕ) (w : W)
      → (lws.service_fd fds n w).1.max_poll_elements ≡ fds.max_poll_elements
  pub bounded :
      (fds : PollFds) (n : ℕ) (w : W)
      → fds.count_pollfds ≤ fds.max_poll_elements
      → (lws.service_fd fds n w).1.count_pollfds ≤ fds.max_poll_elements

-- Handling an entry succeeds, leaves the array alone and is on record.
pub record IsCalm {W : Type 0} (lws : Service W) : Type 0 where
  pub served : W → List ℕ
  pub succeeds : (fds : PollFds) (n : ℕ) (w : W) → is_nonneg (lws.service_fd fds n w).0 ≡ true
  pub keeps : (fds : PollFds) (n : ℕ) (w : W) → (lws.service_fd fds n w).1 ≡ fds
  pub records :
      (fds : PollFds) (n : ℕ) (w : W) → served (lws.service_fd fds n w).2 ≡ served w ++ (n ∷ [])

-- The entries with events among the `left` ones from `n` on.
abbrev pub ready : PollFds → (left n : ℕ) → List ℕ
ready fds zero n = []
ready fds (suc left) n =
    let rest = ready fds left (n + 1) in if (pollfd_at fds n).revents == 0 then rest else n ∷ rest

module _ {W : Type 0} (lws : Service W) where
  -- If handling an entry keeps the number of entries within the size of the arrays, the loop over the
  -- entries comes back with one round of fuel for each place and one more, whatever is added and
  -- taken out meanwhile.
  pub service_ready_ends :
      (b : KeepsBounds lws) (fuel n : ℕ) (s : Serving W)
      → s.fds.count_pollfds ≤ s.fds.max_poll_elements
      → n ≤ s.fds.max_poll_elements
      → s.fds.max_poll_elements < fuel + n
      → (r : Bool × Serving W) × (service_ready lws fuel n s ≡ some r)
  unfolding service_ready
  service_ready_ends b zero n s h k l = absurd (omega arith)
  service_ready_ends b (suc fuel) n s h k l =
      let (result, fds, w) = lws.service_fd s.fds n s.world in
      let served : Serving W = record s { fds = fds; world = w } in
      elim (Bool-cases (ltb n s.fds.count_pollfds)) [
        | inl more ↦
            let below = ltb→lt n s.fds.count_pollfds more in
            let same = b.size s.fds n s.world in
            let skip = service_ready_ends b fuel (n + 1) s h (omega arith) (omega arith) in
            let next =
              service_ready_ends b fuel (n + 1) served
                (omega (arith, same, b.bounded s.fds n s.world h)) (omega (arith, same))
                (omega (arith, same)) in
            elim (Bool-cases ((pollfd_at s.fds n).revents == 0)) [
              | inl silent ↦ (skip.0, rw (more, silent) skip.1)
              | inr speaks ↦ elim (Bool-cases (is_nonneg result)) [
                | inl good ↦ (next.0, rw (more, speaks, good) next.1)
                | inr bad ↦ ((true, served), rw (more, speaks, bad) refl)
              ]
            ]
        | inr ended ↦ ((false, s), rw ended refl)
      ]

  -- If every entry is handled with success and the array stays as it is, the loop handles exactly
  -- the entries with events, each once and in order.
  pub service_ready_lem :
      (c : IsCalm lws) (left fuel n : ℕ) (s : Serving W)
      → s.fds.count_pollfds ≡ left + n
      → left < fuel
      → (t : Serving W) × (service_ready lws fuel n s ≡ some (false, t))
        × (c.served t.world ≡ c.served s.world ++ ready s.fds left n)
        × (t.fds ≡ s.fds)
  unfolding service_ready
  service_ready_lem c left zero n s h l = absurd (omega arith)
  service_ready_lem c zero (suc fuel) n s h l = (
    s,
    rw (le→ltb_false n s.fds.count_pollfds (omega arith)) refl,
    sym (append-nil (c.served s.world)),
    refl,
  )
  service_ready_lem c (suc left) (suc fuel) n s h l =
      let (result, fds, w) = lws.service_fd s.fds n s.world in
      let served : Serving W = record s { fds = fds; world = w } in
      let same : fds ≡ s.fds = c.keeps s.fds n s.world in
      let skip = service_ready_lem c left fuel (n + 1) s (omega arith) (omega arith) in
      let next =
        service_ready_lem c left fuel (n + 1) served (rw same (omega arith)) (omega arith) in
      let below = lt→ltb n s.fds.count_pollfds (omega arith) in
      elim (Bool-cases ((pollfd_at s.fds n).revents == 0)) [
        | inl silent ↦ (skip.0, rw (below, silent) skip.1, rw silent skip.2, skip.3)
        | inr speaks ↦ (
          next.0,
          rw (below, speaks, c.succeeds s.fds n s.world) next.1,
          next.2
              ∙ ap (λ t. c.served w ++ ready t left (n + 1)) same
              ∙ ap (λ t. t ++ ready s.fds left (n + 1)) (c.records s.fds n s.world)
              ∙ append_assoc (c.served s.world) (n ∷ []) (ready s.fds left (n + 1))
              ∙ rw speaks refl,
          next.3 ∙ same,
        )
      ]
