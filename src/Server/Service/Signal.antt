-- ===== src/Server/Service/Signal.antt =====
-- SIGINT ends the server: the loop over the poll array inside the service loop.
use secure_rfid_login.Common.{
  ℕ, zero, suc, ◌+◌, ◌-◌, ◌≤◌, ◌<◌, ◌≡◌, refl, subst, some_inj, Bool, true, false, some, pos,
  is_nonneg, eq_ℤ, minus_one, if◌then◌else◌, ltb, ◌==◌, ==→eq, Bool-cases, inl, inr, length, List,
  ok, strlen, strcpy_lem, codes, ◌++◌, ◌∷◌, [], arith,
}
use secure_rfid_login.Server.PollFds.{PollFds, pollfd_at}
use secure_rfid_login.Server.Service.{
  Info, protocols, Service, Serving, leave, again, is_due, tick, service_ready, poll_round,
  start_server_socket,
}
use secure_rfid_login.Server.Service.Ready.{KeepsBounds, service_ready_ends}
use secure_rfid_login.Server.Service.Ends.{Interrupted, service_loop_ends}

-- After at most `left` more calls of `poll` the flag is set; no other call puts that off.
pub record SignalComes {W : Type 0} (lws : Service W) : Type 0 where
  pub left : W → ℕ
  pub interrupts : (w : W) → left w ≡ 0 → lws.force_exit w ≡ true
  pub time_left : (w : W) → left (lws.gettimeofday w).1 ≤ left w
  pub writable_left : (w : W) → left (lws.callback_on_writable_all w) ≤ left w
  pub poll_left : (fds : PollFds) (w : W) → left (lws.poll fds w).2 ≤ left w - 1
  pub service_left : (fds : PollFds) (n : ℕ) (w : W) → left (lws.service_fd fds n w).2 ≤ left w

-- The entries are inside the arrays, and the fuel is enough for all of them.
pub record Fits {W : Type 0} (fuel : ℕ) (s : Serving W) : Type 0 where
  pub bounded : s.fds.count_pollfds ≤ s.fds.max_poll_elements
  pub enough : s.fds.max_poll_elements < fuel

module _ {W : Type 0} (lws : Service W) (c : SignalComes lws) (b : KeepsBounds lws) where
  service_ready_left :
      (all fuel n : ℕ) (s : Serving W) (r : Bool × Serving W)
      → Fits all s
      → service_ready lws fuel n s ≡ some r
      → Fits all r.1 × (c.left r.1.world ≤ c.left s.world)
  unfolding service_ready
  service_ready_left all zero n s r f e = cc
  service_ready_left all (suc fuel) n s r f e =
      let (result, fds, w) = lws.service_fd s.fds n s.world in
      let served : Serving W = record s { fds = fds; world = w } in
      let served_fits : Fits all served = record {
        bounded = omega (arith, b.size s.fds n s.world, b.bounded s.fds n s.world f.bounded);
        enough = omega (arith, b.size s.fds n s.world, f.enough);
      } in
      let skip = service_ready_left all fuel (n + 1) s r f in
      let next = service_ready_left all fuel (n + 1) served r served_fits in
      let Fewer = λ (t : Bool × Serving W). Fits all t.1 × (c.left t.1.world ≤ c.left s.world) in
      let fewer = c.service_left s.fds n s.world in
      elim (Bool-cases (ltb n s.fds.count_pollfds)) [
        | inl more ↦ elim (Bool-cases ((pollfd_at s.fds n).revents == 0)) [
          | inl silent ↦ skip (rw (more, silent) at e)
          | inr speaks ↦ elim (Bool-cases (is_nonneg result)) [
            | inl good ↦
                let rest = next (rw (more, speaks, good) at e) in (rest.0, omega (arith, rest.1))
            | inr bad ↦
                subst Fewer (some_inj _ _ (rw (more, speaks, bad) at e)) (served_fits, fewer)
          ]
        ]
        | inr ended ↦ subst Fewer (some_inj _ _ (rw ended at e)) (f, omega arith)
      ]

  tick_left :
      (s : Serving W) → ((tick lws s).fds ≡ s.fds) × (c.left (tick lws s).world ≤ c.left s.world)
  unfolding tick
  tick_left s =
      let (tv_usec, w) = lws.gettimeofday s.world in
      elim (Bool-cases (is_due tv_usec s.oldus)) [
        | inl due ↦ rw due (refl, omega (arith, c.writable_left w, c.time_left s.world))
        | inr early ↦ rw early (refl, c.time_left s.world)
      ]

  still_left : (w : W) → lws.force_exit w ≡ false → 0 < c.left w
  still_left w run = elim (Bool-cases (c.left w == 0)) [
    | inl z ↦ ground (arith, c.interrupts w (==→eq (c.left w) 0 z), run)
    | inr nz ↦ ground (arith, nz)
  ]

  -- A round of the loop comes back, and takes one of the calls of `poll` that are left.
  pub poll_round-Interrupted : (fuel : ℕ) → Interrupted lws (poll_round lws fuel) (Fits fuel)
  unfolding poll_round
  poll_round-Interrupted fuel = record {
    left = c.left;
    interrupts = c.interrupts;
    comes_back = λ s f run.
        let t : Serving W = tick lws s in
        let (same, no_more) = tick_left s in
        let (n, entries, w) = lws.poll t.fds t.world in
        let polled : Serving W = record t { fds = record t.fds { pollfds = entries }; world = w } in
        let polled_fits : Fits fuel polled = record {
          bounded = rw same f.bounded;
          enough = rw same f.enough;
        } in
        let fewer : suc (c.left w) ≤ c.left s.world =
          omega (arith, c.poll_left t.fds t.world, no_more, still_left s.world run) in
        let (r, made) =
          service_ready_ends lws b fuel 0 polled polled_fits.bounded (omega arith)
            (omega (arith, polled_fits.enough)) in
        let rest = service_ready_left fuel fuel 0 polled r polled_fits made in
        elim (Bool-cases (is_nonneg n)) [
          | inl good ↦ elim (Bool-cases (eq_ℤ n (pos 0))) [
            | inl none_ready ↦ ((again n, polled), rw (good, none_ready) refl, polled_fits, fewer)
            | inr some_ready ↦ (
              (if r.0 then leave else again (pos r.1.fds.count_pollfds), r.1),
              rw (good, some_ready, made) refl,
              rest.0,
              omega (arith, rest.1, fewer),
            )
          ]
          | inr bad ↦ ((again n, polled), rw bad refl, polled_fits, fewer)
        ];
  }

  -- The two paths fit their arrays.
  abbrev pub certificate : List ℕ
  certificate = codes "cert/libwebsockets-test-server.pem"

  abbrev pub key_file : List ℕ
  key_file = codes "cert/libwebsockets-test-server.key.pem"

  -- With memory for the poll array and a resource path that is terminated: if handling an entry
  -- keeps the entries inside the array, and SIGINT comes at last, the server comes back. It returns
  -- -1 if the resource path is longer than 992 characters or libwebsockets cannot be set up, and 0
  -- if not, with libwebsockets shut down.
  pub start_server_socket_ends :
      (resource_path cert_path key_path : List ℕ) (fds : PollFds) (w : W) {len : ℕ}
      → (lws.malloc_pollfds w).0 ≡ some fds
      → fds.count_pollfds ≤ fds.max_poll_elements
      → strlen resource_path ≡ some len
      → length cert_path ≡ 1024
      → length key_path ≡ 1024
      → let w1 = (lws.malloc_pollfds w).1 in
        (info : Info) × let (created, w2) = lws.create_context info w1 in
          (end : W) × (start_server_socket lws
              (poll_round lws (suc fds.max_poll_elements))
              (suc (c.left w2))
              resource_path
              cert_path
              key_path
              w
            ≡ ok (
                if ltb 992 len
                then (minus_one, w1)
                else if created
                then (pos 0, lws.context_destroy end)
                else (minus_one, w2)))
  unfolding start_server_socket poll_round-Interrupted
  start_server_socket_ends resource_path cert_path key_path fds w {len} got h e k l =
      let cert = strcpy_lem cert_path (certificate ++ 0 ∷ []) {n = 34} refl (omega arith) in
      let key = strcpy_lem key_path (key_file ++ 0 ∷ []) {n = 38} refl (omega arith) in
      let info : Info = record {
        port = 7681;
        protocols = protocols;
        ssl_cert_filepath = cert.0;
        ssl_private_key_filepath = key.0;
        gid = minus_one;
        uid = minus_one;
        options = 0;
      } in
      let w1 = (lws.malloc_pollfds w).1 in
      let (created, w2) = lws.create_context info w1 in
      let first : Serving W = record { fds = fds; oldus = 0; world = w2 } in
      let (last, made, why) =
        service_loop_ends lws (poll_round lws (suc fds.max_poll_elements))
          (poll_round-Interrupted (suc fds.max_poll_elements)) (suc (c.left w2)) (pos 0) first
          (record { bounded = h; enough = omega arith }) refl (omega arith) in
      (
        info,
        (
          last.world,
          elim (Bool-cases (ltb 992 len)) [
            | inl long ↦ rw (got, start_server_socket, e, long) refl
            | inr short ↦ elim (Bool-cases created) [
              | inl set_up ↦
                  rw (got, start_server_socket, e, short, cert.1, key.1, set_up, made) refl
              | inr not_set_up ↦
                  rw (got, start_server_socket, e, short, cert.1, key.1, not_set_up) refl
            ]
          ],
        ),
      )
