-- ===== src/Server/Service.antt =====
-- `start_server_socket` of secure-rfid-login.c: the set-up of libwebsockets and the loop that
-- serves its sockets, in both builds (EXTERNAL_POLL or not).
pub mod Tick
pub mod Ready
pub mod Ends
pub mod Signal
use secure_rfid_login.Common.{
  ℕ, zero, suc, ◌+◌, ◌-◌, ◌%◌, ◌^◌, Bool, true, false, not, ◌&&◌, Option, none, some, List, [], ◌∷◌,
  ◌++◌, ℤ, pos, negsuc, minus_one, is_nonneg, eq_ℤ, if◌then◌else◌, ltb, ◌==◌, Run, ok, fault,
  out_of_fuel, ◌>>=◌, in_bounds, finished, length, overwrite, strlen, strcpy, codes,
}
use secure_rfid_login.Server.PollFds.{Pollfd, PollFds, pollfd_at}

-- An entry of `protocols`, less the callback and the size of its session data.
pub record Protocol : Type 0 where
  pub name : List ℕ
  pub rx_buffer_size : ℕ

abbrev pub protocols : List Protocol
protocols =
    record { name = codes "http-only"; rx_buffer_size = 0 }
    ∷ record { name = codes "dumb-increment-protocol"; rx_buffer_size = 10 }
    ∷ record { name = codes "lws-mirror-protocol"; rx_buffer_size = 128 }
    ∷ []

-- `struct lws_context_creation_info`, as far as the program sets it.
pub record Info : Type 0 where
  pub port : ℕ
  pub protocols : List Protocol
  pub ssl_cert_filepath : List ℕ
  pub ssl_private_key_filepath : List ℕ
  pub gid : ℤ
  pub uid : ℤ
  pub options : ℕ

-- What the function calls of libwebsockets and of the system. `gettimeofday` is the microseconds'
-- part. `poll` gives the entries with their new `revents`. `service_fd fds n` handles the entry
-- `n`; its callbacks change the array. `force_exit` is set by the handler of SIGINT.
pub record Service (W : Type 0) : Type 0 where
  pub malloc_pollfds : W → Option PollFds × W
  pub create_context : Info → W → Bool × W
  pub context_destroy : W → W
  pub gettimeofday : W → ℕ × W
  pub force_exit : W → Bool
  pub callback_on_writable_all : W → W
  pub poll : PollFds → W → ℤ × List Pollfd × W
  pub service_fd : PollFds → ℕ → W → ℤ × PollFds × W
  pub service : W → ℤ × W

-- The poll array, the time of the last tick, and the rest.
pub record Serving (W : Type 0) : Type 0 where
  pub fds : PollFds
  pub oldus : ℕ
  pub world : W

-- `((unsigned int)tv.tv_usec - oldus) > 50000`
pub is_due : (tv_usec oldus : ℕ) → Bool
is_due tv_usec oldus = ltb 50000 ((tv_usec + 2 ^ 32 - oldus) % 2 ^ 32)

-- How a round of the loop ends: with `goto done`, or with a value of `n`.
pub data Round : Type 0 where
  leave : Round
  again : (n : ℤ) → Round

module _ {W : Type 0} (lws : Service W) where
  pub tick : Serving W → Serving W
  unfolding is_due
  tick s =
      let (tv_usec, w) = lws.gettimeofday s.world in
      if is_due tv_usec s.oldus
      then record s { oldus = tv_usec; world = lws.callback_on_writable_all w }
      else record s { world = w }

  -- The loop over the entries, from the entry `n` on; `none` where the fuel is spent.
  pub service_ready : (fuel n : ℕ) → Serving W → Option (Bool × Serving W)
  service_ready zero n s = none
  service_ready (suc fuel) n s =
      let (result, fds, w) = lws.service_fd s.fds n s.world in
      let served : Serving W = record s { fds = fds; world = w } in
      let skip = service_ready fuel (n + 1) s in
      let go_on = service_ready fuel (n + 1) served in
      if ltb n s.fds.count_pollfds
      then (if (pollfd_at s.fds n).revents == 0
          then skip
          else if is_nonneg result
          then go_on
          else some (true, served))
      else some (false, s)

  -- A round with EXTERNAL_POLL.
  pub poll_round : (fuel : ℕ) → Serving W → Option (Round × Serving W)
  unfolding tick service_ready
  poll_round fuel s =
      let t = tick s in
      let (n, entries, w) = lws.poll t.fds t.world in
      let polled : Serving W = record t { fds = record t.fds { pollfds = entries }; world = w } in
      if is_nonneg n
      then (if eq_ℤ n (pos 0) then some (again n, polled) else (elim (service_ready fuel 0 polled) [
        | none ↦ none
        | some r ↦ some (if r.0 then leave else again (pos r.1.fds.count_pollfds), r.1)
      ]))
      else some (again n, polled)

  -- A round without it.
  pub service_round : Serving W → Round × Serving W
  unfolding tick
  service_round s =
      let t = tick s in let (n, w) = lws.service t.world in (again n, record t { world = w })

  -- `while (n >= 0 && !force_exit)`
  pub service_loop :
      (round : Serving W → Option (Round × Serving W)) (rounds : ℕ) (n : ℤ)
      → Serving W
      → Option (Serving W)
  service_loop round zero n s = none
  service_loop round (suc rounds) n s =
      let next : Option (Serving W) = elim (round s) [
        | none ↦ none
        | some r ↦ elim r.0 [ leave ↦ some r.1 | again m ↦ service_loop round rounds m r.1 ]
      ] in
      if is_nonneg n && not (lws.force_exit s.world) then next else some s

  -- The value, and the state at the end. Only the build with EXTERNAL_POLL allocates the arrays and
  -- can fail at it. The code measures the resource path twice, for
  -- the same bound. `cert_path` and `key_path` are the arrays on the stack.
  pub start_server_socket :
      (round : Serving W → Option (Round × Serving W)) (rounds : ℕ)
      (resource_path cert_path key_path : List ℕ)
      → W
      → Run (ℤ × W)
  unfolding service_loop
  start_server_socket round rounds resource_path cert_path key_path w =
      let (allocated, w1) = lws.malloc_pollfds w in
      elim allocated [
        | none ↦ ok (minus_one, w1)
        | some fds ↦ (do
          len ← in_bounds (strlen resource_path)
          if ltb (1024 - 32) len then ok (minus_one, w1) else (do
            cert ←
                in_bounds (strcpy cert_path (codes "cert/libwebsockets-test-server.pem" ++ 0 ∷ []))
            key ←
                in_bounds
                  (strcpy key_path (codes "cert/libwebsockets-test-server.key.pem" ++ 0 ∷ []))
            let info : Info = record {
              port = 7681;
              protocols = protocols;
              ssl_cert_filepath = cert;
              ssl_private_key_filepath = key;
              gid = minus_one;
              uid = minus_one;
              options = 0;
            }
            let (created, w2) = lws.create_context info w1
            if created
                then (do
                  s ← finished (
                      service_loop round rounds (pos 0)
                        (record { fds = fds; oldus = 0; world = w2 }))
                  ok (pos 0, lws.context_destroy s.world))
                else ok (minus_one, w2)))
      ]
