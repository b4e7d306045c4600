-- ===== src/Tests/Mirrors.antt =====
-- The mirror protocol of secure-rfid-login.c at concrete inputs.
use secure_rfid_login.Common.{
  ℕ, zero, suc, ◌≤◌, ◌≡◌, ◌≢◌, refl, false, Option, none, some, List, [], ◌∷◌, ◌++◌, pos, replicate,
  length, arith, if◌then◌else◌, ◌==◌, ◌||◌, value_or, value_or,
}
use secure_rfid_login.Server.{Connection}
use secure_rfid_login.Server.Mirror.{Mirror, backlog, payload_at, mirror_receive, mirror_writeable}
use secure_rfid_login.Server.Mirror.Queue.{
  IsRing, pending, mirror_receive-pending, mirror_receive_overtakes,
}
use secure_rfid_login.Server.Mirror.Sending.{Writes, Progress, mirror_writeable-Progress}
use secure_rfid_login.Tests.World.{Sim, sim_connection, with_input}

abbrev page : Connection Sim
page = sim_connection (λ n. []) 6

abbrev hi : List ℕ
hi = 104 ∷ 105 ∷ []

-- Two messages in the ring, at its end and at its start.
abbrev two : Mirror
two = record { ringbuffer = some hi ∷ (replicate 30 none ++ (some hi ∷ [])); head = 1 }

two-IsRing : IsRing two 31
two-IsRing = record { size = refl; head_in = omega arith; tail_in = omega arith }

abbrev world : Sim
world = with_input []

mirror_receive-pending_example :
    let (m', w') = mirror_receive page two 31 hi world in
    IsRing m' 31
    × (backlog 1 31 ≢ 31 → pending m' 31 ≡ pending two 31 ++ (hi ∷ []))
    × (backlog 1 31 ≡ 31 → m' ≡ two)
    × (w'
        ≡ page.callback_on_writable_all (
            if (backlog 1 31 == 29) || (backlog 1 31 == 31)
            then page.rx_flow_control 0 world
            else world))
mirror_receive-pending_example = mirror_receive-pending page two 31 hi world two-IsRing

mirror_receive_overtakes_example :
    let (m', _) = mirror_receive page two 31 hi world in
    (length (pending two 2) ≡ 31) × (pending m' 2 ≡ [])
mirror_receive_overtakes_example =
    mirror_receive_overtakes page two 31 2 hi world two-IsRing (omega arith) (omega arith) refl

abbrev page_log : Writes page
page_log = record {
  written = λ w. w.page;
  write_all = λ bytes w. refl;
  write_written = λ bytes w. refl;
  allow_written = λ w. refl;
  writable_written = λ w. refl;
}

both_sent :
    mirror_writeable page false two 31 world ≡ some (pos 0, 1, record world { page = hi ∷ hi ∷ [] })
unfolding mirror_writeable
both_sent = refl

mirror_writeable-Progress_example :
    Progress page page_log two 31 world (pos 0) 1 (record world { page = hi ∷ hi ∷ [] })
mirror_writeable-Progress_example =
    mirror_writeable-Progress page page_log two false 31 world two-IsRing both_sent

abbrev AreShort : List (Option (List ℕ)) → Type 0
AreShort [] = Unit
AreShort (x ∷ ring) = (length (value_or [] x) ≤ 2) × AreShort ring

short_messages :
    (ring : List (Option (List ℕ))) (i : ℕ) → AreShort ring → length (payload_at ring i) ≤ 2
short_messages [] i h = omega arith
short_messages (x ∷ ring) zero h = h.0
short_messages (x ∷ ring) (suc i) h = short_messages ring i h.1
