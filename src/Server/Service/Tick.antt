-- ===== src/Server/Service/Tick.antt =====
-- The clock of the service loop.
use secure_rfid_login.Common.{
  ℕ, ◌+◌, ◌-◌, ◌%◌, ◌^◌, ◌<◌, ◌≤◌, ◌≡◌, false, ◌||◌, ltb, ltb→lt, lt→ltb, Bool-cases, inl, inr,
  arith,
}
use secure_rfid_login.Server.Service.{is_due}

ltb_false→le : (a b : ℕ) → ltb a b ≡ false → b ≤ a
ltb_false→le a b h = ground arith

-- For microseconds of two readings of the clock, the test on the unsigned difference holds exactly
-- if the later reading has fewer microseconds than the earlier one, so that a new second has begun,
-- or more than 50000 more.
pub is_due_iff :
    (tv_usec oldus : ℕ)
    → tv_usec < 1000000
    → oldus < 1000000
    → is_due tv_usec oldus ≡ (ltb tv_usec oldus || ltb (oldus + 50000) tv_usec)
unfolding is_due
is_due_iff tv_usec oldus h k = elim (Bool-cases (ltb tv_usec oldus)) [
  | inl less ↦
      let earlier = ltb→lt tv_usec oldus less in
      let far : (tv_usec + 2 ^ 32 - oldus) % 2 ^ 32 ≡ tv_usec + 2 ^ 32 - oldus = omega arith in
      rw (less, far) (lt→ltb 50000 (tv_usec + 2 ^ 32 - oldus) (omega arith))
  | inr more ↦
      let near : (tv_usec + 2 ^ 32 - oldus) % 2 ^ 32 ≡ tv_usec - oldus =
        omega (arith, ltb_false→le tv_usec oldus more) in
      rw (more, near) (ground arith)
]
