-- ===== src/Server/Service/Ends.antt =====
-- The end of the service loop.
use secure_rfid_login.Common.{
  ℕ, ◌⊎◌, zero, suc, ◌≤◌, ◌<◌, ◌≡◌, refl, ap, ◌∙◌, true, false, Option, some, ℤ, is_nonneg,
  Bool-cases, inl, inr, arith,
}
use secure_rfid_login.Server.Service.{Service, Serving, Round, leave, again, service_loop}

-- A round always comes back, and SIGINT comes after some number of rounds, at the latest when none
-- is left.
pub record Interrupted {W : Type 0} (lws : Service W)
    (round : Serving W → Option (Round × Serving W)) (Sound : Serving W → Type 0) : Type 0 where
  pub left : W → ℕ
  pub comes_back :
      (s : Serving W)
      → Sound s
      → lws.force_exit s.world ≡ false
      → (r : Round × Serving W) × (round s ≡ some r)
        × Sound r.1
        × (suc (left r.1.world) ≤ left s.world)
  pub interrupts : (w : W) → left w ≡ 0 → lws.force_exit w ≡ true

-- Why the loop has ended: the flag, a failure of `poll`, or a failure of an entry's handler.
pub data Ended {W : Type 0} (lws : Service W) (round : Serving W → Option (Round × Serving W))
    (s : Serving W) : Type 0 where
  by_flag : lws.force_exit s.world ≡ true → Ended lws round s
  by_failure :
      (t : Serving W) (n : ℤ)
      → round t ≡ some (again n, s)
      → is_nonneg n ≡ false
      → Ended lws round s
  by_handler : (t : Serving W) → round t ≡ some (leave, s) → Ended lws round s

Round-cases : (r : Round) → (r ≡ leave) ⊎ ((n : ℤ) × (r ≡ again n))
Round-cases leave = inl refl
Round-cases (again n) = inr (n, refl)

module _ {W : Type 0} (lws : Service W) (round : Serving W → Option (Round × Serving W)) where
  stops :
      (rounds : ℕ) (n : ℤ) (s : Serving W)
      → 0 < rounds
      → is_nonneg n ≡ false
      → service_loop lws round rounds n s ≡ some s
  unfolding service_loop
  stops zero n s h bad = absurd (omega arith)
  stops (suc rounds) n s h bad = rw bad refl

  -- If every round comes back, and SIGINT comes after at most so many rounds, the loop ends, with
  -- one round of fuel for each of them and one more; it ends because the flag was set, a round left
  -- a negative `n`, or a round jumped to the end.
  pub service_loop_ends :
      {Sound : Serving W → Type 0} (i : Interrupted lws round Sound) (rounds : ℕ) (n : ℤ)
      (s : Serving W)
      → Sound s
      → is_nonneg n ≡ true
      → i.left s.world < rounds
      → (t : Serving W) × (service_loop lws round rounds n s ≡ some t) × Ended lws round t
  unfolding service_loop
  service_loop_ends i zero n s k good h = absurd (omega arith)
  service_loop_ends i (suc rounds) n s k good h = elim (Bool-cases (lws.force_exit s.world)) [
    | inl stop ↦ (s, rw (good, stop) refl, by_flag stop)
    | inr run ↦
        let (r, made, sound, fewer) = i.comes_back s k run in
        elim (Round-cases r.0) [
          | inl gone ↦
              let made_so = made ∙ ap (λ t. some (t, r.1)) gone in
              (r.1, rw (good, run, made_so) refl, by_handler s made_so)
          | inr (m, more) ↦
              let made_so = made ∙ ap (λ t. some (t, r.1)) more in
              elim (Bool-cases (is_nonneg m)) [
                | inl fine ↦
                    let rest = service_loop_ends i rounds m r.1 sound fine (omega arith) in
                    (rest.0, rw (good, run, made_so) rest.1, rest.2)
                | inr bad ↦ (
                  r.1,
                  rw (good, run, made_so) (stops rounds m r.1 (omega arith) bad),
                  by_failure s m made_so bad,
                )
              ]
        ]
  ]
