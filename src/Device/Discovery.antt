-- ===== src/Device/Discovery.antt =====
-- `wait_for_device` of ArduinoRFID.c: the search for the board over COM1 to COM16.
use secure_rfid_login.Common.{
  ℕ, zero, suc, ◌+◌, ◌≤◌, ◌<◌, ◌≡◌, ◌≢◌, refl, ap, subst, ◌∙◌, Bool, true, false, some, List, [],
  ◌∷◌, ℤ, pos, eq_ℤ, if◌then◌else◌, ◌==◌, length, set, overwrite, c_str, same_bytes, codes, arith,
}
use secure_rfid_login.Host.{Host}
use secure_rfid_login.Device.{
  Scan, baud_rate, setup_wait, init_message, probe, scan_step, scan_loop, wait_for_device,
}

-- The first three bytes of an answer are "OK!".
abbrev pub is_ok : List ℕ → List ℕ → Bool
is_ok old bytes = same_bytes (c_str (set (overwrite old bytes) 3 0)) (codes "OK!")

is_ok-ok : (old : List ℕ) → length old ≡ 4 → is_ok old (codes "OK!") ≡ true
is_ok-ok [] h = absurd (omega arith)
is_ok-ok (a ∷ []) h = absurd (omega arith)
is_ok-ok (a ∷ b ∷ []) h = absurd (omega arith)
is_ok-ok (a ∷ b ∷ c ∷ []) h = absurd (omega arith)
is_ok-ok (a ∷ b ∷ c ∷ d ∷ r) h = refl

module _ {W : Type 0} (host : Host W) where
  -- The port number never leaves the sixteen ports.
  scan_step_bounds :
      (s : Scan) (w : W) → s.port_number < 16 → (scan_step host s w).0.port_number < 16
  unfolding scan_step probe
  scan_step_bounds s w h = ground arith

  scan_loop_bounds :
      (fuel : ℕ) (s : Scan) (w : W) {p : ℕ} {w' : W}
      → s.port_number < 16
      → scan_loop host fuel s w ≡ some (p, w')
      → p < 16
  unfolding scan_loop
  scan_loop_bounds zero s w h e = cc
  scan_loop_bounds (suc fuel) s w {p} {w'} h e =
      let next = scan_step host s w in
      ground (arith, scan_step_bounds s w h, scan_loop_bounds fuel next.0 next.1 {p = p} {w' = w'})

  -- The port that `wait_for_device` returns is one of the sixteen.
  pub wait_for_device_bounds :
      (fuel : ℕ) (answer : List ℕ) (w : W) {p : ℕ} {w' : W}
      → wait_for_device host fuel answer w ≡ some (p, w')
      → p < 16
  unfolding wait_for_device
  wait_for_device_bounds fuel answer w e = scan_loop_bounds fuel _ w (omega arith) e

  -- The ports below `p` cannot be opened. `p` can; its board listens once it has had four seconds to
  -- start, and it answers "OK!" to an INIT that comes while it listens. Of a board that is not asked,
  -- or too early, nothing is known.
  pub record IsFirstAt (p : ℕ) : Type 0 where
    pub listening : W → Bool
    pub replying : W → Bool
    pub closed : (q : ℕ) (v : W) → q < p → (host.open_comport q baud_rate v).0 ≢ 0
    pub opens : (v : W) → (host.open_comport p baud_rate v).0 ≡ 0
    pub starts :
        (ms : ℕ) (v : W)
        → 4000 ≤ ms
        → listening (host.sleep ms (host.open_comport p baud_rate v).1) ≡ true
    pub hears :
        (v : W)
        → listening v ≡ true
        → let (sent, v') = host.send_buf (pos p) (codes "INIT\n") v in
          (sent ≡ pos 5) × (replying v' ≡ true)
    pub waits : (ms : ℕ) (v : W) → replying v ≡ true → replying (host.sleep ms v) ≡ true
    pub answers : (v : W) → replying v ≡ true → (host.poll_comport (pos p) 4 v).0 ≡ codes "OK!"

  scan_step_skips :
      (s : Scan) (w : W)
      → s.port_number < 15
      → (host.open_comport s.port_number baud_rate w).0 ≢ 0
      → (scan_step host s w).0 ≡ record s { port_number = s.port_number + 1 }
  unfolding scan_step probe
  scan_step_skips s w h k = ground arith

  scan_step_finds :
      (s : Scan) (w : W)
      → IsFirstAt s.port_number
      → s.port_number < 16
      → length s.answer ≡ 4
      → let s' = (scan_step host s w).0 in
        (s'.port_discovered ≡ true) × (s'.port_number ≡ s.port_number)
  unfolding scan_step probe
  scan_step_finds s w f h k =
      let w1 = (host.open_comport s.port_number baud_rate w).1 in
      let w2 = host.sleep setup_wait w1 in
      let (sent, w3) = host.send_buf (pos s.port_number) init_message w2 in
      let w4 = host.sleep 100 w3 in
      let heard = f.hears w2 (f.starts setup_wait w (omega arith)) in
      let sent_ok : eq_ℤ sent (pos 1) ≡ false = ground (arith, heard.0) in
      let answer = f.answers w4 (f.waits 100 w3 heard.1) in
      rw (f.opens w, sent_ok, answer, is_ok-ok s.answer k) (refl, ground arith)

  scan_loop_goes_on :
      (fuel : ℕ) (s : Scan) (w : W)
      → s.port_discovered ≡ false
      → scan_loop host (suc fuel) s w
        ≡ (let next = scan_step host s w in scan_loop host fuel next.0 next.1)
  unfolding scan_loop
  scan_loop_goes_on fuel s w d = ground arith

  scan_loop_finds :
      (fuel k p : ℕ) (s : Scan) (w : W)
      → IsFirstAt p
      → p < 16
      → s.port_number + k ≡ p
      → s.port_discovered ≡ false
      → length s.answer ≡ 4
      → k + 2 ≤ fuel
      → (w' : W) × (scan_loop host fuel s w ≡ some (p, w'))
  unfolding scan_loop
  scan_loop_finds zero k p s w f h e d l enough = absurd (omega arith)
  scan_loop_finds (suc zero) zero p s w f h e d l enough = absurd (omega arith)
  scan_loop_finds (suc (suc fuel)) zero p s w f h e d l enough =
      let here : p ≡ s.port_number = omega arith in
      let next = scan_step host s w in
      let found = scan_step_finds s w (subst IsFirstAt here f) (omega arith) l in
      (next.1, ground (arith, found))
  scan_loop_finds (suc fuel) (suc k) p s w f h e d l enough =
      let next = scan_step host s w in
      let skip = scan_step_skips s w (omega arith) (f.closed s.port_number w (omega arith)) in
      let rest =
        scan_loop_finds fuel k p next.0 next.1 f h (omega (arith, ap (λ t. t.port_number) skip))
          (ap (λ t. t.port_discovered) skip ∙ d) (ap (λ t. length t.answer) skip ∙ l)
          (omega arith) in
      (rest.0, scan_loop_goes_on fuel s w d ∙ rest.1)

  -- If no port below `p` can be opened, and the board on port `p` answers "OK!" to an INIT that is
  -- sent when the port has been open for four seconds, `wait_for_device` finds it, in at most p + 2
  -- rounds.
  pub wait_for_device_finds :
      (fuel p : ℕ) (answer : List ℕ) (w : W)
      → IsFirstAt p
      → p < 16
      → length answer ≡ 4
      → p + 2 ≤ fuel
      → (w' : W) × (wait_for_device host fuel answer w ≡ some (p, w'))
  unfolding wait_for_device
  wait_for_device_finds fuel p answer w f h l enough =
      scan_loop_finds fuel p p _ w f h (omega arith) refl l enough

  -- Which ports the process holds open.
  pub record Tracks : Type 0 where
    pub is_open : ℕ → W → Bool
    pub open_opens :
        (p b : ℕ) (v : W)
        → (host.open_comport p b v).0 ≡ 0
        → is_open p (host.open_comport p b v).1 ≡ true
    pub close_keeps :
        (p q : ℕ) (v : W) → p ≢ q → is_open p (host.close_comport (pos q) v) ≡ is_open p v
    pub send_keeps :
        (p : ℕ) (port : ℤ) (b : List ℕ) (v : W) → is_open p (host.send_buf port b v).1 ≡ is_open p v
    pub poll_keeps :
        (p n : ℕ) (port : ℤ) (v : W) → is_open p (host.poll_comport port n v).1 ≡ is_open p v
    pub sleep_keeps : (p ms : ℕ) (v : W) → is_open p (host.sleep ms v) ≡ is_open p v

  -- When a port is opened but its device does not answer "OK!", the search goes on with the next port
  -- (the first after the last) and leaves the refused port open: it closes the next number instead.
  pub scan_step_leaves_open :
      (t : Tracks) (s : Scan) (w : W)
      → let (failed, w1) = host.open_comport s.port_number baud_rate w in
        let (sent, w2) =
          host.send_buf (pos s.port_number) init_message (host.sleep setup_wait w1) in
        let (bytes, _) = host.poll_comport (pos s.port_number) 4 (host.sleep 100 w2) in
        failed ≡ 0
        → sent ≢ pos 1
        → is_ok s.answer bytes ≡ false
        → let (s', w') = scan_step host s w in
          (t.is_open s.port_number w' ≡ true)
          × (s'.port_discovered ≡ s.port_discovered)
          × (s'.port_number ≡ (if s.port_number == 15 then 0 else s.port_number + 1))
  unfolding scan_step probe
  scan_step_leaves_open t s w f k b =
      let p = s.port_number in
      let w1 = (host.open_comport p baud_rate w).1 in
      let w2 = host.sleep setup_wait w1 in
      let w3 = (host.send_buf (pos p) init_message w2).1 in
      let w4 = host.sleep 100 w3 in
      let w5 = (host.poll_comport (pos p) 4 w4).1 in
      let w6 = host.close_comport (pos (p + 1)) w5 in
      ground (
        arith,
        t.open_opens p baud_rate w f,
        t.sleep_keeps p setup_wait w1,
        t.send_keeps p (pos p) init_message w2,
        t.sleep_keeps p 100 w3,
        t.poll_keeps p 4 (pos p) w4,
        t.close_keeps p (p + 1) w5,
        t.sleep_keeps p 100 w6,
      )
