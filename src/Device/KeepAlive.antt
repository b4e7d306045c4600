-- ===== src/Device/KeepAlive.antt =====
-- `receive_keep_alive` of ArduinoRFID.c: how the two bytes of an answer are read.
use secure_rfid_login.Common.{
  ℕ, ◌≤◌, ◌≡◌, ◌≢◌, refl, none, some, List, [], ◌∷◌, ℤ, length, zeros, overwrite, arith,
}
use secure_rfid_login.Host.{Host}
use secure_rfid_login.Device.{
  ka_received, ss_received, response_buffer_length, compare_keep_alive, classify_response,
  receive_keep_alive,
}

-- The answers of the board.
abbrev pub ka_answer : List ℕ
ka_answer = b'K' ∷ b'A' ∷ []

abbrev pub ss_answer : List ℕ
ss_answer = b'S' ∷ b'S' ∷ []

-- What `compare_keep_alive` makes of the bytes that came into a cleared buffer.
compare_keep_alive_lem :
    (bytes : List ℕ)
    → length bytes ≤ 2
    → let verdict = compare_keep_alive (overwrite (zeros 2) bytes) in
      (bytes ≡ ka_answer → verdict ≡ some ka_received)
      × (bytes ≡ ss_answer → verdict ≡ some ss_received)
      × (bytes ≢ ka_answer → bytes ≢ ss_answer → verdict ≡ none)
unfolding compare_keep_alive
compare_keep_alive_lem [] h = (λ e. cc, λ e. cc, λ k s. refl)
compare_keep_alive_lem (a ∷ []) h = (λ e. cc, λ e. cc, λ k s. ground arith)
compare_keep_alive_lem (a ∷ b ∷ []) h = (λ e. ground arith, λ e. ground arith, λ k s. ground arith)
compare_keep_alive_lem (a ∷ b ∷ c ∷ r) h = absurd (omega arith)

module _ {W : Type 0} (host : Host W) (garbage port : ℤ) (w : W) where
  -- On a cleared buffer, `receive_keep_alive` reports KA for "KA" and SS for "SS", clears the buffer
  -- again, and for any other answer of at most two bytes reports what is made of the indeterminate
  -- value that `compare_keep_alive` leaves: SS, KA or -1.
  pub receive_keep_alive_lem :
      (let (bytes, _) = host.poll_comport port response_buffer_length w in length bytes ≤ 2)
      → let (bytes, w1) = host.poll_comport port response_buffer_length w in
        let (answer, response, w') = receive_keep_alive host garbage port (zeros 2) w in
        (bytes ≡ ka_answer → answer ≡ ka_received)
        × (bytes ≡ ss_answer → answer ≡ ss_received)
        × (bytes ≢ ka_answer → bytes ≢ ss_answer → answer ≡ classify_response garbage)
        × (response ≡ zeros 2)
        × (w' ≡ w1)
  unfolding receive_keep_alive classify_response
  receive_keep_alive_lem h =
      let c = compare_keep_alive_lem (host.poll_comport port response_buffer_length w).0 h in
      (λ e. rw (c.0 e), λ e. rw (c.1 e), λ k s. rw (c.2 k s), refl, refl)
