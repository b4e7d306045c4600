-- ===== src/Server/Mirror.antt =====
-- `callback_lws_mirror` of secure-rfid-login.c: every message that comes in is kept in a ring of
-- 32, from which each session sends on to its page what it has not sent yet.
pub mod Queue
pub mod Sending
use secure_rfid_login.Common.{
  ℕ, zero, suc, ◌+◌, ◌-◌, ◌%◌, ◌^◌, Bool, true, false, Option, none, some, List, [], ℤ, pos, negsuc,
  minus_one, if◌then◌else◌, ltb, ◌==◌, length, get_or, set, replicate, value_or, Run, ok, finished,
  ◌>>=◌,
}
use secure_rfid_login.Server.{
  Connection, Reason, established, receive, server_writeable, protocol_destroy,
  filter_protocol_connection, filter_network_connection, http, http_writeable, http_file_completion,
  other,
}

abbrev pub max_message_queue : ℕ
max_message_queue = 32

-- The globals: the payloads (`none` for NULL) and the place of the next message.
pub record Mirror : Type 0 where
  pub ringbuffer : List (Option (List ℕ))
  pub head : ℕ

-- `(head - tail) & (MAX_MESSAGE_QUEUE - 1)` of two places in the ring.
abbrev pub backlog : (head tail : ℕ) → ℕ
backlog head tail = (max_message_queue + head - tail) % max_message_queue

-- The next place.
abbrev pub advance : ℕ → ℕ
advance i = if i == max_message_queue - 1 then 0 else i + 1

-- The bytes of a slot; a NULL payload has length 0.
abbrev pub payload_at : List (Option (List ℕ)) → ℕ → List ℕ
payload_at ring i = value_or [] (get_or ring i none)

-- `n < len` of an `int` and a 32-bit `size_t`: a negative `n` is taken modulo 2 ^ 32.
abbrev pub lt_size : ℤ → ℕ → Bool
lt_size (pos n) len = ltb n len
lt_size (negsuc n) len = ltb (2 ^ 32 - suc n) len

module _ {W : Type 0} (wsi : Connection W) where
  -- The branch LWS_CALLBACK_RECEIVE for a session at `tail`.
  pub mirror_receive : Mirror → (tail : ℕ) → List ℕ → W → Mirror × W
  mirror_receive m tail input w =
      let m' : Mirror = record {
        ringbuffer = set m.ringbuffer m.head (some input);
        head = advance m.head;
      } in
      if backlog m.head tail == max_message_queue - 1
      then (m, wsi.callback_on_writable_all (wsi.rx_flow_control 0 w))
      else if backlog m'.head tail == max_message_queue - 2
      then (m', wsi.callback_on_writable_all (wsi.rx_flow_control 0 w))
      else (m', wsi.callback_on_writable_all w)

  -- The loop of LWS_CALLBACK_SERVER_WRITEABLE: the value of the callback, and the session's new tail.
  pub write_loop : ℕ → Mirror → (tail : ℕ) → W → Option (ℤ × ℕ × W)
  write_loop zero m tail w = none
  write_loop (suc fuel) m tail w =
      let payload = payload_at m.ringbuffer tail in
      let (n, w1) = wsi.write payload w in
      let tail' = advance tail in
      let w2 =
        if backlog m.head tail' == max_message_queue - 15 then wsi.rx_flow_allow_all w1 else w1 in
      let rest = write_loop fuel m tail' w2 in
      if tail == m.head
      then some (pos 0, tail, w)
      else if lt_size n (length payload)
      then some (minus_one, tail, w1)
      else if wsi.send_pipe_choked w2
      then some (pos 0, tail', wsi.callback_on_writable w2)
      else rest

  -- A ring has no more than 31 messages to send.
  unfoldable pub mirror_writeable :
      (close_testing : Bool) → Mirror → (tail : ℕ) → W → Option (ℤ × ℕ × W)
  unfolding write_loop
  mirror_writeable close_testing m tail w =
      if close_testing then some (pos 0, tail, w) else write_loop max_message_queue m tail w

  -- The pointers that PROTOCOL_DESTROY frees are NULL here; it is the last call of the protocol.
  pub callback_lws_mirror :
      Reason → (close_testing : Bool) → Mirror → (tail : ℕ) → List ℕ → W → Run (ℤ × Mirror × ℕ × W)
  unfolding mirror_receive mirror_writeable
  callback_lws_mirror established close_testing m tail input w = ok (pos 0, m, m.head, w)
  callback_lws_mirror protocol_destroy close_testing m tail input w =
      ok (pos 0, record m { ringbuffer = replicate max_message_queue none }, tail, w)
  callback_lws_mirror server_writeable close_testing m tail input w = do
    (value, tail', w') ← finished (mirror_writeable close_testing m tail w)
    ok (value, m, tail', w')
  callback_lws_mirror receive close_testing m tail input w =
      let (m', w') = mirror_receive m tail input w in ok (pos 0, m', tail, w')
  callback_lws_mirror filter_protocol_connection close_testing m tail input w =
      ok (pos 0, m, tail, w)
  callback_lws_mirror filter_network_connection close_testing m tail input w =
      ok (pos 0, m, tail, w)
  callback_lws_mirror http close_testing m tail input w = ok (pos 0, m, tail, w)
  callback_lws_mirror http_writeable close_testing m tail input w = ok (pos 0, m, tail, w)
  callback_lws_mirror http_file_completion close_testing m tail input w = ok (pos 0, m, tail, w)
  callback_lws_mirror other close_testing m tail input w = ok (pos 0, m, tail, w)
