-- ===== src/Device/Block.antt =====
-- `write_block` of ArduinoRFID.c: which bytes go to the port.
use secure_rfid_login.Common.{
  ℕ, zero, suc, ◌+◌, ◌*◌, ◌≡◌, ◌≢◌, sym, ap, ◌∙◌, List, ◌∷◌, ◌++◌, append-nil, append_assoc, ℤ,
  take-split, drop-drop, take_all, set-append, overwrite-append, ne→==_false, length, length-append,
  take, drop, slice, set, zeros, write_at, arith,
}
use secure_rfid_login.Host.{Host}
use secure_rfid_login.Device.{send_chunks, write_block}

-- A port that sends every byte, in order, and a record of what it has sent.
pub record Sends {W : Type 0} (host : Host W) (port : ℤ) : Type 0 where
  pub sent : W → List ℕ
  pub send_sent : (bytes : List ℕ) (w : W) → sent (host.send_buf port bytes w).1 ≡ sent w ++ bytes
  pub sleep_sent : (ms : ℕ) (w : W) → sent (host.sleep ms w) ≡ sent w

pub slice-split :
    (i n : ℕ) (buf : List ℕ)
    → slice (i * 16) 16 buf ++ slice ((i + 1) * 16) (n * 16) buf ≡ slice (i * 16) (suc n * 16) buf
slice-split i n buf =
    ap (λ t. slice (i * 16) 16 buf ++ take (n * 16) t)
      (sym (drop-drop 16 (i * 16) buf {k = (i + 1) * 16} (omega arith)))
    ∙ take-split 16 (n * 16) (drop (i * 16) buf) (omega arith)

-- The 80 bytes that the loop sends.
my_block_lem :
    (block : List ℕ) (number : ℕ)
    → length block ≡ 64
    → set (write_at (zeros 80) 0 (take 64 block)) 64 number ≡ block ++ (number ∷ zeros 15)
my_block_lem block number h =
    ap (λ t. set (write_at (zeros 80) 0 t) 64 number) (take_all block {n = 64} (omega arith))
    ∙ ap (λ t. set t 64 number)
        (overwrite-append (zeros 80) block (omega arith) ∙ ap (λ k. block ++ drop k (zeros 80)) h)
    ∙ set-append block 0 number (zeros 15) (sym h)

module _ {W : Type 0} (host : Host W) (port : ℤ) (log : Sends host port) where
  send_chunks_sent :
      (n i : ℕ) (buf : List ℕ) (w : W)
      → log.sent (send_chunks host n i port buf w) ≡ log.sent w ++ slice (i * 16) (n * 16) buf
  unfolding send_chunks
  send_chunks_sent zero i buf w = sym (append-nil (log.sent w))
  send_chunks_sent (suc n) i buf w =
      send_chunks_sent n (i + 1) buf _
      ∙ ap (λ t. t ++ slice ((i + 1) * 16) (n * 16) buf)
          (log.send_sent (slice (i * 16) 16 buf) (host.sleep 500 w)
            ∙ ap (λ t. t ++ slice (i * 16) 16 buf) (log.sleep_sent 500 w))
      ∙ append_assoc (log.sent w) (slice (i * 16) 16 buf) (slice ((i + 1) * 16) (n * 16) buf)
      ∙ ap (λ t. log.sent w ++ t) (slice-split i n buf)

  -- A block of 64 bytes goes out as exactly those bytes, its number, and 15 zero bytes; for any other
  -- length nothing is done.
  pub write_block_sent :
      (block : List ℕ) (len number : ℕ) (w : W)
      → length block ≡ len
      → (len ≡ 64
          → log.sent (write_block host port block len number w)
            ≡ log.sent w ++ (block ++ (number ∷ zeros 15)))
        × (len ≢ 64 → write_block host port block len number w ≡ w)
  unfolding write_block
  write_block_sent block len number w h = (
    λ e.
        rw (e, log.sleep_sent, send_chunks_sent)
          (ap (λ t. log.sent w ++ t)
            (ap (slice 0 80) (my_block_lem block number (h ∙ e))
              ∙ take_all (block ++ (number ∷ zeros 15)) {n = 80}
                  (omega (arith, length-append block (number ∷ zeros 15))))),
    λ e. rw (ne→==_false len 64 e),
  )
