-- ===== src/Server/Mirror/Queue.antt =====
-- The ring of `callback_lws_mirror` as the queue of messages that a session has still to send.
use secure_rfid_login.Common.{
  ℕ, zero, suc, ◌+◌, ◌%◌, ◌≤◌, ◌<◌, ◌≡◌, ◌≢◌, refl, sym, ap, ap₂, ◌∙◌, Option, none, some, List, [],
  ◌∷◌, ◌++◌, if◌then◌else◌, ◌==◌, Bool-cases, inl, inr, length, length-set, get_or-set_self,
  get_or-set_other, set, value_or, ==→eq, ◌||◌, arith,
}
use secure_rfid_login.Server.{Connection}
use secure_rfid_login.Server.Mirror.{Mirror, backlog, advance, payload_at, mirror_receive}

-- The `n` messages from place `tail` on.
abbrev pub queued : List (Option (List ℕ)) → (tail n : ℕ) → List (List ℕ)
queued ring tail zero = []
queued ring tail (suc n) = payload_at ring tail ∷ queued ring (advance tail) n

-- What a session at `tail` has to send.
abbrev pub pending : Mirror → (tail : ℕ) → List (List ℕ)
pending m tail = queued m.ringbuffer tail (backlog m.head tail)

-- The ring has its 32 places, and its head and the session's tail are among them.
pub record IsRing (m : Mirror) (tail : ℕ) : Type 0 where
  pub size : length m.ringbuffer ≡ 32
  pub head_in : m.head < 32
  pub tail_in : tail < 32

pub advance_in : (i : ℕ) → i < 32 → advance i < 32
advance_in i h = ground arith

pub backlog-advance :
    (head tail : ℕ)
    → head < 32
    → tail < 32
    → tail ≢ head
    → backlog head tail ≡ suc (backlog head (advance tail))
backlog-advance head tail h t e = ground arith

-- The place behind `n` messages.
abbrev place : ℕ → ℕ → ℕ
place tail n = (tail + n) % 32

advance-place : (tail n : ℕ) → tail < 32 → place (advance tail) n ≡ place tail (suc n)
advance-place tail n h = ground arith

queued_last :
    (ring : List (Option (List ℕ))) (tail n : ℕ)
    → tail < 32
    → queued ring tail (suc n) ≡ queued ring tail n ++ (payload_at ring (place tail n) ∷ [])
queued_last ring tail zero h =
    let same : tail ≡ place tail 0 = omega arith in ap (λ i. payload_at ring i ∷ []) same
queued_last ring tail (suc n) h =
    ap (λ t. payload_at ring tail ∷ t)
      (queued_last ring (advance tail) n (advance_in tail h)
        ∙ ap (λ i. queued ring (advance tail) n ++ (payload_at ring i ∷ []))
            (advance-place tail n h))

-- Messages in front of the head are not touched by a write at the head.
queued-set :
    (ring : List (Option (List ℕ))) (head tail n : ℕ) (x : Option (List ℕ))
    → head < 32
    → tail < 32
    → n ≤ backlog head tail
    → queued (set ring head x) tail n ≡ queued ring tail n
queued-set ring head tail zero x h t le = refl
queued-set ring head tail (suc n) x h t le =
    let apart : head ≢ tail = λ e. absurd (omega (arith, e)) in
    ap₂ ◌∷◌ (ap (value_or []) (get_or-set_other ring head tail x none apart)) (
      queued-set ring head (advance tail) n x h (advance_in tail t)
        (omega (arith, backlog-advance head tail h t (λ e. apart (sym e)))))

place-backlog : (head tail : ℕ) → head < 32 → tail < 32 → place tail (backlog head tail) ≡ head
place-backlog head tail h t = omega arith

backlog-grows :
    (head tail : ℕ)
    → head < 32
    → tail < 32
    → backlog head tail ≢ 31
    → backlog (advance head) tail ≡ suc (backlog head tail)
backlog-grows head tail h t e = ground arith

-- A message at the head is the last one pending.
pending_stored :
    (m : Mirror) (tail : ℕ) (input : List ℕ)
    → IsRing m tail
    → backlog m.head tail ≢ 31
    → queued (set m.ringbuffer m.head (some input)) tail (backlog (advance m.head) tail)
      ≡ pending m tail ++ (input ∷ [])
pending_stored m tail input r e =
    let stored = set m.ringbuffer m.head (some input) in
    ap (queued stored tail) (backlog-grows m.head tail r.head_in r.tail_in e)
    ∙ queued_last stored tail (backlog m.head tail) r.tail_in
    ∙ ap₂ ◌++◌
        (queued-set m.ringbuffer m.head tail (backlog m.head tail) (some input) r.head_in r.tail_in
          (omega arith))
        (ap (λ i. payload_at stored i ∷ []) (place-backlog m.head tail r.head_in r.tail_in)
          ∙ ap (λ x. value_or [] x ∷ [])
              (get_or-set_self m.ringbuffer m.head (some input) none
                (omega (arith, r.size, r.head_in))))

module _ {W : Type 0} (wsi : Connection W) where
  -- The receiving of a message keeps the ring well formed. With fewer than 31 messages to send, the
  -- session's queue gets the message at its end; with 31 the message is dropped and nothing changes.
  -- The session is throttled if the message makes the backlog 30 or is dropped, and in every case all
  -- sessions are asked to send.
  pub mirror_receive-pending :
      (m : Mirror) (tail : ℕ) (input : List ℕ) (w : W)
      → IsRing m tail
      → let (m', w') = mirror_receive wsi m tail input w in
        IsRing m' tail
        × (backlog m.head tail ≢ 31 → pending m' tail ≡ pending m tail ++ (input ∷ []))
        × (backlog m.head tail ≡ 31 → m' ≡ m)
        × (w'
            ≡ wsi.callback_on_writable_all (
                if (backlog m.head tail == 29) || (backlog m.head tail == 31)
                then wsi.rx_flow_control 0 w
                else w))
  unfolding mirror_receive
  mirror_receive-pending m tail input w r = elim (Bool-cases (backlog m.head tail == 31)) [
    | inl full ↦
        rw full (
          r,
          λ e. absurd (e (==→eq (backlog m.head tail) 31 full)),
          λ e. refl,
          ground (arith, full),
        )
    | inr room ↦
        let grows = backlog-grows m.head tail r.head_in r.tail_in (λ e. ground (arith, e, room)) in
        let kept : IsRing
            (record m { ringbuffer = set m.ringbuffer m.head (some input); head = advance m.head })
            tail =
          record {
            size = length-set m.ringbuffer m.head (some input) ∙ r.size;
            head_in = advance_in m.head r.head_in;
            tail_in = r.tail_in;
          } in
        elim (Bool-cases (backlog (advance m.head) tail == 30)) [
          | inl high ↦
              rw (room, high)
                (
                  kept,
                  λ e. pending_stored m tail input r e,
                  λ e. absurd (ground (arith, e, room)),
                  ground (arith, grows, high, room),
                )
          | inr low ↦
              rw (room, low)
                (
                  kept,
                  λ e. pending_stored m tail input r e,
                  λ e. absurd (ground (arith, e, room)),
                  ground (arith, grows, low, room),
                )
        ]
  ]

  -- Only the sender's backlog is looked at: if another session has 31 messages to send, and the sender
  -- has not, the next message leaves that session with nothing to send, and all 32 are lost to it.
  pub mirror_receive_overtakes :
      (m : Mirror) (tail other_tail : ℕ) (input : List ℕ) (w : W)
      → IsRing m tail
      → other_tail < 32
      → backlog m.head tail ≢ 31
      → backlog m.head other_tail ≡ 31
      → let (m', _) = mirror_receive wsi m tail input w in
        (length (pending m other_tail) ≡ 31) × (pending m' other_tail ≡ [])
  unfolding mirror_receive
  mirror_receive_overtakes m tail other_tail input w r o room full =
      let none_left : backlog (advance m.head) other_tail ≡ 0 = ground (arith, r.head_in, full) in
      (
        length-queued m.ringbuffer other_tail (backlog m.head other_tail) ∙ full,
        ground (arith, room, none_left),
      )
    where
      length-queued : (ring : List (Option (List ℕ))) (tail n : ℕ) → length (queued ring tail n) ≡ n
      length-queued ring tail zero = refl
      length-queued ring tail (suc n) = ap suc (length-queued ring (advance tail) n)
