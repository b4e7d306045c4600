-- ===== src/Board/Writing/Blocks.antt =====
-- One block of a message on argoRFID_Writer.ino, over as many calls of its `loop` as it takes to come
-- in.
use secure_rfid_login.Common.{
  ℕ, ◌+◌, ◌≤◌, ◌<◌, ◌≡◌, ◌≢◌, refl, sym, ap, subst, ◌∙◌, none, some, Option, List, [], ◌∷◌, ◌++◌,
  append_assoc, length, take, get_or, length-append, take-append, ne→==_false, eq→==, get_or-append,
  ◌-◌, arith,
}
use secure_rfid_login.Board.{Uno, Mfrc522}
use secure_rfid_login.Board.Layout.{put}
use secure_rfid_login.Board.Writing.{Board, loop}
use secure_rfid_login.Board.Writing.Arrays.{at}
use secure_rfid_login.Board.Writing.Collect.{Queue, Holds, Collects, more, whole, complete, refused}
use secure_rfid_login.Board.Writing.Receive.{receive_message-Collects, Collects-step}

module _ {W : Type 0} (uno : Uno W) (mfrc522 : Mfrc522 W) where
  -- Calls of `loop`, each in the world that it finds; only the globals stay from one to the next.
  abbrev pub calls : (fuel : ℕ) → List W → Board → Option Board
  calls fuel [] s = some s
  calls fuel (w ∷ ws) s = elim (loop uno mfrc522 fuel s w) [
    | none ↦ none
    | some (s', w') ↦ calls fuel ws s'
  ]

  calls_cons :
      (fuel : ℕ) (w : W) (rest : List W) (s s' : Board) (w' : W)
      → loop uno mfrc522 fuel s w ≡ some (s', w')
      → calls fuel (w ∷ rest) s ≡ calls fuel rest s'
  calls_cons fuel w rest s s' w' e = go (loop uno mfrc522 fuel s w) e
    where
      go :
          (o : Option (Board × W))
          → o ≡ some (s', w')
          → ◌≡◌ {A = Option Board}
              (elim o [ none ↦ none | some (t, v) ↦ calls fuel rest t ])
              (calls fuel rest s')
      go o e = rw e refl

-- What is known when the bytes do not fill the block.
record Grown (blocks : ℕ → List ℕ) (all : List ℕ) (s s' : Board) : Type 0 where
  holds : Holds blocks all s'
  block : s'.num_of_block ≡ s.num_of_block
  linked : s'.connection_done ≡ s.connection_done
  waits : s'.block_ready ≡ s.block_ready

grown :
    (blocks : ℕ → List ℕ) (all : List ℕ) (s s' : Board)
    → Collects blocks all s s'
    → length all ≤ 64
    → Grown blocks all s s'
grown blocks all s s' (more l h k c r) b = record { holds = h; block = k; linked = c; waits = r }
grown blocks all s s' (whole l g n h k c r) b = absurd (omega arith)
grown blocks all s s' (complete l g n f h k c r) b = absurd (omega arith)
grown blocks all s s' (refused l g h k c r) b = absurd (omega arith)

module _ (bytes junk : List ℕ) (number : ℕ) (size : length bytes ≡ 64) where
  long : 64 < length (bytes ++ (number ∷ junk))
  long = omega (arith, length-append bytes (number ∷ junk))

  first : take 64 (bytes ++ (number ∷ junk)) ≡ bytes
  first = take-append bytes (number ∷ junk) size

  behind : get_or (bytes ++ (number ∷ junk)) 64 0 ≡ number
  behind =
      let z : 64 - length bytes ≡ 0 = omega arith in
      get_or-append bytes (number ∷ junk) 64 0 (omega arith)
      ∙ ap (λ t. get_or (number ∷ junk) t 0) z

  -- One of the first three blocks with its number.
  taken_over :
      (blocks : ℕ → List ℕ) (s s' : Board)
      → Collects blocks (bytes ++ (number ∷ junk)) s s'
      → number ≡ s.num_of_block + 0x30
      → s.num_of_block ≢ 3
      → Holds (put s.num_of_block bytes blocks) [] s'
        × (s'.num_of_block ≡ s.num_of_block + 1)
        × (s'.connection_done ≡ s.connection_done)
        × (s'.block_ready ≡ s.block_ready)
  taken_over blocks s s' (more l h k c r) e n = absurd (omega (arith, long))
  taken_over blocks s s' (whole l g m h k c r) e n =
      (subst (λ t. Holds (put s.num_of_block t blocks) [] s') first h, k, c, r)
  taken_over blocks s s' (complete l g m f h k c r) e n = absurd (n m)
  taken_over blocks s s' (refused l g h k c r) e n = absurd (g (behind ∙ e))

  -- The last block with its number.
  pub completed :
      (blocks : ℕ → List ℕ) (s s' : Board)
      → Collects blocks (bytes ++ (number ∷ junk)) s s'
      → number ≡ s.num_of_block + 0x30
      → s.num_of_block ≡ 3
      → ((i : ℕ) → i < 4 → take 64 (at s' i) ≡ put 3 bytes blocks i)
        × (s'.block_ready ≡ 1)
        × (s'.connection_done ≡ s.connection_done)
  completed blocks s s' (more l h k c r) e n = absurd (omega (arith, long))
  completed blocks s s' (whole l g m h k c r) e n = absurd (m n)
  completed blocks s s' (complete l g m f h k c r) e n =
      (λ i j. f i j ∙ ap (λ t. put 3 t blocks i) first, r, c)
  completed blocks s s' (refused l g h k c r) e n = absurd (g (behind ∙ e))

module _ {W : Type 0} (uno : Uno W) (mfrc522 : Mfrc522 W) (queue : Queue uno) where
  -- What has come in before each of the calls.
  abbrev pub arrived : List W → List ℕ
  arrived [] = []
  arrived (w ∷ ws) = queue.pending w ++ arrived ws

  -- A call while the board waits for a message.
  loop-Collects :
      (fuel : ℕ) (blocks : ℕ → List ℕ) (got : List ℕ) (s : Board) (w : W)
      → Holds blocks got s
      → s.connection_done ≢ 0
      → s.block_ready ≡ 0
      → queue.capacity < fuel
      → (s' : Board) × (w' : W) × (loop uno mfrc522 fuel s w ≡ some (s', w'))
        × Collects blocks (got ++ queue.pending w) s s'
  unfolding loop
  loop-Collects fuel blocks got s w h linked waits room =
      let r = receive_message-Collects uno mfrc522 queue fuel blocks got s w h room in
      (
        r.0,
        uno.delay 100 r.1,
        rw (ne→==_false s.connection_done 0 linked, eq→== s.block_ready 0 waits, r.2) refl,
        r.4,
      )

  -- The calls in which a block comes in: `ws`, in which up to 64 bytes come, and the one in which its
  -- number comes, with whatever else.
  pub record Brings (bytes : List ℕ) (number : ℕ) (ws : List W) (w : W) : Type 0 where
    pub junk : List ℕ
    pub before : length (arrived ws) ≤ 64
    pub comes : arrived ws ++ queue.pending w ≡ bytes ++ (number ∷ junk)

  pub calls-Collects :
      (fuel : ℕ) (blocks : ℕ → List ℕ) (got : List ℕ) (s : Board) (ws : List W) (w : W)
      (rest : List W)
      → Holds blocks got s
      → s.connection_done ≢ 0
      → s.block_ready ≡ 0
      → queue.capacity < fuel
      → length (got ++ arrived ws) ≤ 64
      → (s' : Board) × (calls uno mfrc522 fuel (ws ++ (w ∷ rest)) s
          ≡ calls uno mfrc522 fuel rest s')
        × Collects blocks (got ++ (arrived ws ++ queue.pending w)) s s'
  calls-Collects fuel blocks got s [] w rest h linked waits room l =
      let r = loop-Collects fuel blocks got s w h linked waits room in
      (r.0, calls_cons uno mfrc522 fuel w rest s r.0 r.1 r.2, r.3)
  calls-Collects fuel blocks got s (v ∷ ws) w rest h linked waits room l =
      let r = loop-Collects fuel blocks got s v h linked waits room in
      let join = append_assoc got (queue.pending v) (arrived ws) in
      let g =
        grown blocks (got ++ queue.pending v) s r.0 r.3
          (omega (arith, l, ap length join, length-append (got ++ queue.pending v) (arrived ws))) in
      let ih =
        calls-Collects fuel blocks (got ++ queue.pending v) r.0 ws w rest g.holds
          (λ e. linked (sym g.linked ∙ e)) (g.waits ∙ waits) room
          (omega (arith, l, ap length join)) in
      (
        ih.0,
        calls_cons uno mfrc522 fuel v (ws ++ (w ∷ rest)) s r.0 r.1 r.2 ∙ ih.1,
        subst (λ t. Collects blocks t s ih.0)
            (append_assoc got (queue.pending v) (arrived ws ++ queue.pending w)
              ∙ ap (λ t. got ++ t)
                  (sym (append_assoc (queue.pending v) (arrived ws) (queue.pending w))))
            (Collects-step uno mfrc522 queue blocks _ s r.0 ih.0 g.block g.linked g.waits ih.2),
      )

  -- One of the first three.
  pub next_block :
      (fuel : ℕ) (blocks : ℕ → List ℕ) (s : Board) (k : ℕ) (bytes : List ℕ) (ws : List W) (w : W)
      (rest : List W)
      → Holds blocks [] s
      → s.num_of_block ≡ k
      → s.connection_done ≢ 0
      → s.block_ready ≡ 0
      → queue.capacity < fuel
      → length bytes ≡ 64
      → Brings bytes (k + 0x30) ws w
      → k < 3
      → (s' : Board) × (calls uno mfrc522 fuel (ws ++ (w ∷ rest)) s
          ≡ calls uno mfrc522 fuel rest s')
        × Holds (put k bytes blocks) [] s'
        × (s'.num_of_block ≡ k + 1)
        × (s'.connection_done ≡ s.connection_done)
        × (s'.block_ready ≡ s.block_ready)
  next_block fuel blocks s k bytes ws w rest h at_k linked waits room size b less =
      let r = calls-Collects fuel blocks [] s ws w rest h linked waits room b.before in
      let t =
        taken_over bytes b.junk (k + 0x30) size blocks s r.0
          (subst (λ t. Collects blocks t s r.0) b.comes r.2) (omega (arith, at_k))
          (λ e. absurd (omega (arith, at_k))) in
      (
        r.0,
        r.1,
        subst (λ i. Holds (put i bytes blocks) [] r.0) at_k t.0,
        t.1 ∙ ap (λ i. i + 1) at_k,
        t.2,
        t.3,
      )
