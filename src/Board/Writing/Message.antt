-- ===== src/Board/Writing/Message.antt =====
-- The four blocks of a message on argoRFID_Writer.ino.
use secure_rfid_login.Common.{
  ℕ, ◌<◌, ◌≡◌, ◌≢◌, sym, subst, ◌∙◌, some, List, [], ◌∷◌, ◌++◌, length, take, arith,
}
use secure_rfid_login.Board.{Uno, Mfrc522}
use secure_rfid_login.Board.Layout.{put}
use secure_rfid_login.Board.Writing.{Board}
use secure_rfid_login.Board.Writing.Collect.{Queue, Holds, Collects}
use secure_rfid_login.Board.Writing.Blocks.{calls, Brings, completed, calls-Collects, next_block}

module _ {W : Type 0} (uno : Uno W) (mfrc522 : Mfrc522 W) (queue : Queue uno) where
  -- The first three.
  three_blocks :
      (fuel : ℕ) (blocks : ℕ → List ℕ) (s : Board) (n c u : List ℕ) (ws1 ws2 ws3 : List W)
      (w1 w2 w3 : W) (rest : List W)
      → Holds blocks [] s
      → s.num_of_block ≡ 0
      → s.connection_done ≢ 0
      → s.block_ready ≡ 0
      → queue.capacity < fuel
      → length n ≡ 64
      → length c ≡ 64
      → length u ≡ 64
      → Brings uno mfrc522 queue n 0x30 ws1 w1
      → Brings uno mfrc522 queue c 0x31 ws2 w2
      → Brings uno mfrc522 queue u 0x32 ws3 w3
      → (s' : Board) × (calls uno mfrc522 fuel
            (ws1 ++ (w1 ∷ (ws2 ++ (w2 ∷ (ws3 ++ (w3 ∷ rest))))))
            s
          ≡ calls uno mfrc522 fuel rest s')
        × Holds (put 2 u (put 1 c (put 0 n blocks))) [] s'
        × (s'.num_of_block ≡ 3)
        × (s'.connection_done ≡ s.connection_done)
        × (s'.block_ready ≡ s.block_ready)
  three_blocks fuel blocks s n c u ws1 ws2 ws3 w1 w2 w3 rest h k linked waits room hn hc hu b1 b2
        b3 =
      let (s1, e1, h1, k1, c1, r1) =
        next_block uno mfrc522 queue fuel blocks s 0 n ws1 w1 (ws2 ++ (w2 ∷ (ws3 ++ (w3 ∷ rest)))) h
          k linked waits room hn b1 (omega arith) in
      let (s2, e2, h2, k2, c2, r2) =
        next_block uno mfrc522 queue fuel (put 0 n blocks) s1 1 c ws2 w2 (ws3 ++ (w3 ∷ rest)) h1 k1
          (λ e. linked (sym c1 ∙ e)) (r1 ∙ waits) room hc b2 (omega arith) in
      let (s3, e3, h3, k3, c3, r3) =
        next_block uno mfrc522 queue fuel (put 1 c (put 0 n blocks)) s2 2 u ws3 w3 rest h2 k2
          (λ e. linked (sym c1 ∙ sym c2 ∙ e)) (r2 ∙ r1 ∙ waits) room hu b3 (omega arith) in
      (s3, e1 ∙ e2 ∙ e3, h3, k3, c3 ∙ c2 ∙ c1, r3 ∙ r2 ∙ r1)

  -- Let the board wait for the first block of a message. If four blocks of 64 bytes come in one
  -- after the other, each in up to 64 bytes and then its number, in as many calls of loop as it
  -- takes, and the board has fuel for what its receive buffer holds, then every call comes back,
  -- the board is ready for a card, and its four arrays hold the four blocks.
  pub calls-Brings :
      (fuel : ℕ) (blocks : ℕ → List ℕ) (s : Board) (n c u p : List ℕ) (ws1 ws2 ws3 ws4 : List W)
      (w1 w2 w3 w4 : W)
      → Holds blocks [] s
      → s.num_of_block ≡ 0
      → s.connection_done ≢ 0
      → s.block_ready ≡ 0
      → queue.capacity < fuel
      → length n ≡ 64
      → length c ≡ 64
      → length u ≡ 64
      → length p ≡ 64
      → Brings uno mfrc522 queue n 0x30 ws1 w1
      → Brings uno mfrc522 queue c 0x31 ws2 w2
      → Brings uno mfrc522 queue u 0x32 ws3 w3
      → Brings uno mfrc522 queue p 0x33 ws4 w4
      → (s' : Board) × (calls uno mfrc522 fuel
            (ws1 ++ (w1 ∷ (ws2 ++ (w2 ∷ (ws3 ++ (w3 ∷ (ws4 ++ (w4 ∷ []))))))))
            s
          ≡ some s')
        × (s'.block_ready ≡ 1)
        × (s'.connection_done ≡ s.connection_done)
        × (take 64 s'.nome ≡ n)
        × (take 64 s'.cognome ≡ c)
        × (take 64 s'.user ≡ u)
        × (take 64 s'.psw ≡ p)
  calls-Brings fuel blocks s n c u p ws1 ws2 ws3 ws4 w1 w2 w3 w4 h k linked waits room hn hc hu hp
        b1 b2 b3 b4 =
      let (s3, e3, h3, k3, c3, r3) =
        three_blocks fuel blocks s n c u ws1 ws2 ws3 w1 w2 w3 (ws4 ++ (w4 ∷ [])) h k linked waits
          room hn hc hu b1 b2 b3 in
      let before : ℕ → List ℕ = put 2 u (put 1 c (put 0 n blocks)) in
      let (s4, e4, made) =
        calls-Collects uno mfrc522 queue fuel before [] s3 ws4 w4 [] h3 (λ e. linked (sym c3 ∙ e))
          (r3 ∙ waits) room b4.before in
      let (held, ready, same) =
        completed p b4.junk 0x33 hp before s3 s4
          (subst (λ t. Collects before t s3 s4) b4.comes made) (omega (arith, k3)) k3 in
      (
        s4,
        e3 ∙ e4,
        ready,
        same ∙ c3,
        held 0 (omega arith),
        held 1 (omega arith),
        held 2 (omega arith),
        held 3 (omega arith),
      )
