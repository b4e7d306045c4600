-- ===== src/Server/Http/Sending.antt =====
-- What the loop of `callback_http` of secure-rfid-login.c sends of a file.
use secure_rfid_login.Common.{
  ℕ, zero, suc, ◌+◌, ◌-◌, ◌≤◌, ◌<◌, ◌≡◌, refl, sym, ap, ◌∙◌, inl, inr, true, some, List, [], ◌∷◌,
  ◌++◌, append_assoc, append-nil, ℤ, pos, negsuc, minus_one, eq_ℤ, is_nonneg, if◌then◌else◌, ◌==◌,
  Bool-cases, length, take, drop, drop-drop, arith, some_inj, subst, lt→ltb,
}
use secure_rfid_login.Server.{Connection}
use secure_rfid_login.Server.Http.{Files, minus, as_length, send_file}

-- A file that was opened as `fd`: its bytes, the place that is read next, and what the page has got of
-- it. A write takes a first part of what it is given.
pub record IsFile {W : Type 0} (wsi : Connection W) (files : Files W) (fd : ℤ) : Type 0 where
  pub content : List ℕ
  pub offset : W → ℕ
  pub got : W → List ℕ
  pub reads :
      (w : W)
      → let (n, bytes, w') = files.read fd 4096 w in
        (n ≡ pos (length bytes))
        × (drop (offset w) content ≡ bytes ++ drop (offset w') content)
        × (offset w' ≡ offset w + length bytes)
        × (got w' ≡ got w)
  pub writes :
      (bytes : List ℕ) (w : W)
      → let (m, w') = files.write_http bytes w in
        (k : ℕ) × (m ≡ pos k)
        × (k ≤ length bytes)
        × (offset w' ≡ offset w)
        × (got w' ≡ got w ++ take k bytes)
  pub seeks :
      (j : ℕ) (w : W)
      → (offset (files.lseek fd (negsuc j) w) ≡ offset w - suc j)
        × (got (files.lseek fd (negsuc j) w) ≡ got w)
  pub closes :
      (w : W) → (offset (files.close_file fd w) ≡ offset w) × (got (files.close_file fd w) ≡ got w)
  pub books :
      (w : W)
      → (offset (wsi.callback_on_writable w) ≡ offset w)
        × (got (wsi.callback_on_writable w) ≡ got w)

module _ {W : Type 0} (wsi : Connection W) (files : Files W) (fd : ℤ)
    (f : IsFile wsi files fd) where
  -- The page has got the next part of the file.
  pub record Sent (w w' : W) : Type 0 where
    pub part : List ℕ
    pub more : f.got w' ≡ f.got w ++ part
    pub next : drop (f.offset w) f.content ≡ part ++ drop (f.offset w') f.content

  both : {u v w : W} → Sent u v → Sent v w → Sent u w
  both {u} {v} {w} a b = record {
    part = a.part ++ b.part;
    more = b.more ∙ ap (λ t. t ++ b.part) a.more ∙ append_assoc (f.got u) a.part b.part;
    next =
        a.next
        ∙ ap (λ t. a.part ++ t) b.next
        ∙ sym (append_assoc a.part b.part (drop (f.offset w) f.content));
  }

  still : (w w' : W) → f.offset w' ≡ f.offset w → f.got w' ≡ f.got w → Sent w w'
  still w w' o g = record {
    part = [];
    more = g ∙ sym (append-nil (f.got w));
    next = ap (λ k. drop k f.content) (sym o);
  }

  -- The world after a read, a write and, if the write was partial, a step back.
  abbrev after : W → W
  after w =
      let (n, bytes, w1) = files.read fd 4096 w in
      let (m, w2) = files.write_http bytes w1 in
      if eq_ℤ m n then w2 else files.lseek fd (minus (as_length m) (as_length n)) w2

  step_back :
      (k n : ℕ) (w : W)
      → k ≤ n
      → let w' = if k == n then w else files.lseek fd (minus k n) w in
        (f.offset w' ≡ f.offset w - (n - k)) × (f.got w' ≡ f.got w)
  step_back k n w h = elim (Bool-cases (k == n)) [
    | inl same ↦ rw same (ground (arith, same), refl)
    | inr other ↦
        let less : k < n = ground (arith, other, h) in
        let s = f.seeks (n - k - 1) w in rw (other, lt→ltb k n less) (omega (arith, s.0), s.1)
  ]

  after_offset :
      (w : W)
      → let (_, bytes, w1) = files.read fd 4096 w in
        let k = (f.writes bytes w1).0 in
        (f.offset (after w) ≡ f.offset w + k) × (f.got (after w) ≡ f.got w ++ take k bytes)
  after_offset w =
      let (_, bytes, w1) = files.read fd 4096 w in
      let r = f.reads w in
      let s = f.writes bytes w1 in
      let b = step_back s.0 (length bytes) (files.write_http bytes w1).1 s.2 in
      rw (s.1, r.0)
        (b.0 ∙ omega (arith, s.3, r.2, s.2), b.1 ∙ s.4 ∙ ap (λ t. t ++ take s.0 bytes) r.3)

  take-prefix : (k : ℕ) (xs ys : List ℕ) → k ≤ length xs → xs ++ ys ≡ take k xs ++ drop k (xs ++ ys)
  take-prefix zero xs ys h = refl
  take-prefix (suc k) [] ys h = absurd (omega arith)
  take-prefix (suc k) (x ∷ xs) ys h = ap (λ t. x ∷ t) (take-prefix k xs ys (omega arith))

  one_round : (w : W) → Sent w (after w)
  one_round w =
      let (_, bytes, w1) = files.read fd 4096 w in
      let r = f.reads w in
      let s = f.writes bytes w1 in
      let a = after_offset w in
      record {
        part = take s.0 bytes;
        more = a.1;
        next =
            r.1
            ∙ take-prefix s.0 bytes (drop (f.offset w1) f.content) s.2
            ∙ ap (λ t. take s.0 bytes ++ drop s.0 t) (sym r.1)
            ∙ ap (λ t. take s.0 bytes ++ t)
                (drop-drop s.0 (f.offset w) f.content {k = f.offset (after w)}
                  (omega (arith, a.0)));
      }

  -- On a file that can be read and a page that takes a first part of every write, whatever the loop
  -- has sent when it comes back is the next part of the file: nothing is left out, repeated or
  -- reordered, also after partial writes.
  pub send_file-Sent :
      (fuel : ℕ) (w : W) {value : ℤ} {w' : W}
      → send_file wsi files fuel fd w ≡ some (value, w')
      → Sent w w'
  unfolding send_file
  send_file-Sent zero w e = cc
  send_file-Sent (suc fuel) w {value} {w'} e =
      let (n, bytes, w1) = files.read fd 4096 w in
      let r = f.reads w in
      let s = f.writes bytes w1 in
      let read_ok : is_nonneg n ≡ true = ap is_nonneg r.0 in
      let write_ok : is_nonneg (files.write_http bytes w1).0 ≡ true = ap is_nonneg s.1 in
      elim (Bool-cases (eq_ℤ n (pos 0))) [
        | inl empty ↦
            let all : ◌≡◌ {A = ℤ × W} (minus_one, files.close_file fd w1) (value, w') =
              some_inj _ _ (rw (read_ok, empty) at e) in
            let none_read : length bytes ≡ 0 = ground (arith, empty, r.0) in
            subst (λ t. Sent w t.1) all
              (still w (files.close_file fd w1) ((f.closes w1).0 ∙ r.2 ∙ omega (arith, none_read))
                ((f.closes w1).1 ∙ r.3))
        | inr some_read ↦ elim (Bool-cases (wsi.send_pipe_choked (after w))) [
          | inl choked ↦
              let all : ◌≡◌ {A = ℤ × W} (pos 0, wsi.callback_on_writable (after w)) (value, w') =
                some_inj _ _ (rw (read_ok, some_read, write_ok, choked) at e) in
              subst (λ t. Sent w t.1) all
                (both (one_round w) (
                  still (after w) (wsi.callback_on_writable (after w)) (f.books (after w)).0
                    (f.books (after w)).1))
          | inr free ↦
              both (one_round w)
                (send_file-Sent fuel (after w) (rw (read_ok, some_read, write_ok, free) at e))
        ]
      ]
