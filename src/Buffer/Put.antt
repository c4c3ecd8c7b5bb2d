-- ===== src/Buffer/Put.antt =====
-- The transfer of `buffer_write` in source/tssx/buffer.c: how many bytes go in, which ones, and
-- that the machine arithmetic does not wrap.
use tssx.Base.{
  ℕ, ◌+◌, ◌-◌, ◌≤◌, ◌<◌, ◌≡◌, refl, sym, ap, subst, ◌∙◌, inl, inr, List, ◌++◌, append_assoc, length,
  take, drop, blit, length-blit, length-take, length-drop, length-append, take-add, leb, Bool-cases,
  int_limit, sub_size, true, arith,
}
use tssx.Buffer.{Buffer, write_available, wrap_write, finish_write, reduce_data}
use tssx.Buffer.Ring.{wrap, window-blit}
use tssx.Buffer.Inv.{IsValid, contents, write_in}

-- What `n` bytes appended leave: a valid buffer with the same shape.
pub record Wrote (b : Buffer) (more : List ℕ) (b' : Buffer) : Type 0 where
  pub valid : IsValid b'
  pub bytes : contents b' ≡ contents b ++ more
  pub size : b'.size ≡ b.size + length more
  pub capacity : b'.capacity ≡ b.capacity
  pub timeouts : b'.timeouts ≡ b.timeouts

-- One copy to the write pointer with the bookkeeping behind it, where it does not pass the end.
pub advance : Buffer → List ℕ → Buffer
advance b more = record b {
  bytes = blit b.bytes b.write more;
  write = wrap b.capacity (b.write + length more);
  size = b.size + length more;
}

advance-Wrote :
    (b : Buffer) (more : List ℕ)
    → IsValid b
    → b.size + length more ≤ b.capacity
    → b.write + length more ≤ b.capacity
    → Wrote b more (advance b more)
unfolding advance
advance-Wrote b more v room fits = record {
  valid = record {
    memory = length-blit b.bytes b.write more ∙ v.memory;
    positive = v.positive;
    small = v.small;
    read_in = v.read_in;
    size_in = room;
    write_at = ground (arith, v.write_at);
  };
  bytes =
      window-blit b.bytes b.capacity b.read b.size b.write more v.memory v.read_in room v.write_at
        fits;
  size = refl;
  capacity = refl;
  timeouts = refl;
}

-- Two copies in a row.
Wrote-trans :
    {b b' b'' : Buffer} (xs ys : List ℕ) → Wrote b xs b' → Wrote b' ys b'' → Wrote b (xs ++ ys) b''
Wrote-trans {b} {b'} {b''} xs ys p q = record {
  valid = q.valid;
  bytes = q.bytes ∙ ap (λ l. l ++ ys) p.bytes ∙ append_assoc (contents b) xs ys;
  size = omega (arith, p.size, q.size, length-append {0} xs ys);
  capacity = q.capacity ∙ p.capacity;
  timeouts = q.timeouts ∙ p.timeouts;
}

module _ (b : Buffer) (source : List ℕ) (n : ℕ) (v : IsValid b) where
  finish_write-advance :
      (right : ℕ)
      → n ≤ length source
      → b.size + n ≤ b.capacity
      → b.write + n < b.capacity
      → right + n < int_limit
      → finish_write b source n right ≡ (n + right, advance b (take n source))
  unfolding finish_write advance
  finish_write-advance right h room fits r = ground (arith, length-take n source)

module _ (b : Buffer) (source : List ℕ) (n right : ℕ) (v : IsValid b) where
  wrap_write-advance :
      right ≡ b.capacity - b.write
      → right ≤ n
      → n ≤ length source
      → b.size + n ≤ b.capacity
      → wrap_write (record b { bytes = blit b.bytes b.write (take right source) }) source n right
        ≡ (advance b (take right source), drop right source, n - right)
  unfolding wrap_write reduce_data advance
  wrap_write-advance e l h room = ground (arith, length-take right source)

advance-write :
    (b : Buffer) (more : List ℕ) → (advance b more).write ≡ wrap b.capacity (b.write + length more)
unfolding advance
advance-write b more = refl

-- The write that goes round the end of the memory: two copies, the second to its start.
write_round :
    (b : Buffer) (source : List ℕ) (n right : ℕ)
    → IsValid b
    → right ≡ b.capacity - b.write
    → right ≤ n
    → n ≤ length source
    → b.size + n ≤ b.capacity
    → let b₁ = advance b (take right source) in
      let b₂ = advance b₁ (take (n - right) (drop right source)) in
      (finish_write b₁ (drop right source) (n - right) right ≡ (n, b₂)) × Wrote b (take n source) b₂
write_round b source n right v r l h room =
    let k : length (take right source) ≡ right = omega (arith, length-take right source) in
    let d = length-drop right source in
    let d' = length-take (n - right) (drop right source) in
    let first = advance-Wrote b (take right source) v (omega arith) (ground (arith, v.write_at)) in
    let start : (advance b (take right source)).write ≡ 0 =
      ground (arith, advance-write b (take right source), v.write_at) in
    let room₁ : (advance b (take right source)).size + (n - right)
        ≤ (advance b (take right source)).capacity =
      omega (arith, first.size, first.capacity) in
    let second =
      advance-Wrote (advance b (take right source)) (take (n - right) (drop right source))
        first.valid (omega arith) (omega arith) in
    (
      finish_write-advance (advance b (take right source)) (drop right source) (n - right)
            first.valid right (omega arith) room₁
            (omega
              (arith, first.valid.small, first.capacity, v.small, v.positive, write_in v, start))
            (omega (arith, v.small))
          ∙ ap
              (λ m.
                (m, advance (advance b (take right source)) (take (n - right) (drop right source))))
              (omega arith),
      subst
          (λ l.
            Wrote b l
              (advance (advance b (take right source)) (take (n - right) (drop right source))))
          (sym (take-add right (n - right) source)
            ∙ ap (λ m. take m source) (let e : right + (n - right) ≡ n = omega arith in e))
          (Wrote-trans (take right source) (take (n - right) (drop right source)) first second),
    )

-- The transfer at the heart of `buffer_write`: all of the `n` bytes go in, in order, and the count
-- of both copies is returned.
pub write_available_lem :
    (b : Buffer) (source : List ℕ) (n : ℕ)
    → IsValid b
    → n ≤ length source
    → b.size + n ≤ b.capacity
    → (b' : Buffer) × (write_available b source n ≡ (n, b')) × Wrote b (take n source) b'
unfolding write_available
write_available_lem b source n v h room =
    let right = b.capacity - b.write in
    let right_eq : sub_size b.capacity b.write ≡ right = ground (arith, v.write_at) in
    elim (Bool-cases (leb right n)) [
      | inl e ↦
          let l : right ≤ n = ground arith in
          let t : leb b.read b.write ≡ true = ground (arith, v.write_at) in
          let (run, w) = write_round b source n right v refl l h room in
          (_, rw (right_eq, t, e, wrap_write-advance b source n right v refl l h room) run, w)
      | inr e ↦
          let k : length (take n source) ≡ n = omega (arith, length-take n source) in
          let fits : b.write + n < b.capacity = ground (arith, v.write_at) in
          let run = finish_write-advance b source n v 0 h room fits (omega (arith, v.small)) in
          (
            advance b (take n source),
            rw (right_eq, e) (ground (arith, run)),
            advance-Wrote b (take n source) v (omega arith) (omega arith),
          )
    ]
