-- ===== src/Buffer/Take.antt =====
-- The transfer of `buffer_read` in source/tssx/buffer.c: how many bytes come out, which ones, and
-- that the machine arithmetic does not wrap.
use tssx.Base.{
  ℕ, ◌+◌, ◌-◌, ◌≤◌, ◌<◌, ◌≡◌, refl, sym, ap, subst, ◌∙◌, inl, inr, List, [], ◌++◌, append_assoc,
  length, slice, length-slice, length-append, leb, ◌==◌, if◌then◌else◌, Bool-cases, int_limit,
  size_error, sub_size, true, arith,
}
use tssx.Buffer.{Buffer, read_available, wrap_read, finish_read}
use tssx.Buffer.Ring.{wrap, window_split}
use tssx.Buffer.Inv.{IsValid, contents}

-- What taking `n` bytes off leaves, with the bytes taken.
pub record Taken (b : Buffer) (n : ℕ) (copied : List ℕ) (b' : Buffer) : Type 0 where
  pub valid : IsValid b'
  pub bytes : contents b ≡ copied ++ contents b'
  pub count : length copied ≡ n
  pub size : b'.size ≡ b.size - n
  pub capacity : b'.capacity ≡ b.capacity
  pub timeouts : b'.timeouts ≡ b.timeouts

-- One copy from the read pointer with the bookkeeping behind it, where it does not pass the end.
pub retreat : Buffer → ℕ → Buffer
retreat b n = record b { read = wrap b.capacity (b.read + n); size = b.size - n }

retreat-Taken :
    (b : Buffer) (n : ℕ)
    → IsValid b
    → n ≤ b.size
    → b.read + n ≤ b.capacity
    → Taken b n (slice b.read n b.bytes) (retreat b n)
unfolding retreat
retreat-Taken b n v h fits = record {
  valid = record {
    memory = v.memory;
    positive = v.positive;
    small = v.small;
    read_in = ground (arith, v.read_in, v.positive);
    size_in = omega (arith, v.size_in);
    write_at = ground (arith, v.write_at, v.read_in, v.size_in);
  };
  bytes = window_split b.bytes b.capacity b.read b.size n v.read_in v.size_in h fits;
  count = length-slice b.read n b.bytes (omega (arith, v.memory));
  size = refl;
  capacity = refl;
  timeouts = refl;
}

Taken-trans :
    {b b' b'' : Buffer} (n m : ℕ) (xs ys : List ℕ)
    → n + m ≤ b.size
    → Taken b n xs b'
    → Taken b' m ys b''
    → Taken b (n + m) (xs ++ ys) b''
Taken-trans {b} {b'} {b''} n m xs ys h p q = record {
  valid = q.valid;
  bytes = p.bytes ∙ ap (λ l. xs ++ l) q.bytes ∙ sym (append_assoc xs ys (contents b''));
  count = omega (arith, p.count, q.count, length-append {0} xs ys);
  size = omega (arith, p.size, q.size);
  capacity = q.capacity ∙ p.capacity;
  timeouts = q.timeouts ∙ p.timeouts;
}

-- The result of a read: (size_t)-1 for none, else the count.
abbrev pub read_result : ℕ → ℕ
read_result n = if n == 0 then size_error else n

finish_read-retreat :
    (b : Buffer) (copied : List ℕ) (n right : ℕ)
    → IsValid b
    → n ≤ b.size
    → b.read + n < b.capacity
    → right + n < int_limit
    → finish_read b copied n right
      ≡ (read_result (n + right), copied ++ slice b.read n b.bytes, retreat b n)
unfolding finish_read retreat
finish_read-retreat b copied n right v h fits r = ground arith

wrap_read-retreat :
    (b : Buffer) (n right : ℕ)
    → IsValid b
    → right ≡ b.capacity - b.read
    → right ≤ n
    → n ≤ b.size
    → wrap_read b n right ≡ (retreat b right, n - right)
unfolding wrap_read retreat
wrap_read-retreat b n right v e l h = ground arith

retreat-read : (b : Buffer) (n : ℕ) → (retreat b n).read ≡ wrap b.capacity (b.read + n)
unfolding retreat
retreat-read b n = refl

-- The read that goes round the end of the memory: two copies, the second from its start.
read_round :
    (b : Buffer) (n right : ℕ)
    → IsValid b
    → right ≡ b.capacity - b.read
    → right ≤ n
    → n ≤ b.size
    → let b₁ = retreat b right in
      let copied = slice b.read right b.bytes ++ slice b₁.read (n - right) b₁.bytes in
      (finish_read b₁ (slice b.read right b.bytes) (n - right) right
        ≡ (read_result n, copied, retreat b₁ (n - right)))
      × Taken b n copied (retreat b₁ (n - right))
read_round b n right v r l h =
    let b₁ = retreat b right in
    let first = retreat-Taken b right v (omega arith) (omega (arith, v.read_in)) in
    let start : b₁.read ≡ 0 = ground (arith, retreat-read b right, v.read_in) in
    let total : n - right + right ≡ n = omega arith in
    let second =
      retreat-Taken b₁ (n - right) first.valid (omega (arith, first.size))
        (omega (arith, first.capacity, v.size_in)) in
    (
      finish_read-retreat b₁ (slice b.read right b.bytes) (n - right) right first.valid
            (omega (arith, first.size)) (omega (arith, first.capacity, v.size_in, v.read_in))
            (omega (arith, v.small, v.size_in))
          ∙ ap
              (λ m. (
                read_result m,
                slice b.read right b.bytes ++ slice b₁.read (n - right) b₁.bytes,
                retreat b₁ (n - right),
              ))
              total,
      subst
          (λ m.
            Taken b m (slice b.read right b.bytes ++ slice b₁.read (n - right) b₁.bytes)
              (retreat b₁ (n - right)))
          (let e : right + (n - right) ≡ n = omega arith in e)
          (Taken-trans right (n - right) (slice b.read right b.bytes)
            (slice b₁.read (n - right) b₁.bytes) (omega arith) first second),
    )

-- The transfer at the heart of `buffer_read`: the oldest `n` bytes come out, in order, and the
-- count of both copies is returned.
pub read_available_lem :
    (b : Buffer) (n : ℕ)
    → IsValid b
    → n ≤ b.size
    → (copied : List ℕ) × (b' : Buffer) × (read_available b n ≡ (read_result n, copied, b'))
      × Taken b n copied b'
unfolding read_available
read_available_lem b n v h =
    let right = b.capacity - b.read in
    let right_eq : sub_size b.capacity b.read ≡ right = ground (arith, v.read_in, v.small) in
    elim (Bool-cases (leb right n)) [
      | inl e ↦
          let l : right ≤ n = ground arith in
          let t : leb b.write b.read ≡ true = ground (arith, v.write_at, v.size_in) in
          let (run, w) = read_round b n right v refl l h in
          (_, _, rw (right_eq, t, e, wrap_read-retreat b n right v refl l h) run, w)
      | inr e ↦
          let fits : b.read + n < b.capacity = ground arith in
          let run = finish_read-retreat b [] n 0 v h fits (omega (arith, v.small)) in
          (
            slice b.read n b.bytes,
            retreat b n,
            rw (right_eq, e) (ground (arith, run)),
            retreat-Taken b n v h (omega arith),
          )
    ]
