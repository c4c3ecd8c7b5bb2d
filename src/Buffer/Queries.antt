-- ===== src/Buffer/Queries.antt =====
-- What the queries of source/tssx/buffer.c tell of the bytes held, `buffer_peek` and `buffer_skip`.
use tssx.Base.{
  ℕ, ◌+◌, ◌-◌, ◌≤◌, ◌<◌, ◌≡◌, ◌↔◌, refl, sym, ap, ◌∙◌, subst, ◌⊎◌, true, false, some, List, [],
  length, take, ◌==◌, ltb, min, int_limit, int_to_size, add_size, ◌%◌, take_append, arith,
}
use native.Mathlib.Nat.{mod-eq_of_lt, mod-eq-sub-mod}
use native.Mathlib.Decide.{dec_lt}
use tssx.Buffer.{
  Buffer, Operation, read, write, Round, non_blocking, buffer_is_full, buffer_is_empty,
  buffer_ready_for, buffer_free_space, buffer_read, buffer_peek, buffer_skip, create_buffer,
  buffer_clear, read_available, finish_read, wrap_read, Timeouts,
}
use tssx.Buffer.Ring.{wrap, window_straight}
use tssx.Buffer.Inv.{IsValid, contents, length-contents}
use tssx.Buffer.Take.{read_result, read_available_lem}
use tssx.Buffer.Wait.{space_for, free_space_lem}
use tssx.Buffer.Calls.{determine_now}

ready_iff :
    (op : Operation) {b : Buffer}
    → IsValid b
    → (buffer_ready_for b op ≡ true) ↔ (0 < space_for op b)
unfolding buffer_ready_for buffer_is_full buffer_is_empty
ready_iff read v = ground arith
ready_iff write v = ground (arith, v.small, v.size_in)

-- `buffer_is_full`, `buffer_is_empty` and `buffer_free_space` count the bytes that a valid buffer
-- holds, and `buffer_ready_for` says exactly whether there is something to read or to write.
pub queries_lem :
    {b : Buffer}
    → IsValid b
    → (buffer_is_full b ≡ (length (contents b) == b.capacity))
      × (buffer_is_empty b ≡ (length (contents b) == 0))
      × (buffer_free_space b + length (contents b) ≡ b.capacity)
      × ((op : Operation) → (buffer_ready_for b op ≡ true) ↔ (0 < space_for op b))
unfolding buffer_is_full buffer_is_empty
queries_lem {b} v =
    let n = length-contents v in
    (
      ground (arith, n, v.small, v.size_in),
      ground (arith, n),
      omega (arith, n, free_space_lem v, v.size_in),
      λ op. ready_iff op v,
    )

-- `create_buffer` over memory of the requested capacity gives a valid, empty buffer with the given
-- timeouts, if the capacity is positive and an `int` can count it.
pub create_buffer_lem :
    (memory : List ℕ) (timeouts : Timeouts)
    → 0 < length memory
    → length memory < int_limit
    → (b : Buffer) × (create_buffer memory (length memory) timeouts ≡ some b)
      × IsValid b
      × (contents b ≡ [])
      × (b.bytes ≡ memory)
      × (b.timeouts ≡ timeouts)
unfolding create_buffer buffer_clear
create_buffer_lem memory timeouts pos small =
    let e : ltb 0 (length memory) ≡ true = ground arith in
    (
      record {
        size = 0;
        capacity = length memory;
        timeouts = timeouts;
        read = 0;
        write = 0;
        bytes = memory;
      },
      rw e,
      record {
        memory = refl;
        positive = pos;
        small = small;
        read_in = pos;
        size_in = omega arith;
        write_at = ground arith;
      },
      window_straight memory (length memory) 0 0 (omega arith),
      refl,
      refl,
    )

-- `buffer_clear` leaves a valid buffer valid, drops the bytes that it holds and keeps its capacity.
pub buffer_clear_lem :
    {b : Buffer}
    → IsValid b
    → IsValid (buffer_clear b)
      × (contents (buffer_clear b) ≡ [])
      × ((buffer_clear b).capacity ≡ b.capacity)
unfolding buffer_clear
buffer_clear_lem {b} v = (
  record {
    memory = v.memory;
    positive = v.positive;
    small = v.small;
    read_in = v.positive;
    size_in = omega arith;
    write_at = ground (arith, v.positive);
  },
  window_straight b.bytes b.capacity 0 0 (omega arith),
  refl,
)

-- Reading changes the index and the size alone.
read_available-restored :
    (b : Buffer) (n : ℕ) → record ((read_available b n).2) { size = b.size; read = b.read } ≡ b
unfolding read_available wrap_read finish_read
read_available-restored b n = ground arith

-- `buffer_peek` of a valid buffer that holds a byte, or that does not block, returns what
-- `buffer_read` returns and leaves the buffer exactly as it was.
pub buffer_peek_lem :
    (start : ℕ) (rounds : List Round) {b : Buffer} (n : ℕ)
    → IsValid b
    → 0 < n
    → (non_blocking b.timeouts read ≡ true) ⊎ (0 < b.size)
    → buffer_peek b true n start rounds
      ≡ some (read_result (min b.size n), take (min b.size n) (contents b), some b)
unfolding buffer_peek buffer_read
buffer_peek_lem start rounds {b} n v pos free =
    let k = min b.size n in
    let (copied, b', got, taken) = read_available_lem b k v (omega arith) in
    let more : n == 0 ≡ false = ground arith in
    let e : buffer_read (some b) true n start rounds ≡ some (read_result k, copied, some b') =
      rw (more, determine_now read start rounds v free, got) in
    let first : copied ≡ take k (contents b) =
      sym (take_append copied (contents b'))
      ∙ ap (take (length copied)) (sym taken.bytes)
      ∙ ap (λ m. take m (contents b)) taken.count in
    let back : record b' { size = b.size; read = b.read } ≡ b =
      ap (λ r. record (r.2) { size = b.size; read = b.read }) (sym got)
      ∙ read_available-restored b k in
    rw (e, buffer_peek) (λ i. some (read_result k, first i, some (back i)))

mod-eq-wrap : (cap i : ℕ) → 0 < cap → i < cap + cap → i % cap ≡ wrap cap i
mod-eq-wrap cap i pos h = elim (dec_lt i cap) [
  | yes p ↦ mod-eq_of_lt p ∙ ground arith
  | no p ↦
      mod-eq-sub-mod {n = i} {m = cap} (omega arith)
      ∙ mod-eq_of_lt {n = i - cap} {m = cap} (omega arith)
      ∙ ground arith
]

-- `buffer_skip` of `n` bytes out of those held returns `n`, moves the read index by `n` round the
-- ring, and leaves the count of the bytes as it was: for 0 < n < capacity the buffer is not valid
-- any more.
pub buffer_skip-breaks :
    {b : Buffer} (n : ℕ)
    → IsValid b
    → 0 < n
    → n ≤ b.size
    → n < b.capacity
    → (buffer_skip b n ≡ (n, record b { read = wrap b.capacity (b.read + n) }))
      × ¬ IsValid (buffer_skip b n).1
unfolding buffer_skip
buffer_skip-breaks {b} n v pos held less =
    let h : ltb (int_to_size b.size) n ≡ false = ground (arith, v.small, v.size_in) in
    let sum : add_size b.read n ≡ b.read + n = omega (arith, v.small, v.read_in) in
    let turn = mod-eq-wrap b.capacity (b.read + n) v.positive (omega (arith, v.read_in)) in
    let e : buffer_skip b n ≡ (n, record b { read = wrap b.capacity (b.read + n) }) =
      rw (h, sum, turn) in
    (
      e,
      λ w.
          let bad : IsValid (record b { read = wrap b.capacity (b.read + n) }) =
            subst (λ r. IsValid r.1) e w in
          ground (arith, bad.write_at, v.write_at, v.read_in, v.size_in),
    )
