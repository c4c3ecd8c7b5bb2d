-- ===== src/Buffer/Fifo.antt =====
-- A valid buffer in non-blocking mode is a bounded queue of bytes: any sequence of the calls of
-- source/tssx/buffer.c returns what the queue returns.
use tssx.Base.{
  ℕ, ◌-◌, ◌≡◌, refl, sym, ap, ◌∙◌, subst, subst₂, zero, suc, inl, inr, true, false, none, some,
  Option, List, [], ◌∷◌, ◌++◌, length, take, drop, min, ◌==◌, Bool-cases, take_append, drop_append,
  take_all, take-min, drop-min, append-nil, arith,
}
use tssx.Buffer.{
  Buffer, read, write, Timeouts, buffer_write, buffer_read, buffer_peek, buffer_clear, non_blocking,
}
use tssx.Buffer.Inv.{IsValid, contents, length-contents}
use tssx.Buffer.Put.{Wrote, write_available_lem}
use tssx.Buffer.Take.{read_result, read_available_lem}
use tssx.Buffer.Calls.{determine_now}
use tssx.Buffer.Queries.{buffer_clear_lem, buffer_peek_lem}
use tssx.Buffer.Queue
use tssx.Buffer.Queue.{Call, put, get, peek, clear, Reply, delivery}

-- Neither direction blocks.
pub record NeverBlocks (t : Timeouts) : Type 0 where
  pub reads : non_blocking t read ≡ true
  pub writes : non_blocking t write ≡ true

-- One call of a client. `none` would be a call that waits for ever.
unfoldable pub perform : Buffer → Call → Option (Reply × Buffer)
perform b (put source) = elim (buffer_write (some b) (some source) (length source) 0 []) [
  | some (result, some b') ↦ some ((result, []), b')
  | other ↦ none
]
perform b (get n) = elim (buffer_read (some b) true n 0 []) [
  | some (result, copied, some b') ↦ some ((result, copied), b')
  | other ↦ none
]
perform b (peek n) = elim (buffer_peek b true n 0 []) [
  | some (result, copied, some b') ↦ some ((result, copied), b')
  | other ↦ none
]
perform b clear = some ((0, []), buffer_clear b)

unfoldable pub run : Buffer → List Call → Option (List Reply × Buffer)
run b [] = some ([], b)
run b (c ∷ cs) = elim (perform b c) [
  | none ↦ none
  | some (reply, b') ↦ elim (run b' cs) [
    | none ↦ none
    | some (replies, final) ↦ some (reply ∷ replies, final)
  ]
]

-- A buffer that stands for a queue.
pub record Models (capacity : ℕ) (queue : List ℕ) (b : Buffer) : Type 0 where
  pub valid : IsValid b
  pub never : NeverBlocks b.timeouts
  pub width : b.capacity ≡ capacity
  pub holds : contents b ≡ queue

delivery_lem :
    (queue : List ℕ) (n : ℕ)
    → n == 0 ≡ false
    → (read_result (min (length queue) n), take n queue) ≡ delivery queue n
unfolding delivery
delivery_lem [] zero more = cc
delivery_lem [] (suc n) more = rw (more, let e : min 0 (suc n) ≡ 0 = omega arith in e)
delivery_lem (x ∷ queue) n more = rw more (ground arith)

get_nothing :
    {b : Buffer} (n : ℕ) → n == 0 ≡ true → perform b (get n) ≡ some (delivery (contents b) n, b)
unfolding perform delivery buffer_read
get_nothing zero z = refl
get_nothing (suc n) z = absurd (ground arith)

peek_nothing :
    {b : Buffer} (n : ℕ) → n == 0 ≡ true → perform b (peek n) ≡ some (delivery (contents b) n, b)
unfolding perform delivery buffer_peek buffer_read
peek_nothing zero z = refl
peek_nothing (suc n) z = absurd (ground arith)

-- A call that did what the queue does.
pub record Steps (capacity : ℕ) (b : Buffer) (c : Call) : Type 0 where
  pub final : Buffer
  pub returned : perform b c ≡ some ((Queue.step capacity (contents b) c).0, final)
  pub models : Models capacity (Queue.step capacity (contents b) c).1 final

module _ {b : Buffer} (v : IsValid b) (never : NeverBlocks b.timeouts) where
  -- The call returns at once; a write of no bytes leaves the buffer alone.
  write_now :
      (source : List ℕ)
      → let n = min (b.capacity - b.size) (length source) in
        (b' : Buffer) × (buffer_write (some b) (some source) (length source) 0 []
          ≡ some (n, some b'))
        × Wrote b (take n source) b'
  unfolding buffer_write
  write_now [] = (
    b,
    ap (λ m. some (m, some b)) (let e : 0 ≡ min (b.capacity - b.size) 0 = omega arith in e),
    rw (take_all {A = ℕ} (min (b.capacity - b.size) 0) [] (omega arith)) (record {
      valid = v;
      bytes = sym (append-nil (contents b));
      size = omega arith;
      capacity = refl;
      timeouts = refl;
    }),
  )
  write_now (x ∷ xs) =
      let n = min (b.capacity - b.size) (length (x ∷ xs)) in
      let (b', run, w) =
        write_available_lem b (x ∷ xs) n v (omega arith) (omega (arith, v.size_in)) in
      let more : length (x ∷ xs) == 0 ≡ false = ground arith in
      (b', rw (more, determine_now write 0 [] v (inl never.writes), run), w)

  put_step : (source : List ℕ) → Steps b.capacity b (put source)
  unfolding perform Queue.step
  put_step source =
      let (b', run, w) = write_now source in
      let e = ap (λ m. min (b.capacity - m) (length source)) (sym (length-contents v)) in
      record {
        final = b';
        returned = rw (run, perform) (ap (λ m. some ((m, []), b')) e);
        models = record {
          valid = w.valid;
          never = subst NeverBlocks (sym w.timeouts) never;
          width = w.capacity;
          holds = w.bytes ∙ ap (λ m. contents b ++ take m source) e;
        };
      }

  -- A read of at least one byte, in terms of the queue.
  read_now :
      (n : ℕ)
      → n == 0 ≡ false
      → (b' : Buffer) × (buffer_read (some b) true n 0 []
          ≡ some (read_result (min (length (contents b)) n), take n (contents b), some b'))
        × Models b.capacity (drop n (contents b)) b'
  unfolding buffer_read
  read_now n more =
      let k = min b.size n in
      let (copied, b', run, t) = read_available_lem b k v (omega arith) in
      let e : k ≡ min (length (contents b)) n = ap (λ m. min m n) (sym (length-contents v)) in
      let first : copied ≡ take n (contents b) =
        sym (take_append copied (contents b'))
        ∙ ap (take (length copied)) (sym t.bytes)
        ∙ ap (λ m. take m (contents b)) (t.count ∙ e)
        ∙ take-min n (contents b) in
      let rest : contents b' ≡ drop n (contents b) =
        sym (drop_append copied (contents b'))
        ∙ ap (drop (length copied)) (sym t.bytes)
        ∙ ap (λ m. drop m (contents b)) (t.count ∙ e)
        ∙ drop-min n (contents b) in
      (
        b',
        rw (more, determine_now read 0 [] v (inl never.reads), run)
            (λ i. some (read_result (e i), first i, some b')),
        record {
          valid = t.valid;
          never = subst NeverBlocks (sym t.timeouts) never;
          width = t.capacity;
          holds = rest;
        },
      )

  stays : Models b.capacity (contents b) b
  stays = record { valid = v; never = never; width = refl; holds = refl }

  get_step : (n : ℕ) → Steps b.capacity b (get n)
  unfolding perform Queue.step Queue.delivery
  get_step n = elim (Bool-cases (n == 0)) [
    | inl z ↦
        let e : n ≡ 0 = ground arith in
        record {
          final = b;
          returned = get_nothing n z;
          models = subst (λ m. Models b.capacity (drop m (contents b)) b) (sym e) stays;
        }
    | inr more ↦
        let (b', run, m) = read_now n more in
        record {
          final = b';
          returned = rw (run, perform) (ap (λ r. some (r, b')) (delivery_lem (contents b) n more));
          models = m;
        }
  ]

  peek_step : (n : ℕ) → Steps b.capacity b (peek n)
  unfolding perform Queue.step Queue.delivery
  peek_step n = elim (Bool-cases (n == 0)) [
    | inl z ↦ record { final = b; returned = peek_nothing n z; models = stays }
    | inr more ↦
        let k : min b.size n ≡ min (length (contents b)) n =
          ap (λ m. min m n) (sym (length-contents v)) in
        let run = buffer_peek_lem 0 [] n v (ground arith) (inl never.reads) in
        record {
          final = b;
          returned =
              rw (run, perform)
                (ap (λ m. some ((read_result m, take m (contents b)), b)) k
                  ∙ ap (λ l. some ((read_result (min (length (contents b)) n), l), b))
                      (take-min n (contents b))
                  ∙ ap (λ r. some (r, b)) (delivery_lem (contents b) n more));
          models = stays;
        }
  ]

  -- Each call returns what the queue returns, and leaves a buffer that stands for the queue after it.
  pub perform-Steps : (c : Call) → Steps b.capacity b c
  unfolding perform Queue.step
  perform-Steps (put source) = put_step source
  perform-Steps (get n) = get_step n
  perform-Steps (peek n) = peek_step n
  perform-Steps clear =
      let (valid, empty, width) = buffer_clear_lem v in
      record {
        final = buffer_clear b;
        returned = refl;
        models = record {
          valid = valid;
          never = unfold buffer_clear in never;
          width = width;
          holds = empty;
        };
      }

-- Any sequence of writes, reads, peeks and clears on a valid buffer that blocks in neither direction
-- returns, call by call, what the bounded queue of the bytes held returns, waiting for nothing, and
-- leaves a valid buffer that holds what the queue holds then.
pub run-Queue :
    (calls : List Call) {b : Buffer} {capacity : ℕ} {queue : List ℕ}
    → Models capacity queue b
    → (final : Buffer) × (run b calls ≡ some ((Queue.run capacity queue calls).0, final))
      × Models capacity (Queue.run capacity queue calls).1 final
unfolding run Queue.run
run-Queue [] {b} m = (b, refl, m)
run-Queue (c ∷ cs) {b} {capacity} {queue} m =
    let s = perform-Steps m.valid m.never c in
    let e : Queue.step b.capacity (contents b) c ≡ Queue.step capacity queue c =
      λ i. Queue.step (m.width i) (m.holds i) c in
    let models : Models capacity (Queue.step capacity queue c).1 s.final =
      subst₂ (λ k l. Models k l s.final) m.width (ap (λ r. r.1) e) s.models in
    let (final, rest, after) = run-Queue cs models in
    (
      final,
      rw (s.returned, run, rest)
          (ap (λ r. some (r ∷ (Queue.run capacity (Queue.step capacity queue c).1 cs).0, final))
            (ap (λ r. r.0) e)),
      after,
    )
