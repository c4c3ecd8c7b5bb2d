-- ===== src/Buffer/Race.antt =====
-- What the other process may do between two steps of a call of source/tssx/buffer.c: a read pointer
-- that moves under a writer, a peek that waits, and the levels of waiting.
use tssx.Base.{
  ℕ, ◌+◌, ◌-◌, ◌^◌, ◌≤◌, ◌<◌, ◌≡◌, sym, ap, ◌∙◌, inl, inr, true, false, some, Option, List, [], ◌∷◌,
  ◌++◌, length, take, slice, length-take, min, ◌==◌, leb, Bool-cases, sub_size, arith,
}
use tssx.Buffer.{
  Buffer, read, puts, peer_action, Round, Level, level_zero, level_one, level_two, non_blocking,
  escalation_level, determine_available_space, get_available_space, write_available, wrap_write,
  finish_write, reduce_data, buffer_read, buffer_peek,
}
use tssx.Buffer.Ring.{wrap, window_straight}
use tssx.Buffer.Inv.{IsValid, contents}
use tssx.Buffer.Take.{read_result, read_available_lem}
use tssx.Buffer.Wait.{puts_lem, get_available_space_lem, block_again, block_found}

-- A reader that has moved its pointer on by `n` of the bytes held, and has not counted them yet.
abbrev pub reader_ahead : Buffer → ℕ → Buffer
reader_ahead b n = record b { read = wrap b.capacity (b.read + n) }

-- `buffer_write` tests the read pointer while the reader may be between moving it and counting the
-- bytes. The test comes out so that the write does the same: it returns the same number, and leaves
-- the same buffer but for the reader's pointer.
pub write_available-reader_ahead :
    (b : Buffer) (source : List ℕ) (n moved : ℕ)
    → IsValid b
    → b.size + n ≤ b.capacity
    → moved ≤ b.size
    → write_available (reader_ahead b moved) source n ≡ (
      (write_available b source n).0,
      record ((write_available b source n).1) { read = (reader_ahead b moved).read },
    )
unfolding write_available wrap_write finish_write reduce_data
write_available-reader_ahead b source n moved v room l =
    let right_eq : sub_size b.capacity b.write ≡ b.capacity - b.write =
      ground (arith, v.write_at) in
    elim (Bool-cases (leb (b.capacity - b.write) n)) [
      | inl e ↦
          let t : leb b.read b.write ≡ true = ground (arith, v.write_at) in
          let t' : leb (wrap b.capacity (b.read + moved)) b.write ≡ true =
            ground (arith, v.write_at) in
          rw (right_eq, t, t', e)
      | inr e ↦ rw (right_eq, e) (ground arith)
    ]

-- What a peek that waited for `source` has done: what it delivers was written by the peer, and the
-- buffer that it leaves holds nothing.
pub record Lost (b : Buffer) (source : List ℕ) (n : ℕ)
    (result : Option (ℕ × List ℕ × Option Buffer)) : Type 0 where
  pub copied : List ℕ
  pub unread : List ℕ
  pub final : Buffer
  pub wrote : contents (peer_action (puts source) b) ≡ take (min b.capacity (length source)) source
  pub delivered : take (min b.capacity (length source)) source ≡ copied ++ unread
  pub count : length copied ≡ min (min b.capacity (length source)) n
  pub some_bytes : 0 < length copied
  pub returned : result ≡ some (length copied, copied, some final)
  pub emptied : contents final ≡ []

-- LEVEL_ZERO, LEVEL_ONE and LEVEL_TWO as the numbers that they are.
abbrev pub rank : Level → ℕ
rank level_zero = 0
rank level_one = 1
rank level_two = 2

-- The level of waiting never falls while the time stamp counter rises from the start of the wait.
escalation_level_mono :
    (b : Buffer) (start now later : ℕ)
    → start ≤ now
    → now ≤ later
    → later < 2 ^ 64
    → rank (escalation_level b start now) ≤ rank (escalation_level b start later)
unfolding escalation_level
escalation_level_mono b start now later h k l = ground arith

module _ (start now : ℕ) (source : List ℕ) {b : Buffer} (v : IsValid b) (empty : b.size ≡ 0) where
  contents-empty : contents b ≡ []
  contents-empty =
      window_straight b.bytes b.capacity b.read b.size (omega (arith, v.read_in))
      ∙ ap (λ m. slice b.read m b.bytes) empty

  abbrev round : Round
  round = record { now = now; action = puts source }

  -- The wait ends when the peer has written.
  waits :
      non_blocking b.timeouts read ≡ false
      → 0 < length source
      → determine_available_space b read start (round ∷ [])
        ≡ some (record {
          space = (peer_action (puts source) b).size;
          buffer = peer_action (puts source) b;
          levels = escalation_level b start now ∷ [];
        })
  unfolding determine_available_space
  waits blocks some_bytes =
      let w = puts_lem source v in
      let z : get_available_space b read == 0 ≡ true =
        ground (arith, get_available_space_lem read v) in
      let g = get_available_space_lem read w.valid in
      let n = length-take (min (b.capacity - b.size) (length source)) source in
      let z' : get_available_space (peer_action (puts source) b) read == 0 ≡ false =
        ground (arith, g, w.size, n, v.positive) in
      rw (
        blocks,
        block_again read start [] b round [] z,
        block_found read start (escalation_level b start now ∷ []) (peer_action (puts source) b) []
            z',
        g,
      )

-- A `buffer_peek` that has to wait, on a valid, empty, blocking buffer, for a peer that writes
-- `source`, delivers the oldest bytes of what the peer wrote; then it puts back the size of before
-- the wait, so that the buffer holds nothing and the peer's bytes are lost.
pub buffer_peek-loses :
    (start now : ℕ) {b : Buffer} (source : List ℕ) (n : ℕ)
    → IsValid b
    → b.size ≡ 0
    → non_blocking b.timeouts read ≡ false
    → 0 < length source
    → 0 < n
    → Lost b source n (buffer_peek b true n start (record { now = now; action = puts source } ∷ []))
unfolding buffer_peek buffer_read
buffer_peek-loses start now {b} source n v empty blocks some_bytes pos =
    let b₁ = peer_action (puts source) b in
    let w = puts_lem source v in
    let k = min b₁.size n in
    let (copied, b₂, got, t) = read_available_lem b₁ k w.valid (omega arith) in
    let more : n == 0 ≡ false = ground arith in
    let run : buffer_read (some b) true n start (round start now source v empty ∷ [])
        ≡ some (read_result k, copied, some b₂) =
      rw (more, waits start now source v empty blocks some_bytes, got) in
    let all : b.capacity - b.size ≡ b.capacity = omega (arith, empty) in
    let size₁ = length-take (min (b.capacity - b.size) (length source)) source in
    let wrote : contents b₁ ≡ take (min b.capacity (length source)) source =
      w.bytes
      ∙ ap (λ l. l ++ take (min (b.capacity - b.size) (length source)) source)
          (contents-empty start now source v empty)
      ∙ ap (λ m. take (min m (length source)) source) all in
    let result : read_result k ≡ length copied =
      ground (arith, t.count, w.size, size₁, v.positive) in
    record {
      copied = copied;
      unread = contents b₂;
      final = record b₂ { size = b.size; read = b.read };
      wrote = wrote;
      delivered = sym wrote ∙ t.bytes;
      count = omega (arith, t.count, w.size, size₁, v.size_in);
      some_bytes = omega (arith, t.count, w.size, size₁, v.positive);
      returned =
          rw (run, buffer_peek)
            (ap (λ m. some (m, copied, some (record b₂ { size = b.size; read = b.read }))) result);
      emptied =
          window_straight b₂.bytes b₂.capacity b.read b.size
            (omega (arith, t.capacity, w.capacity, v.read_in))
          ∙ ap (λ m. slice b.read m b₂.bytes) empty;
    }
