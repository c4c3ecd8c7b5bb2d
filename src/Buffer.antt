-- ===== src/Buffer.antt =====
-- The byte ring that carries one direction of a connection: source/tssx/buffer.c and
-- include/tssx/buffer.h. A segment of shared memory holds the structure and, behind it, `capacity`
-- bytes. An operation of another process on the same segment shows between two of our own steps.
pub mod Ring
pub mod Inv
pub mod Put
pub mod Take
pub mod Wait
pub mod Calls
pub mod Queries
pub mod Queue
pub mod Fifo
pub mod Race
mod Tests
use tssx.Base.{
  ℕ, ◌%◌, min, Bool, true, false, not, Option, none, some, List, [], ◌∷◌, ◌++◌, take, drop, slice,
  blit, length, ltb, leb, ◌==◌, if◌then◌else◌, add_size, sub_size, add_int, sub_int, int_to_size,
  size_error,
}

-- `enum Operation`
pub data Operation : Type 0 where
  read write : Operation

-- `struct Timeouts`, with a field for each entry of its two arrays.
pub record Timeouts : Type 0 where
  pub non_blocking_read : Bool
  pub non_blocking_write : Bool
  pub level_zero : ℕ
  pub level_one : ℕ

-- `struct Buffer`: `size` is the bits of an `atomic_int`, and `bytes` the memory behind the struct.
pub record Buffer : Type 0 where
  pub size : ℕ
  pub capacity : ℕ
  pub timeouts : Timeouts
  pub read : ℕ
  pub write : ℕ
  pub bytes : List ℕ

unfoldable pub buffer_clear : Buffer → Buffer
buffer_clear b = record b { read = 0; write = 0; size = 0 }

-- The memory is what `shared_memory` points to, behind the header; `assert` refuses capacity 0.
unfoldable pub create_buffer : List ℕ → ℕ → Timeouts → Option Buffer
unfolding buffer_clear
create_buffer shared_memory requested_capacity timeouts =
    if ltb 0 requested_capacity
    then some (
        buffer_clear (record {
          size = 0;
          capacity = requested_capacity;
          timeouts = timeouts;
          read = 0;
          write = 0;
          bytes = shared_memory;
        }))
    else none

unfoldable pub buffer_is_full : Buffer → Bool
buffer_is_full b = int_to_size b.size == b.capacity

unfoldable pub buffer_is_empty : Buffer → Bool
buffer_is_empty b = b.size == 0

unfoldable pub buffer_ready_for : Buffer → Operation → Bool
unfolding buffer_is_full buffer_is_empty
buffer_ready_for b read = not (buffer_is_empty b)
buffer_ready_for b write = not (buffer_is_full b)

unfoldable pub buffer_free_space : Buffer → ℕ
buffer_free_space b = sub_size b.capacity (int_to_size b.size)

-- `_get_available_space`
unfoldable pub get_available_space : Buffer → Operation → ℕ
unfolding buffer_free_space
get_available_space b read = int_to_size b.size
get_available_space b write = buffer_free_space b

-- `_reduce_data`: the source or destination moves on by `delta`, and as much less is to be done.
unfoldable pub reduce_data : List ℕ → ℕ → ℕ → List ℕ × ℕ
reduce_data source size delta = (drop delta source, sub_size size delta)

-- `_wrap_write`
unfoldable pub wrap_write : Buffer → List ℕ → ℕ → ℕ → Buffer × List ℕ × ℕ
wrap_write b source size delta =
    let (source', size') = reduce_data source size delta in
    (record b { write = 0; size = add_int b.size delta }, source', size')

-- The end of `buffer_write`: the copy at the write pointer, the index, the size, the result.
unfoldable pub finish_write : Buffer → List ℕ → ℕ → ℕ → ℕ × Buffer
finish_write b source bytes_to_write right_space = (
  add_size bytes_to_write right_space,
  record b {
    bytes = blit b.bytes b.write (take bytes_to_write source);
    write = add_size b.write bytes_to_write;
    size = add_int b.size bytes_to_write;
  },
)

-- `buffer_write` from the test for the space to the right of the write pointer on.
unfoldable pub write_available : Buffer → List ℕ → ℕ → ℕ × Buffer
write_available b source bytes_to_write =
    let right_space = sub_size b.capacity b.write in
    if leb b.read b.write
    then if leb right_space bytes_to_write
      then (let first = record b { bytes = blit b.bytes b.write (take right_space source) } in
          let (b', source', rest) = wrap_write first source bytes_to_write right_space in
          finish_write b' source' rest right_space)
      else finish_write b source bytes_to_write 0
    else finish_write b source bytes_to_write 0

-- `_wrap_read`. The destination is not part of it: what was copied is collected by the caller.
unfoldable pub wrap_read : Buffer → ℕ → ℕ → Buffer × ℕ
wrap_read b size delta = (record b { read = 0; size = sub_int b.size delta }, sub_size size delta)

-- The end of `buffer_read`. The result is (size_t)-1 where nothing was read.
unfoldable pub finish_read : Buffer → List ℕ → ℕ → ℕ → ℕ × List ℕ × Buffer
finish_read b copied bytes_to_read right_space =
    let total = add_size bytes_to_read right_space in
    (
      if total == 0 then size_error else total,
      copied ++ slice b.read bytes_to_read b.bytes,
      record b { read = add_size b.read bytes_to_read; size = sub_int b.size bytes_to_read },
    )

-- `buffer_read` from the test for the bytes to the right of the read pointer on.
unfoldable pub read_available : Buffer → ℕ → ℕ × List ℕ × Buffer
read_available b bytes_to_read =
    let right_space = sub_size b.capacity b.read in
    if leb b.write b.read
    then if leb right_space bytes_to_read
      then (let (b', rest) = wrap_read b bytes_to_read right_space in
          finish_read b' (slice b.read right_space b.bytes) rest right_space)
      else finish_read b [] bytes_to_read 0
    else finish_read b [] bytes_to_read 0

-- What the peer does to the shared buffer while this side waits.
pub data Action : Type 0 where
  idle : Action
  puts : List ℕ → Action
  takes : ℕ → Action

-- The peer runs the same code on the space that there is.
unfoldable pub peer_action : Action → Buffer → Buffer
peer_action idle b = b
peer_action (puts source) b =
    (write_available b source (min (get_available_space b write) (length source))).1
peer_action (takes n) b = (read_available b (min (get_available_space b read) n)).2

-- LEVEL_ZERO, LEVEL_ONE, LEVEL_TWO: a pause instruction, a yield, a sleep of a microsecond.
pub data Level : Type 0 where
  level_zero level_one level_two : Level

-- `_escalation_level`, with `_level_elapsed`; `now` is the time stamp counter that it reads.
unfoldable pub escalation_level : Buffer → ℕ → ℕ → Level
escalation_level b start_time now =
    let elapsed = sub_size now start_time in
    if not (ltb b.timeouts.level_zero elapsed)
    then level_zero
    else if not (ltb b.timeouts.level_one elapsed)
    then level_one
    else level_two

-- One round of waiting: the counter at the test of the level, and what the peer did until the end.
pub record Round : Type 0 where
  pub now : ℕ
  pub action : Action

-- The end of a wait: the space found, the buffer then, how each round was waited.
pub record Waited : Type 0 where
  pub space : ℕ
  pub buffer : Buffer
  pub levels : List Level

-- `_block_for_available_space`. `none` is a wait that outlasts the rounds given.
unfoldable pub block_for_available_space :
    Buffer → Operation → ℕ → List Round → List Level → Option Waited
block_for_available_space b op start_time [] levels =
    let space = get_available_space b op in
    if space == 0 then none else some (record { space = space; buffer = b; levels = levels })
block_for_available_space b op start_time (r ∷ rs) levels =
    let level = escalation_level b start_time r.now in
    let rest =
      block_for_available_space (peer_action r.action b) op start_time rs
        (levels ++ (level ∷ [])) in
    let space = get_available_space b op in
    if space == 0 then rest else some (record { space = space; buffer = b; levels = levels })

unfoldable pub non_blocking : Timeouts → Operation → Bool
non_blocking t read = t.non_blocking_read
non_blocking t write = t.non_blocking_write

-- `_determine_available_space`
unfoldable pub determine_available_space : Buffer → Operation → ℕ → List Round → Option Waited
determine_available_space b op start_time rounds =
    let waited = block_for_available_space b op start_time rounds [] in
    if non_blocking b.timeouts op
    then some (record { space = get_available_space b op; buffer = b; levels = [] })
    else waited

-- `buffer_write`: no buffer, no data, nothing to write, else a wait for space and a write of as
-- much as fits. With the result comes the buffer afterwards; `none` is a call that still waits.
unfoldable pub buffer_write :
    Option Buffer → Option (List ℕ) → ℕ → ℕ → List Round → Option (ℕ × Option Buffer)
buffer_write none source bytes_to_write start_time rounds = some (size_error, none)
buffer_write (some b) none bytes_to_write start_time rounds = some (size_error, some b)
buffer_write (some b) (some source) bytes_to_write start_time rounds =
    if bytes_to_write == 0
    then some (0, some b)
    else elim (determine_available_space b write start_time rounds) [
      | none ↦ none
      | some w ↦
          let (result, b') = write_available w.buffer source (min w.space bytes_to_write) in
          some (result, some b')
    ]

-- `buffer_read`. `true` stands for a destination that is not NULL; what is copied there is a result.
unfoldable pub buffer_read :
    Option Buffer → Bool → ℕ → ℕ → List Round → Option (ℕ × List ℕ × Option Buffer)
buffer_read none destination bytes_to_read start_time rounds = some (size_error, [], none)
buffer_read (some b) false bytes_to_read start_time rounds = some (size_error, [], some b)
buffer_read (some b) true bytes_to_read start_time rounds =
    if bytes_to_read == 0
    then some (0, [], some b)
    else elim (determine_available_space b read start_time rounds) [
      | none ↦ none
      | some w ↦
          let (result, copied, b') = read_available w.buffer (min w.space bytes_to_read) in
          some (result, copied, some b')
    ]

-- `buffer_peek`, whose read waits like any other; the size and the index of before are put back.
unfoldable pub buffer_peek :
    Buffer → Bool → ℕ → ℕ → List Round → Option (ℕ × List ℕ × Option Buffer)
buffer_peek b destination data_size start_time rounds =
    elim (buffer_read (some b) destination data_size start_time rounds) [
      | some (result, copied, some b') ↦
          some (result, copied, some (record b' { size = b.size; read = b.read }))
      | other ↦ other
    ]

-- `buffer_skip`
unfoldable pub buffer_skip : Buffer → ℕ → ℕ × Buffer
buffer_skip b number_of_bytes =
    if ltb (int_to_size b.size) number_of_bytes
    then (size_error, b)
    else (number_of_bytes, record b { read = add_size b.read number_of_bytes % b.capacity })
