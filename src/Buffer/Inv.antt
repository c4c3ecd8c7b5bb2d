-- ===== src/Buffer/Inv.antt =====
-- The invariant of a `Buffer` of source/tssx/buffer.c, and the bytes that one holds.
use tssx.Base.{ℕ, ◌+◌, ◌≤◌, ◌<◌, ◌≡◌, List, length, int_limit, arith}
use tssx.Buffer.{Buffer}
use tssx.Buffer.Ring.{wrap, window, length-window}

pub record IsValid (b : Buffer) : Type 0 where
  pub memory : length b.bytes ≡ b.capacity
  pub positive : 0 < b.capacity
  pub small : b.capacity < int_limit
  pub read_in : b.read < b.capacity
  pub size_in : b.size ≤ b.capacity
  pub write_at : b.write ≡ wrap b.capacity (b.read + b.size)

pub write_in : {b : Buffer} → IsValid b → b.write < b.capacity
write_in {b} v = ground (arith, v.write_at)

-- The bytes that the buffer holds, oldest first.
abbrev pub contents : Buffer → List ℕ
contents b = window b.bytes b.capacity b.read b.size

pub length-contents : {b : Buffer} → IsValid b → length (contents b) ≡ b.size
length-contents {b} v =
    length-window b.bytes b.capacity b.read b.size v.memory (omega (arith, v.read_in)) v.size_in
