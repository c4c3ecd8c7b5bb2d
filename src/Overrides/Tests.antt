-- ===== src/Overrides/Tests.antt =====
-- The calls of source/tssx/common-overrides.c, source/tssx/server-overrides.c and
-- source/tssx/client-overrides.c at small inputs, and the theorems about them at such inputs.
use tssx.Base.{ℕ, ◌≡◌, refl, none, some, true, false, List, [], ◌∷◌, ◌==◌, if◌then◌else◌, arith}
use tssx.Buffer.{Buffer}
use tssx.Buffer.Inv.{IsValid}
use tssx.Buffer.Ring.{window}
use tssx.Connection.{Memory, Segment, server, client, default_timeouts}
use tssx.Bridge.{Bridge}
use tssx.Bridge.Single.{single, single-IsValid}
use tssx.Overrides.{
  Sent, Received, read_call, write_call, is_non_blocking, has_nonblock, clear_nonblock, setfd,
  getfl, value, fcntl_call,
}
use tssx.Overrides.Transfer.{joined, write-read}
use tssx.Overrides.Flags.{fcntl_lem}

-- Room for three bytes, 7 held.
abbrev buffer : Buffer
buffer = record {
  size = 1;
  capacity = 3;
  timeouts = record default_timeouts { non_blocking_write = true };
  read = 2;
  write = 0;
  bytes = 0 ∷ 0 ∷ 7 ∷ [];
}

buffer-IsValid : IsValid buffer
buffer-IsValid = record {
  memory = refl;
  positive = omega arith;
  small = omega arith;
  read_in = omega arith;
  size_in = omega arith;
  write_at = refl;
}

abbrev segment : Segment
segment = record { open_count = 2; server_buffer = buffer; client_buffer = buffer }

abbrev memory : Memory
memory = λ id. if id == 9 then some segment else none

abbrev lonely : Memory
lonely = λ id. if id == 9 then some (record segment { open_count = 1 }) else none

-- Descriptor 0 is connected to the segment, descriptor 1 is not.
abbrev used : Bridge
used = single (joined 9)

-- The sockets, which take nothing and give nothing.
abbrev closed_write : ℕ → List ℕ → ℕ → ℕ
closed_write = λ fd source n. 0

abbrev closed_read : ℕ → ℕ → ℕ × List ℕ
closed_read = λ fd n. (0, [])

write-read_example :
    (sent : Sent) × (received : Received) × (write_call closed_write closed_read server used memory
        0
        (5 ∷ 6 ∷ 8 ∷ [])
        3
        0
        []
      ≡ some sent)
    × (sent.result ≡ 2)
    × (read_call closed_write closed_read client used sent.memory 0 2 0 [] ≡ some received)
    × (received.copied ≡ 7 ∷ 5 ∷ [])
    × (received.result ≡ 2)
unfolding window
write-read_example =
    write-read closed_write closed_read server (single-IsValid (joined 9)) 0 (omega arith)
      (single-IsValid (joined 9)) 0 (omega arith) 9 refl refl memory segment refl (omega arith)
      buffer-IsValid (5 ∷ 6 ∷ 8 ∷ []) 3 (omega arith) (omega arith) (omega arith) 2 (omega arith) 0
      0 [] []

-- FD_CLOEXEC, which is 1, does not have the bit of O_NONBLOCK. The flags of the peer's transfers differ, and
-- still do.
fcntl_lem_example :
    (b' : Bridge) × (memory' : Memory) × (s' : Segment) × (b'' : Bridge) × (result : ℕ)
    × (fcntl_call server setfd true 2050 used memory 0 1 ≡ some (value 0, b', memory'))
    × (memory' 9 ≡ some s')
    × (is_non_blocking server s' ≡ some false)
    × (is_non_blocking client s' ≡ none)
    × (fcntl_call server getfl true 2050 b' memory' 0 0 ≡ some (value result, b'', memory'))
    × (has_nonblock result ≡ false)
    × (clear_nonblock result ≡ 2)
unfolding is_non_blocking
fcntl_lem_example =
    fcntl_lem server (single-IsValid (joined 9)) 0 (omega arith) memory 9 refl segment refl setfd
      getfl 1 2050 tt tt
