-- ===== src/Overrides.antt =====
-- The system calls that TSSX overrides, from a descriptor to a buffer or on to the socket:
-- source/tssx/common-overrides.c, the routing of source/tssx/server-overrides.c and
-- source/tssx/client-overrides.c, and source/tssx/socket-overrides.c. The calls of the next library,
-- `real_write` and the like, are arguments. A result of none is a call that never returns, for the
-- rounds at hand, or a process that has ended.
pub mod Transfer
pub mod Flags
pub mod Messages
mod Tests
use tssx.Base.{
  ℕ, ◌+◌, ◌-◌, ◌/◌, ◌%◌, Bool, true, false, not, Option, none, some, List, [], ◌∷◌, ltb, ◌==◌, ◌&&◌,
  ◌||◌, if◌then◌else◌,
}
use tssx.Buffer.{Buffer, Operation, read, write, Round, buffer_write, buffer_read, buffer_ready_for}
use tssx.Connection.{
  Connection, Memory, Segment, Side, server, client, segment_of, change, connection_peer_died,
  put_non_blocking, server_action, client_action,
}
use tssx.Bridge.{Bridge, bridge_lookup, bridge_erase}

-- SERVER_BUFFER and CLIENT_BUFFER
abbrev pub server_buffer_number : ℕ
server_buffer_number = 0

abbrev pub client_buffer_number : ℕ
client_buffer_number = 1

unfoldable pub get_buffer : Segment → ℕ → Buffer
get_buffer s which_buffer = if which_buffer == 0 then s.server_buffer else s.client_buffer

-- A buffer changed where it stands.
unfoldable pub put_buffer : ℕ → Option Buffer → Segment → Segment
put_buffer which_buffer none s = s
put_buffer which_buffer (some b) s =
    if which_buffer == 0 then record s { server_buffer = b } else record s { client_buffer = b }

-- What a call returns, and what it leaves.
pub record Sent : Type 0 where
  pub result : ℕ
  pub bridge : Bridge
  pub memory : Memory

pub record Received : Type 0 where
  pub result : ℕ
  pub copied : List ℕ
  pub bridge : Bridge
  pub memory : Memory

-- The write to the connection's buffer in `connection_write`.
unfoldable pub write_to :
    Connection → Bridge → Memory → List ℕ → ℕ → ℕ → ℕ → List Round → Option Sent
write_to c bridge memory source requested_bytes which_buffer start rounds =
    elim (segment_of c memory) [
      | none ↦ none
      | some s ↦
          elim (buffer_write (some (get_buffer s which_buffer)) (some source) requested_bytes start
            rounds) [
              | none ↦ none
              | some (result, b) ↦ some (record {
                result = result;
                bridge = bridge;
                memory = change c (λ s. some (put_buffer which_buffer b s)) memory;
              })
            ]
    ]

-- The read from the connection's buffer in `connection_read`.
unfoldable pub read_from : Connection → Bridge → Memory → ℕ → ℕ → ℕ → List Round → Option Received
read_from c bridge memory requested_bytes which_buffer start rounds = elim (segment_of c memory) [
  | none ↦ none
  | some s ↦
      elim (buffer_read (some (get_buffer s which_buffer)) true requested_bytes start rounds) [
        | none ↦ none
        | some (result, copied, b) ↦ some (record {
          result = result;
          copied = copied;
          bridge = bridge;
          memory = change c (λ s. some (put_buffer which_buffer b s)) memory;
        })
      ]
]

module _ (real_write : ℕ → List ℕ → ℕ → ℕ) (real_read : ℕ → ℕ → ℕ × List ℕ) where
  unfoldable pub connection_write :
      Bridge → Memory → ℕ → List ℕ → ℕ → ℕ → ℕ → List Round → Option Sent
  connection_write b memory key source requested_bytes which_buffer start rounds =
      elim (bridge_lookup b key) [
        | none ↦ none
        | some (b', session) ↦ elim session.connection [
          | none ↦ some (record {
            result = real_write key source requested_bytes;
            bridge = b';
            memory = memory;
          })
          | some c ↦
              if connection_peer_died c memory
              then some (record { result = 0; bridge = b'; memory = memory })
              else write_to c b' memory source requested_bytes which_buffer start rounds
        ]
      ]

  unfoldable pub connection_read : Bridge → Memory → ℕ → ℕ → ℕ → ℕ → List Round → Option Received
  connection_read b memory key requested_bytes which_buffer start rounds =
      elim (bridge_lookup b key) [
        | none ↦ none
        | some (b', session) ↦ elim session.connection [
          | none ↦
              let (result, copied) = real_read key requested_bytes in
              some (record { result = result; copied = copied; bridge = b'; memory = memory })
          | some c ↦
              if connection_peer_died c memory
              then some (record { result = 0; copied = []; bridge = b'; memory = memory })
              else read_from c b' memory requested_bytes which_buffer start rounds
        ]
      ]

  -- `read` and `write` of server-overrides.c and of client-overrides.c
  unfoldable pub read_call : Side → Bridge → Memory → ℕ → ℕ → ℕ → List Round → Option Received
  read_call server b memory key requested_bytes =
      connection_read b memory key requested_bytes client_buffer_number
  read_call client b memory key requested_bytes =
      connection_read b memory key requested_bytes server_buffer_number

  unfoldable pub write_call : Side → Bridge → Memory → ℕ → List ℕ → ℕ → ℕ → List Round → Option Sent
  write_call server b memory key source requested_bytes =
      connection_write b memory key source requested_bytes server_buffer_number
  write_call client b memory key source requested_bytes =
      connection_write b memory key source requested_bytes client_buffer_number

  -- MSG_NOSIGNAL of Linux
  abbrev pub msg_nosignal : ℕ
  msg_nosignal = 16384

  unfoldable pub send_call :
      (ℕ → List ℕ → ℕ → ℕ → ℕ)
      → Side
      → Bridge
      → Memory
      → ℕ
      → List ℕ
      → ℕ
      → ℕ
      → ℕ
      → List Round
      → Option Sent
  send_call real_send side b memory fd source length flags start rounds =
      if (flags == 0) || (flags == msg_nosignal)
      then write_call side b memory fd source length start rounds
      else some (record { result = real_send fd source length flags; bridge = b; memory = memory })

  unfoldable pub recv_call :
      (ℕ → ℕ → ℕ → ℕ × List ℕ)
      → Side
      → Bridge
      → Memory
      → ℕ
      → ℕ
      → ℕ
      → ℕ
      → List Round
      → Option Received
  recv_call real_recv side b memory fd length flags start rounds =
      if (flags == 0) || (flags == msg_nosignal)
      then read_call side b memory fd length start rounds
      else (let (result, copied) = real_recv fd length flags in
          some (record { result = result; copied = copied; bridge = b; memory = memory }))

-- `set_non_blocking` of the two sides.
unfoldable pub set_non_blocking : Side → Bool → Segment → Segment
set_non_blocking side non_blocking s = record s {
  server_buffer = record s.server_buffer {
    timeouts = put_non_blocking s.server_buffer.timeouts (server_action side) non_blocking;
  };
  client_buffer = record s.client_buffer {
    timeouts = put_non_blocking s.client_buffer.timeouts (client_action side) non_blocking;
  };
}

-- Whether two flags are equal.
abbrev pub same_flag : Bool → Bool → Bool
same_flag true b = b
same_flag false b = not b

-- None is a failed `assert`: the flags of the side's own transfers differ in the two buffers.
unfoldable pub is_non_blocking : Side → Segment → Option Bool
is_non_blocking server s =
    if same_flag s.server_buffer.timeouts.non_blocking_write
      s.client_buffer.timeouts.non_blocking_read
    then some s.server_buffer.timeouts.non_blocking_write
    else none
is_non_blocking client s =
    if same_flag s.server_buffer.timeouts.non_blocking_read
      s.client_buffer.timeouts.non_blocking_write
    then some s.client_buffer.timeouts.non_blocking_write
    else none

unfoldable pub ready_for : Side → Segment → Operation → Bool
ready_for server s read = buffer_ready_for s.client_buffer read
ready_for server s write = buffer_ready_for s.server_buffer write
ready_for client s read = buffer_ready_for s.server_buffer read
ready_for client s write = buffer_ready_for s.client_buffer write

-- O_NONBLOCK of Linux, and the three things that the code does with it.
abbrev pub o_nonblock : ℕ
o_nonblock = 2048

abbrev pub has_nonblock : ℕ → Bool
has_nonblock flags = flags / o_nonblock % 2 == 1

abbrev pub clear_nonblock : ℕ → ℕ
clear_nonblock flags = if has_nonblock flags then flags - o_nonblock else flags

abbrev pub add_nonblock : ℕ → ℕ
add_nonblock flags = if has_nonblock flags then flags else flags + o_nonblock

-- The commands of `fcntl` that the override knows, and the others.
pub data Command : Type 0 where
  setfl setfd getfl getfd other : Command

-- What `fcntl` returns, or ERROR.
pub data Reply : Type 0 where
  value : ℕ → Reply
  error : Reply

-- `real_fcntl_set_flags` succeeds or not.
unfoldable pub fcntl_set : Side → Bool → Bridge → Memory → ℕ → ℕ → Option (Reply × Bridge × Memory)
fcntl_set side false b memory fd flags = some (error, b, memory)
fcntl_set side true b memory fd flags = elim (bridge_lookup b fd) [
  | none ↦ none
  | some (b', session) ↦ some (
    value 0,
    b',
    elim session.connection [
      | none ↦ memory
      | some c ↦ change c (λ s. some (set_non_blocking side (has_nonblock flags) s)) memory
    ],
  )
]

-- The flags with the bit of O_NONBLOCK as the connection has it; none is a failed `assert`.
unfoldable pub synced_flags : Side → ℕ → Option Segment → Option ℕ
synced_flags side flags none = some flags
synced_flags side flags (some s) = elim (is_non_blocking side s) [
  | none ↦ none
  | some flag ↦ some (if flag then add_nonblock (clear_nonblock flags) else clear_nonblock flags)
]

-- `flags` is what `real_fcntl_get_flags` gives.
unfoldable pub fcntl_get : Side → ℕ → Bridge → Memory → ℕ → Option (Reply × Bridge × Memory)
fcntl_get side flags b memory fd = elim (bridge_lookup b fd) [
  | none ↦ none
  | some (b', session) ↦
      elim (synced_flags side flags
        (elim session.connection [ none ↦ none | some c ↦ segment_of c memory ])) [
          | none ↦ none
          | some result ↦ some (value result, b', memory)
        ]
]

unfoldable pub fcntl_call :
    Side → Command → Bool → ℕ → Bridge → Memory → ℕ → ℕ → Option (Reply × Bridge × Memory)
fcntl_call side setfl ok now b memory fd flags = fcntl_set side ok b memory fd flags
fcntl_call side setfd ok now b memory fd flags = fcntl_set side ok b memory fd flags
fcntl_call side getfl ok now b memory fd flags = fcntl_get side now b memory fd
fcntl_call side getfd ok now b memory fd flags = fcntl_get side now b memory fd
fcntl_call side other ok now b memory fd flags = some (error, b, memory)
