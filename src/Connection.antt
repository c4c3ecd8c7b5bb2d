-- ===== src/Connection.antt =====
-- A connection is a segment of shared memory with a count of its users and two buffers:
-- source/tssx/connection.c, source/tssx/connection-options.c, and segment_size of
-- source/tssx/shared-memory.c. `malloc` and `shmget` are the environment's: their answers are
-- arguments. A result of none is a process that has ended, by `throw` or by an `assert`.
pub mod Lifecycle
mod Tests
use tssx.Base.{
  ℕ, ◌*◌, ◌>>=◌, Bool, true, false, not, Option, none, some, List, ◌==◌, if◌then◌else◌, add_size,
  sub_size,
}
use tssx.Buffer.{Buffer, Timeouts, Operation, read, write, create_buffer}

-- `enum Side`
pub data Side : Type 0 where
  server client : Side

pub record ConnectionOptions : Type 0 where
  pub server_buffer_size : ℕ
  pub server_timeouts : Timeouts
  pub client_buffer_size : ℕ
  pub client_timeouts : Timeouts
  pub is_blocking : Bool

-- DEFAULT_TIMEOUTS_INITIALIZER
abbrev pub default_timeouts : Timeouts
default_timeouts = record {
  non_blocking_read = false;
  non_blocking_write = false;
  level_zero = 10 * 0;
  level_one = 100 * 1000;
}

-- DEFAULT_CONNECTION_OPTIONS_INITIALIZER
abbrev pub default_options : ConnectionOptions
default_options = record {
  server_buffer_size = 1000000;
  server_timeouts = default_timeouts;
  client_buffer_size = 1000000;
  client_timeouts = default_timeouts;
  is_blocking = true;
}

-- A write to `non_blocking[operation]`.
unfoldable pub put_non_blocking : Timeouts → Operation → Bool → Timeouts
put_non_blocking t read non_blocking = record t { non_blocking_read = non_blocking }
put_non_blocking t write non_blocking = record t { non_blocking_write = non_blocking }

unfoldable pub server_action : Side → Operation
server_action server = write
server_action client = read

unfoldable pub client_action : Side → Operation
client_action server = read
client_action client = write

-- `socket_is_non_blocking` is the flag of the socket.
unfoldable pub options_from_socket : Bool → Side → ConnectionOptions
options_from_socket socket_is_non_blocking side = record default_options {
  server_timeouts = put_non_blocking default_timeouts (server_action side) socket_is_non_blocking;
  client_timeouts = put_non_blocking default_timeouts (client_action side) socket_is_non_blocking;
}

-- What the compiler lays out: `sizeof(atomic_count_t)`, the size of a pointer, and `sizeof(Buffer)`.
pub record Sizes : Type 0 where
  pub count : ℕ
  pub pointer : ℕ
  pub header : ℕ

unfoldable pub options_segment_size : Sizes → ConnectionOptions → ℕ
options_segment_size sizes options =
    add_size (add_size sizes.count (add_size sizes.header options.server_buffer_size))
      (add_size sizes.header options.client_buffer_size)

-- Where the server buffer starts in the segment, and `_client_buffer_offset`.
unfoldable pub server_buffer_offset : Sizes → ℕ
server_buffer_offset sizes = sizes.pointer

unfoldable pub segment_size : Sizes → Buffer → ℕ
segment_size sizes b = add_size sizes.header b.capacity

unfoldable pub client_buffer_offset : Sizes → Buffer → ℕ
client_buffer_offset sizes server_buffer = add_size sizes.pointer (segment_size sizes server_buffer)

-- A segment of shared memory as `create_connection` lays it out.
pub record Segment : Type 0 where
  pub open_count : ℕ
  pub server_buffer : Buffer
  pub client_buffer : Buffer

-- The segments of the system by identifier; none is one that does not exist.
abbrev pub Memory : Type 0
Memory = ℕ → Option Segment

abbrev pub set_segment : ℕ → Option Segment → Memory → Memory
set_segment id segment memory = λ i. if i == id then segment else memory i

-- `struct Connection`: the segment and with it the three pointers into it; none is -1 and NULL.
pub record Connection : Type 0 where
  pub segment_id : Option ℕ

abbrev pub segment_of : Connection → Memory → Option Segment
segment_of c memory = elim c.segment_id [ none ↦ none | some id ↦ memory id ]

-- A change of the segment that the connection points to.
abbrev pub change : Connection → (Segment → Option Segment) → Memory → Memory
change c f memory = elim c.segment_id [
  | none ↦ memory
  | some id ↦ elim (memory id) [ none ↦ memory | some s ↦ set_segment id (f s) memory ]
]

-- `_init_open_count`, `_create_server_buffer` and `_create_client_buffer`
unfoldable pub initial_segment : ConnectionOptions → List ℕ → List ℕ → Option Segment
initial_segment options server_memory client_memory = do
  server_buffer ← create_buffer server_memory options.server_buffer_size options.server_timeouts
  client_buffer ← create_buffer client_memory options.client_buffer_size options.client_timeouts
  some (record { open_count = 1; server_buffer = server_buffer; client_buffer = client_buffer })

-- The segment gets the identifier `id`; the two lists are its memory behind the two headers.
unfoldable pub create_connection :
    ConnectionOptions → Bool → ℕ → List ℕ → List ℕ → Memory → Option (Option Connection × Memory)
create_connection options false id server_memory client_memory memory = some (none, memory)
create_connection options true id server_memory client_memory memory =
    elim (initial_segment options server_memory client_memory) [
      | none ↦ none
      | some s ↦ some (some (record { segment_id = some id }), set_segment id (some s) memory)
    ]

unfoldable pub setup_connection : ℕ → Bool → Memory → Option (Option Connection × Memory)
setup_connection segment_id false memory = some (none, memory)
setup_connection segment_id true memory = elim (memory segment_id) [
  | none ↦ none
  | some s ↦ some (
    some (record { segment_id = some segment_id }),
    set_segment segment_id (some (record s { open_count = add_size s.open_count 1 })) memory,
  )
]

unfoldable pub connection_add_user : Connection → Memory → Memory
connection_add_user c = change c (λ s. some (record s { open_count = add_size s.open_count 1 }))

unfoldable pub connection_peer_died : Connection → Memory → Bool
connection_peer_died c memory = elim (segment_of c memory) [
  | none ↦ false
  | some s ↦ s.open_count == 1
]

-- What is left of a segment from which a user has gone: nothing if it was the last.
abbrev pub leave : Segment → Option Segment
leave s =
    let left = sub_size s.open_count 1 in
    if left == 0 then none else some (record s { open_count = left })

-- The connection is detached either way.
unfoldable pub disconnect : Connection → Memory → Connection × Memory
disconnect c memory = (record { segment_id = none }, change c leave memory)
