-- ===== src/Connection/Lifecycle.antt =====
-- A connection from `create_connection` to the last `disconnect` of source/tssx/connection.c, and the
-- layout of its segment.
use tssx.Base.{
  ℕ, ◌+◌, ◌<◌, ◌≡◌, refl, ap, ◌∙◌, Option, none, some, true, false, List, [], length, ◌==◌,
  size_modulus, int_limit, arith,
}
use tssx.Buffer.{Buffer}
use tssx.Buffer.Inv.{IsValid, contents}
use tssx.Buffer.Queries.{create_buffer_lem}
use tssx.Connection.{
  Connection, ConnectionOptions, Memory, Segment, Sizes, set_segment, change, leave,
  initial_segment, create_connection, setup_connection, disconnect, connection_peer_died,
  options_segment_size, server_buffer_offset, client_buffer_offset, segment_size,
}

-- Where `atomic_count_t` has the size of a pointer, as it has on 64 bits, the segment ends exactly
-- behind the client buffer, which starts behind the server buffer, which starts behind the count.
client_buffer_offset_lem :
    (sizes : Sizes) (options : ConnectionOptions) (server_buffer client_buffer : Buffer)
    → sizes.count ≡ sizes.pointer
    → server_buffer.capacity ≡ options.server_buffer_size
    → client_buffer.capacity ≡ options.client_buffer_size
    → sizes.count + sizes.header + options.server_buffer_size + sizes.header
        + options.client_buffer_size
      < size_modulus
    → (server_buffer_offset sizes + segment_size sizes server_buffer
        ≡ client_buffer_offset sizes server_buffer)
      × (client_buffer_offset sizes server_buffer + segment_size sizes client_buffer
          ≡ options_segment_size sizes options)
unfolding options_segment_size server_buffer_offset client_buffer_offset segment_size
client_buffer_offset_lem sizes options server_buffer client_buffer same server client small =
    (omega arith, omega arith)

module _ (options : ConnectionOptions) (id : ℕ) (server_memory client_memory : List ℕ)
    (memory : Memory) (server_size : options.server_buffer_size ≡ length server_memory)
    (client_size : options.client_buffer_size ≡ length client_memory)
    (server_pos : 0 < length server_memory) (client_pos : 0 < length client_memory)
    (server_small : length server_memory < int_limit)
    (client_small : length client_memory < int_limit) where
  pub start_segment :
      (s : Segment) × (initial_segment options server_memory client_memory ≡ some s)
      × (s.open_count ≡ 1)
      × IsValid s.server_buffer
      × IsValid s.client_buffer
      × (contents s.server_buffer ≡ [])
      × (contents s.client_buffer ≡ [])
  unfolding initial_segment
  start_segment =
      let (b, made, valid, empty, _, _) =
        create_buffer_lem server_memory options.server_timeouts server_pos server_small in
      let (c, made', valid', empty', _, _) =
        create_buffer_lem client_memory options.client_timeouts client_pos client_small in
      (
        record { open_count = 1; server_buffer = b; client_buffer = c },
        rw (initial_segment, server_size, client_size, made, made'),
        refl,
        valid,
        valid',
        empty,
        empty',
      )

  at_id : (o : Option Segment) (m : Memory) → set_segment id o m id ≡ o
  at_id o m = let t : id == id ≡ true = ground arith in rw t refl

  -- `create_connection` on one side, for memory of the sizes asked for, and `setup_connection` on the
  -- other give a connection to one segment with two valid, empty buffers and two users, so that
  -- neither sees the other as gone; after one `disconnect` the other side is alone, and after both the
  -- segment is gone.
  pub create-setup-disconnect :
      let c : Connection = record { segment_id = some id } in
      (created : Memory) × (shared : Memory) × (s : Segment) × (create_connection options true id
          server_memory client_memory memory
        ≡ some (some c, created))
      × (setup_connection id true created ≡ some (some c, shared))
      × (shared id ≡ some s)
      × IsValid s.server_buffer
      × IsValid s.client_buffer
      × (contents s.server_buffer ≡ [])
      × (contents s.client_buffer ≡ [])
      × (connection_peer_died c shared ≡ false)
      × (connection_peer_died c (disconnect c shared).1 ≡ true)
      × ((disconnect c (disconnect c shared).1).1 id ≡ none)
  unfolding create_connection setup_connection connection_peer_died disconnect
  create-setup-disconnect =
      let (s, made, one, valid, valid', empty, empty') = start_segment in
      let two : Segment = record s { open_count = 2 } in
      let created = set_segment id (some s) memory in
      let shared = set_segment id (some two) created in
      let alone = set_segment id (some (record s { open_count = 1 })) shared in
      let first = at_id (some s) memory in
      let second = at_id (some two) created in
      let third = at_id (some (record s { open_count = 1 })) shared in
      let left : change (record { segment_id = some id }) leave shared ≡ alone =
        rw (change, second) refl in
      let c : Connection = record { segment_id = some id } in
      let died : connection_peer_died c alone ≡ true = rw (connection_peer_died, third) refl in
      let gone : change c leave alone ≡ set_segment id none alone = rw (change, third) refl in
      (
        created,
        shared,
        two,
        rw (create_connection, made),
        rw (setup_connection, first, one),
        second,
        valid,
        valid',
        empty,
        empty',
        rw (connection_peer_died, second) refl,
        ap (connection_peer_died c) left ∙ died,
        ap (λ m. change c leave m id) left ∙ ap (λ m. m id) gone ∙ at_id none alone,
      )
