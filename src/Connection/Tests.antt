-- ===== src/Connection/Tests.antt =====
-- The connections of source/tssx/connection.c at small inputs.
use tssx.Base.{◌≡◌, refl, none, some, true, false, [], ◌∷◌, arith}
use tssx.Buffer.{Buffer}
use tssx.Buffer.Inv.{IsValid, contents}
use tssx.Connection.{
  Connection, ConnectionOptions, Memory, Segment, Sizes, server, default_options, default_timeouts,
  create_connection, setup_connection, disconnect, connection_peer_died, options_from_socket,
  put_non_blocking, server_action, options_segment_size,
}
use tssx.Connection.Lifecycle.{create-setup-disconnect}

abbrev options : ConnectionOptions
options = record default_options { server_buffer_size = 2; client_buffer_size = 3 }

abbrev sizes : Sizes
sizes = record { count = 8; pointer = 8; header = 64 }

abbrev buffer : Buffer
buffer = record {
  size = 0;
  capacity = 2;
  timeouts = default_timeouts;
  read = 0;
  write = 0;
  bytes = 0 ∷ 0 ∷ [];
}

abbrev no_segments : Memory
no_segments = λ id. none

server_writes_without_blocking :
    (options_from_socket true server).server_timeouts.non_blocking_write ≡ true
unfolding options_from_socket put_non_blocking server_action
server_writes_without_blocking = refl

segment_bytes : options_segment_size sizes options ≡ 141
unfolding options_segment_size
segment_bytes = refl

create-setup-disconnect_example :
    let c : Connection = record { segment_id = some 9 } in
    (created : Memory) × (shared : Memory) × (s : Segment) × (create_connection options true 9
        (0 ∷ 0 ∷ [])
        (0 ∷ 0 ∷ 0 ∷ [])
        no_segments
      ≡ some (some c, created))
    × (setup_connection 9 true created ≡ some (some c, shared))
    × (shared 9 ≡ some s)
    × IsValid s.server_buffer
    × IsValid s.client_buffer
    × (contents s.server_buffer ≡ [])
    × (contents s.client_buffer ≡ [])
    × (connection_peer_died c shared ≡ false)
    × (connection_peer_died c (disconnect c shared).1 ≡ true)
    × ((disconnect c (disconnect c shared).1).1 9 ≡ none)
create-setup-disconnect_example =
    create-setup-disconnect options 9 (0 ∷ 0 ∷ []) (0 ∷ 0 ∷ 0 ∷ []) no_segments refl refl
      (omega arith) (omega arith) (omega arith) (omega arith)
