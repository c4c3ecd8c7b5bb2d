-- ===== src/Handshake.antt =====
-- The handshake of a server's `accept` and a client's `connect`, behind the calls of the next library:
-- `_setup_tssx` and its helpers in source/tssx/server-overrides.c and source/tssx/client-overrides.c. The
-- two processes share the memory and the socket; each function below is what one of them does between
-- two calls on the socket, with the answer of the call. A result of none is a process that has ended.
pub mod Steps
pub mod Joined
pub mod Run
pub mod Transfer
mod Tests
use tssx.Base.{ℕ, Bool, true, false, Option, none, some, List}
use tssx.Connection.{
  Connection, ConnectionOptions, Memory, create_connection, setup_connection, disconnect,
}
use tssx.Bridge.{Bridge, bridge_insert}

-- Where `_setup_tssx` of the server stands: before `create_connection`, before the write of the
-- identifier, before the read of the byte, before `bridge_insert`, and over.
pub data ServerSetup : Type 0 where
  starting accepted server_failed : ServerSetup
  sending waiting released : Connection → ServerSetup

-- Where that of the client stands: before the read of the identifier, before `setup_connection`, before
-- the write of the byte, before `bridge_insert`, and over.
pub data ClientSetup : Type 0 where
  reading connected client_failed : ClientSetup
  joining : ℕ → ClientSetup
  joined synchronized : Connection → ClientSetup

-- What the two processes and the socket hold.
pub record Handshake : Type 0 where
  pub memory : Memory
  pub server : ServerSetup
  pub client : ClientSetup
  pub to_client : Option ℕ
  pub to_server : Bool
  pub server_bridge : Bridge
  pub client_bridge : Bridge

-- What a read of the socket gives: all the bytes, none at the end of the stream, or ERROR.
pub data Answer : Type 0 where
  full ended failed : Answer

-- `_setup_tssx` of the server up to the first call on the socket.
unfoldable pub create_session :
    ConnectionOptions → Bool → ℕ → List ℕ → List ℕ → Handshake → Option Handshake
create_session options answers id server_memory client_memory h =
    elim (create_connection options answers id server_memory client_memory h.memory) [
      | none ↦ none
      | some (none, memory) ↦ some (record h { server = server_failed; memory = memory })
      | some (some c, memory) ↦ some (record h { server = sending c; memory = memory })
    ]

-- The write succeeds or not.
unfoldable pub send_segment_id_to_client : Bool → Connection → Handshake → Handshake
send_segment_id_to_client true c h = record h { server = waiting c; to_client = c.segment_id }
send_segment_id_to_client false c h = record h {
  server = server_failed;
  memory = (disconnect c h.memory).1;
}

-- The read of one byte, where only ERROR is looked for.
unfoldable pub synchronize_with_client : Answer → Connection → Handshake → Handshake
synchronize_with_client full c h = record h { server = released c; to_server = false }
synchronize_with_client ended c h = record h { server = released c }
synchronize_with_client failed c h = record h { server = server_failed }

unfoldable pub insert_on_server : ℕ → Connection → Handshake → Option Handshake
insert_on_server fd c h = elim (bridge_insert h.server_bridge fd (record { connection = some c })) [
  | none ↦ none
  | some b ↦ some (record h { server = accepted; server_bridge = b })
]

-- The read of the identifier, where only ERROR is looked for; `unset` is what stands in the variable
-- before.
unfoldable pub read_segment_id_from_server : Answer → ℕ → Handshake → Handshake
read_segment_id_from_server full unset h = record h {
  client = elim h.to_client [ none ↦ joining unset | some id ↦ joining id ];
  to_client = none;
}
read_segment_id_from_server ended unset h = record h { client = joining unset }
read_segment_id_from_server failed unset h = record h { client = client_failed }

unfoldable pub setup_session : Bool → ℕ → Handshake → Option Handshake
setup_session answers id h = elim (setup_connection id answers h.memory) [
  | none ↦ none
  | some (none, memory) ↦ some (record h { client = client_failed; memory = memory })
  | some (some c, memory) ↦ some (record h { client = joined c; memory = memory })
]

-- The write succeeds or not.
unfoldable pub synchronize_with_server : Bool → Connection → Handshake → Handshake
synchronize_with_server true c h = record h { client = synchronized c; to_server = true }
synchronize_with_server false c h = record h { client = client_failed }

unfoldable pub insert_on_client : ℕ → Connection → Handshake → Option Handshake
insert_on_client fd c h = elim (bridge_insert h.client_bridge fd (record { connection = some c })) [
  | none ↦ none
  | some b ↦ some (record h { client = connected; client_bridge = b })
]
