-- ===== src/Handshake/Tests.antt =====
-- A handshake of source/tssx/server-overrides.c and source/tssx/client-overrides.c at small inputs, and the
-- theorems about it at such inputs.
use tssx.Base.{ℕ, ◌≡◌, refl, none, some, true, false, List, [], ◌∷◌, arith}
use tssx.Buffer.{Buffer, create_buffer, buffer_clear}
use tssx.Buffer.Inv.{IsValid, contents}
use tssx.Connection.{
  ConnectionOptions, Memory, Segment, client, default_options, default_timeouts, set_segment,
  initial_segment, create_connection, setup_connection,
}
use tssx.Bridge.{
  session_has_connection, bridge_insert, insert_ready, lazy_bridge_setup, session_table_assign,
  session_table_get,
}
use tssx.Bridge.Single.{vacant, vacant-IsValid, single}
use tssx.Handshake.{
  sending, waiting, released, accepted, joining, joined, synchronized, connected, Handshake,
  create_session, send_segment_id_to_client, synchronize_with_client, insert_on_server,
  read_segment_id_from_server, setup_session, synchronize_with_server, insert_on_client,
}
use tssx.Handshake.Steps.{
  Reach, here, next, creates, sends, receives_byte, inserts_on_server, reads_id, sets_up,
  synchronizes, inserts_on_client,
}
use tssx.Handshake.Joined.{shared, at_start, Has}
use tssx.Handshake.Transfer.{accept-connect, first_write, Transferred}

abbrev options : ConnectionOptions
options = record default_options { server_buffer_size = 3; client_buffer_size = 2 }

abbrev nothing : Memory
nothing = λ id. none

abbrev buffer : ℕ → List ℕ → Buffer
buffer capacity bytes = record {
  size = 0;
  capacity = capacity;
  timeouts = default_timeouts;
  read = 0;
  write = 0;
  bytes = bytes;
}

abbrev segment : Segment
segment = record {
  open_count = 1;
  server_buffer = buffer 3 (0 ∷ 0 ∷ 0 ∷ []);
  client_buffer = buffer 2 (0 ∷ 0 ∷ []);
}

abbrev one_user : Memory
one_user = set_segment 9 (some segment) nothing

abbrev two_users : Memory
two_users = set_segment 9 (some (record segment { open_count = 2 })) one_user

abbrev begun : Handshake
begun = at_start nothing vacant vacant

abbrev created : Handshake
created = record begun { server = sending (shared 9); memory = one_user }

create_session_once :
    create_session options true 9 (0 ∷ 0 ∷ 0 ∷ []) (0 ∷ 0 ∷ []) begun ≡ some created
unfolding create_session create_connection initial_segment create_buffer buffer_clear
create_session_once = refl

abbrev read_id : Handshake
read_id = record created { server = waiting (shared 9); client = joining 9; to_client = none }

abbrev set_up : Handshake
set_up = record read_id { client = joined (shared 9); memory = two_users }

setup_session_once : setup_session true 9 read_id ≡ some set_up
unfolding setup_session setup_connection
setup_session_once = refl

abbrev byte_sent : Handshake
byte_sent = record set_up { client = synchronized (shared 9); to_server = true }

abbrev client_over : Handshake
client_over = record byte_sent { client = connected; client_bridge = (single (shared 9)) }

abbrev byte_read : Handshake
byte_read = record client_over { server = released (shared 9); to_server = false }

abbrev both_over : Handshake
both_over = record byte_read { server = accepted; server_bridge = (single (shared 9)) }

insert_on_client_once : insert_on_client 0 (shared 9) byte_sent ≡ some client_over
unfolding insert_on_client bridge_insert insert_ready lazy_bridge_setup session_table_assign
    session_table_get session_has_connection
insert_on_client_once = refl

insert_on_server_once : insert_on_server 0 (shared 9) byte_read ≡ some both_over
unfolding insert_on_server bridge_insert insert_ready lazy_bridge_setup session_table_assign
    session_table_get session_has_connection
insert_on_server_once = refl

run : Reach options 9 (0 ∷ 0 ∷ 0 ∷ []) (0 ∷ 0 ∷ []) 0 0 begun both_over
unfolding send_segment_id_to_client read_segment_id_from_server synchronize_with_server
    synchronize_with_client
run =
    next
      (next
        (next
          (next
            (next
              (next
                (next (next here (creates true created refl create_session_once))
                  (sends true (shared 9) refl))
                (reads_id 0 9 refl refl))
              (sets_up true 9 set_up refl setup_session_once))
            (synchronizes true (shared 9) refl))
          (inserts_on_client (shared 9) client_over refl insert_on_client_once))
        (receives_byte (shared 9) refl refl))
      (inserts_on_server (shared 9) both_over refl insert_on_server_once)

accept-connect_example :
    (s : Segment) × (two_users 9 ≡ some s)
    × (s.open_count ≡ 2)
    × Has 9 0 (single (shared 9))
    × Has 9 0 (single (shared 9))
    × IsValid s.server_buffer
    × IsValid s.client_buffer
    × (contents s.server_buffer ≡ [])
    × (contents s.client_buffer ≡ [])
accept-connect_example =
    accept-connect options 9 (0 ∷ 0 ∷ 0 ∷ []) (0 ∷ 0 ∷ []) 0 0 nothing refl refl (omega arith)
      (omega arith) (omega arith) (omega arith) vacant-IsValid vacant-IsValid (omega arith)
      (omega arith) refl refl run refl refl

abbrev real_write : ℕ → List ℕ → ℕ → ℕ
real_write = λ fd source n. 0

abbrev real_read : ℕ → ℕ → ℕ × List ℕ
real_read = λ fd n. (0, [])

first_write_example :
    Transferred real_write real_read
      (5 ∷ 6 ∷ [])
      2
      4
      0
      0
      []
      []
      client
      (single (shared 9))
      0
      (single (shared 9))
      0
      two_users
first_write_example =
    first_write options 9 (0 ∷ 0 ∷ 0 ∷ []) (0 ∷ 0 ∷ []) 0 0 nothing refl refl (omega arith)
      (omega arith) (omega arith) (omega arith) vacant-IsValid vacant-IsValid (omega arith)
      (omega arith) refl refl run refl refl real_write real_read client (5 ∷ 6 ∷ []) 2 4 0 0 [] []
      (omega arith) (omega arith) (omega arith)
