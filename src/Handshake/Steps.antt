-- ===== src/Handshake/Steps.antt =====
-- The order in which the two processes of a handshake take their steps: source/tssx/server-overrides.c and
-- source/tssx/client-overrides.c. A read waits for what the other process writes, or ends when that has
-- failed and its end of the socket is closed.
use tssx.Base.{ℕ, ◌≡◌, Bool, true, some, List}
use tssx.Connection.{Connection, ConnectionOptions}
use tssx.Handshake.{
  starting, sending, waiting, released, server_failed, reading, joining, joined, synchronized,
  client_failed, Handshake, full, ended, failed, create_session, send_segment_id_to_client,
  synchronize_with_client, insert_on_server, read_segment_id_from_server, setup_session,
  synchronize_with_server, insert_on_client,
}

module _ (options : ConnectionOptions) (id : ℕ) (server_memory client_memory : List ℕ)
    (server_fd client_fd : ℕ) where
  pub data Step (h : Handshake) : Handshake → Type 0 where
    creates :
        (answers : Bool) (h' : Handshake)
        → h.server ≡ starting
        → create_session options answers id server_memory client_memory h ≡ some h'
        → Step h h'
    sends :
        (answer : Bool) (c : Connection)
        → h.server ≡ sending c
        → Step h (send_segment_id_to_client answer c h)
    receives_byte :
        (c : Connection)
        → h.server ≡ waiting c
        → h.to_server ≡ true
        → Step h (synchronize_with_client full c h)
    receives_end :
        (c : Connection)
        → h.server ≡ waiting c
        → h.client ≡ client_failed
        → Step h (synchronize_with_client ended c h)
    receives_error :
        (c : Connection) → h.server ≡ waiting c → Step h (synchronize_with_client failed c h)
    inserts_on_server :
        (c : Connection) (h' : Handshake)
        → h.server ≡ released c
        → insert_on_server server_fd c h ≡ some h'
        → Step h h'
    reads_id :
        (unset sent : ℕ)
        → h.client ≡ reading
        → h.to_client ≡ some sent
        → Step h (read_segment_id_from_server full unset h)
    reads_end :
        (unset : ℕ)
        → h.client ≡ reading
        → h.server ≡ server_failed
        → Step h (read_segment_id_from_server ended unset h)
    reads_error :
        (unset : ℕ) → h.client ≡ reading → Step h (read_segment_id_from_server failed unset h)
    sets_up :
        (answers : Bool) (k : ℕ) (h' : Handshake)
        → h.client ≡ joining k
        → setup_session answers k h ≡ some h'
        → Step h h'
    synchronizes :
        (answer : Bool) (c : Connection)
        → h.client ≡ joined c
        → Step h (synchronize_with_server answer c h)
    inserts_on_client :
        (c : Connection) (h' : Handshake)
        → h.client ≡ synchronized c
        → insert_on_client client_fd c h ≡ some h'
        → Step h h'

  pub data Reach (h : Handshake) : Handshake → Type 0 where
    here : Reach h h
    next : {h₁ h₂ : Handshake} → Reach h h₁ → Step h₁ h₂ → Reach h h₂
