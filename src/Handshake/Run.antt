-- ===== src/Handshake/Run.antt =====
-- The steps of the handshake of source/tssx/server-overrides.c and source/tssx/client-overrides.c keep what
-- Handshake/Joined says.
use tssx.Base.{
  ℕ, ◌<◌, ◌≡◌, refl, sym, ap, ◌∙◌, subst, Bool, true, false, inl, inr, Option, none, some,
  eq_of_some, List, ◌==◌, arith,
}
use tssx.Connection.{
  Connection, ConnectionOptions, Memory, Segment, set_segment, initial_segment, create_connection,
  setup_connection,
}
use tssx.Bridge.{Bridge, session_table_size, bridge_insert}
use tssx.Bridge.Inv
use tssx.Bridge.Inv.{connection_at, bridge_insert_lem}
use tssx.Handshake.{
  starting, sending, waiting, released, accepted, server_failed, reading, joining, joined,
  synchronized, connected, client_failed, Handshake, full, create_session,
  send_segment_id_to_client, synchronize_with_client, insert_on_server, read_segment_id_from_server,
  setup_session, synchronize_with_server, insert_on_client,
}
use tssx.Handshake.Steps.{
  Step, creates, sends, receives_byte, receives_end, receives_error, inserts_on_server, reads_id,
  reads_end, reads_error, sets_up, synchronizes, inserts_on_client, Reach, here, next,
}
use tssx.Handshake.Joined.{
  shared, Fine, sends-At, byte-At, read-At, synchronizes-At, server-At, client-At, setup-At,
  starting-At, server_is, client_is,
}

-- What the steps of one process leave of the other's.
create_session-client :
    (options : ConnectionOptions) (answers : Bool) (id : ℕ) (a b : List ℕ) (h h' : Handshake)
    → create_session options answers id a b h ≡ some h'
    → h'.client ≡ h.client
unfolding create_session
create_session-client options answers id a b h h' e = ground arith

insert_on_server-client :
    (fd : ℕ) (c : Connection) (h h' : Handshake)
    → insert_on_server fd c h ≡ some h'
    → h'.client ≡ h.client
unfolding insert_on_server
insert_on_server-client fd c h h' e = ground arith

setup_session-server :
    (answers : Bool) (k : ℕ) (h h' : Handshake)
    → setup_session answers k h ≡ some h'
    → h'.server ≡ h.server
unfolding setup_session
setup_session-server answers k h h' e = ground arith

insert_on_client-server :
    (fd : ℕ) (c : Connection) (h h' : Handshake)
    → insert_on_client fd c h ≡ some h'
    → h'.server ≡ h.server
unfolding insert_on_client
insert_on_client-server fd c h h' e = ground arith

module _ (options : ConnectionOptions) (id : ℕ) (server_memory client_memory : List ℕ)
    (server_fd client_fd : ℕ) (s : Segment) (ours theirs : Bridge)
    (made : initial_segment options server_memory client_memory ≡ some s) (one : s.open_count ≡ 1)
    (v : Inv.IsValid ours) (w : Inv.IsValid theirs) (in_table : server_fd < session_table_size)
    (peer_in_table : client_fd < session_table_size) (free : connection_at ours server_fd ≡ none)
    (peer_free : connection_at theirs client_fd ≡ none) where
  abbrev Kept : Handshake → Type 0
  Kept = Fine id server_fd client_fd s ours theirs

  abbrev Steps : Handshake → Handshake → Type 0
  Steps = Step options id server_memory client_memory server_fd client_fd

  at_id : (o : Option Segment) (m : Memory) → set_segment id o m id ≡ o
  at_id o m = let t : id == id ≡ true = ground arith in rw t refl

  creates-Fine :
      (answers : Bool) (h h' : Handshake)
      → h.server ≡ starting
      → create_session options answers id server_memory client_memory h ≡ some h'
      → Kept h
      → Kept h'
  unfolding create_session create_connection
  creates-Fine false h h' p e f =
      let q : record h { server = server_failed } ≡ h' = eq_of_some e in
      inl (sym (ap (λ k. k.server) q))
  creates-Fine true h h' p e f =
      elim (server_is id server_fd client_fd s ours theirs h starting p (λ q. cc) f) [
        | inl gone ↦
            inr (
              inl (create_session-client options true id server_memory client_memory h h' e ∙ gone))
        | inr at ↦
            let m' = set_segment id (some s) h.memory in
            let new : Handshake = record h { server = sending (shared id); memory = m' } in
            let run : create_connection options true id server_memory client_memory h.memory
                ≡ some (some (shared id), m') =
              rw (create_connection, made) refl in
            let done : create_session options true id server_memory client_memory h ≡ some new =
              rw (create_session, run) refl in
            let q : new ≡ h' = eq_of_some (sym done ∙ e) in
            let alive : m' id ≡ some (record s { open_count = 1 }) =
              at_id (some s) h.memory ∙ ap (λ n. some (record s { open_count = n })) one in
            subst Kept q (
              inr (
                inr (
                  starting-At id server_fd client_fd s ours theirs h.memory h.to_client h.to_server
                    h.server_bridge h.client_bridge h.client at m' alive)))
      ]

  sets_up-Fine :
      (answers : Bool) (k : ℕ) (h h' : Handshake)
      → h.client ≡ joining k
      → setup_session answers k h ≡ some h'
      → Kept h
      → Kept h'
  unfolding setup_session setup_connection
  sets_up-Fine false k h h' p e f =
      let q : record h { client = client_failed } ≡ h' = eq_of_some e in
      inr (inl (sym (ap (λ k. k.client) q)))
  sets_up-Fine true k h h' p e f =
      elim (client_is id server_fd client_fd s ours theirs h (joining k) p (λ q. cc) f) [
        | inl gone ↦ inl (setup_session-server true k h h' e ∙ gone)
        | inr at ↦
            let (same, alive, go) =
              setup-At id server_fd client_fd s ours theirs h.memory h.to_client h.to_server
                h.server_bridge h.client_bridge h.server k at in
            let two : Segment = record s { open_count = 2 } in
            let m' = set_segment id (some two) h.memory in
            let new : Handshake = record h { client = joined (shared id); memory = m' } in
            let run : setup_connection k true h.memory ≡ some (some (shared id), m') =
              ap (λ k. setup_connection k true h.memory) same ∙ rw (setup_connection, alive) refl in
            let done : setup_session true k h ≡ some new = rw (setup_session, run) refl in
            let q : new ≡ h' = eq_of_some (sym done ∙ e) in
            subst Kept q (inr (inr (go m' (at_id (some two) h.memory))))
      ]

  inserts_on_server-Fine :
      (c : Connection) (h h' : Handshake)
      → h.server ≡ released c
      → insert_on_server server_fd c h ≡ some h'
      → Kept h
      → Kept h'
  unfolding insert_on_server
  inserts_on_server-Fine c h h' p e f =
      elim (server_is id server_fd client_fd s ours theirs h (released c) p (λ q. cc) f) [
        | inl gone ↦ inr (inl (insert_on_server-client server_fd c h h' e ∙ gone))
        | inr at ↦
            let (same, there, go) =
              server-At id server_fd client_fd s ours theirs h.memory h.to_client h.to_server
                h.server_bridge h.client_bridge c h.client at in
            let (b, run, valid, has, _) =
              bridge_insert_lem v server_fd (record { connection = some (shared id) }) in_table
                free in
            let new : Handshake = record h { server = accepted; server_bridge = b } in
            let run' : bridge_insert h.server_bridge server_fd (record { connection = some c })
                ≡ some b =
              ap (λ bridge. bridge_insert bridge server_fd (record { connection = some c })) there
              ∙ ap (λ c. bridge_insert ours server_fd (record { connection = some c })) same
              ∙ run in
            let done : insert_on_server server_fd c h ≡ some new =
              rw (insert_on_server, run') refl in
            let q : new ≡ h' = eq_of_some (sym done ∙ e) in
            subst Kept q (inr (inr (go b (valid, has))))
      ]

  inserts_on_client-Fine :
      (c : Connection) (h h' : Handshake)
      → h.client ≡ synchronized c
      → insert_on_client client_fd c h ≡ some h'
      → Kept h
      → Kept h'
  unfolding insert_on_client
  inserts_on_client-Fine c h h' p e f =
      elim (client_is id server_fd client_fd s ours theirs h (synchronized c) p (λ q. cc) f) [
        | inl gone ↦ inl (insert_on_client-server client_fd c h h' e ∙ gone)
        | inr at ↦
            let (same, there, go) =
              client-At id server_fd client_fd s ours theirs h.memory h.to_client h.to_server
                h.server_bridge h.client_bridge h.server c at in
            let (b, run, valid, has, _) =
              bridge_insert_lem w client_fd (record { connection = some (shared id) }) peer_in_table
                peer_free in
            let new : Handshake = record h { client = connected; client_bridge = b } in
            let run' : bridge_insert h.client_bridge client_fd (record { connection = some c })
                ≡ some b =
              ap (λ bridge. bridge_insert bridge client_fd (record { connection = some c })) there
              ∙ ap (λ c. bridge_insert theirs client_fd (record { connection = some c })) same
              ∙ run in
            let done : insert_on_client client_fd c h ≡ some new =
              rw (insert_on_client, run') refl in
            let q : new ≡ h' = eq_of_some (sym done ∙ e) in
            subst Kept q (inr (inr (go b (valid, has))))
      ]

  Step-Fine : {h h' : Handshake} → Steps h h' → Kept h → Kept h'
  unfolding send_segment_id_to_client synchronize_with_client read_segment_id_from_server
      synchronize_with_server
  Step-Fine {h} (creates answers h' p e) f = creates-Fine answers h h' p e f
  Step-Fine {h} (sends true c p) f =
      elim (server_is id server_fd client_fd s ours theirs h (sending c) p (λ q. cc) f) [
        | inl gone ↦ inr (inl gone)
        | inr at ↦ inr (
            inr (
              sends-At id server_fd client_fd s ours theirs h.memory h.to_client h.to_server
                h.server_bridge h.client_bridge c h.client at))
      ]
  Step-Fine {h} (sends false c p) f = inl refl
  Step-Fine {h} (receives_byte c p there) f =
      elim (server_is id server_fd client_fd s ours theirs h (waiting c) p (λ q. cc) f) [
        | inl gone ↦ inr (inl gone)
        | inr at ↦ inr (
            inr (
              byte-At id server_fd client_fd s ours theirs h.memory h.to_client h.to_server
                h.server_bridge h.client_bridge c h.client at there))
      ]
  Step-Fine {h} (receives_end c p gone) f = inr (inl gone)
  Step-Fine {h} (receives_error c p) f = inl refl
  Step-Fine {h} (inserts_on_server c h' p e) f = inserts_on_server-Fine c h h' p e f
  Step-Fine {h} (reads_id unset sent p there) f =
      elim (client_is id server_fd client_fd s ours theirs h reading p (λ q. cc) f) [
        | inl gone ↦ inl gone
        | inr at ↦
            let q : record h { client = joining sent; to_client = none }
                ≡ read_segment_id_from_server full unset h =
              ap
                (λ o. record h {
                  client = elim o [ none ↦ joining unset | some id ↦ joining id ];
                  to_client = none;
                })
                (sym there) in
            subst Kept q (
              inr (
                inr (
                  read-At id server_fd client_fd s ours theirs h.memory h.to_client h.to_server
                    h.server_bridge h.client_bridge h.server sent at there)))
      ]
  Step-Fine {h} (reads_end unset p gone) f = inl gone
  Step-Fine {h} (reads_error unset p) f = inr (inl refl)
  Step-Fine {h} (sets_up answers k h' p e) f = sets_up-Fine answers k h h' p e f
  Step-Fine {h} (synchronizes true c p) f =
      elim (client_is id server_fd client_fd s ours theirs h (joined c) p (λ q. cc) f) [
        | inl gone ↦ inl gone
        | inr at ↦ inr (
            inr (
              synchronizes-At id server_fd client_fd s ours theirs h.memory h.to_client h.to_server
                h.server_bridge h.client_bridge h.server c at))
      ]
  Step-Fine {h} (synchronizes false c p) f = inr (inl refl)
  Step-Fine {h} (inserts_on_client c h' p e) f = inserts_on_client-Fine c h h' p e f

  pub Reach-Fine :
      {h h' : Handshake}
      → Reach options id server_memory client_memory server_fd client_fd h h'
      → Kept h
      → Kept h'
  Reach-Fine here f = f
  Reach-Fine (next r st) f = Step-Fine st (Reach-Fine r f)
