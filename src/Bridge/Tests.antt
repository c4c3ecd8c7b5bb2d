-- ===== src/Bridge/Tests.antt =====
-- The bridge of source/tssx/bridge.c and the connections of source/tssx/connection.c run on small
-- inputs, and the theorems about them at such inputs.
use tssx.Base.{
  ℕ, ◌≡◌, refl, none, some, true, false, [], ◌∷◌, ◌==◌, if◌then◌else◌, Bool-cases, eq_of_some, inl,
  inr, arith, sym, ap,
}
use tssx.Buffer.{Buffer}
use tssx.Connection.{
  Connection, Memory, Segment, default_timeouts, disconnect, connection_add_user,
  connection_peer_died,
}
use tssx.Bridge.{Bridge, bridge_initializer, bridge_add_user, bridge_destroy, session_table_destroy}
use tssx.Bridge.Users.{uses_le}
use tssx.Bridge.Signals.{
  sigint, sig_dfl, bridge_signal_handler, user, Process, bridge_setup_handling, exits,
  handle_signal,
}
use tssx.Bridge.Ends.{handle_signal_lem}
use tssx.Bridge.Single.{single, single-connections, single-IsValid}
use tssx.Bridge.Fork.{Counted, fork-exit}

abbrev buffer : Buffer
buffer = record {
  size = 0;
  capacity = 2;
  timeouts = default_timeouts;
  read = 0;
  write = 0;
  bytes = 0 ∷ 0 ∷ [];
}

-- One segment, number 9, with two users.
abbrev segment : Segment
segment = record { open_count = 2; server_buffer = buffer; client_buffer = buffer }

abbrev memory : Memory
memory = λ id. if id == 9 then some segment else none

abbrev nine : Connection
nine = record { segment_id = some 9 }

peer_lives : connection_peer_died nine memory ≡ false
unfolding connection_peer_died
peer_lives = refl

last_leaves : (disconnect nine (disconnect nine memory).1).1 9 ≡ none
unfolding disconnect
last_leaves = refl

fork_adds : connection_add_user nine memory 9 ≡ some (record segment { open_count = 3 })
unfolding connection_add_user
fork_adds = refl

-- Descriptor 0 is connected to the segment.
abbrev used : Bridge
used = single nine

memory-Counted : Counted memory used.session_table
memory-Counted id s e =
    let u = uses_le id used.session_table in
    let two : s.open_count ≡ 2 = elim (Bool-cases (id == 9)) [
      | inl t ↦
          let p : some segment ≡ some s = rw t at e in sym (ap (λ s. s.open_count) (eq_of_some p))
      | inr t ↦ let p : none ≡ some s = rw t at e in absurd cc
    ] in
    (omega arith, omega (arith, two, u, single-connections nine))

fork-exit_example :
    (b' : Bridge) × (memory' : Memory) × (bridge_destroy
        (bridge_add_user used memory).0
        (bridge_add_user used memory).1
      ≡ some (b', memory'))
    × ((id : ℕ) → memory' id ≡ memory id)
fork-exit_example = fork-exit (single-IsValid nine) memory memory-Counted

-- A process whose SIGINT is the user's handler 4, which exits with 3.
abbrev before : Process
before = record {
  bridge = bridge_initializer;
  memory = memory;
  actions = λ _. user 4;
  old_handlers = λ _. sig_dfl;
  exit_handlers = 0;
}

handle_signal_lem_example :
    let gone = session_table_destroy used.session_table memory in
    (ready : Process) × (bridge_setup_handling (λ _. true) before ≡ some ready)
    × (ready.actions sigint ≡ bridge_signal_handler)
    × (handle_signal (λ _ _. some 3) 2 sigint (record ready { bridge = used; memory = memory })
        ≡ exits 3 gone.1)
handle_signal_lem_example =
    handle_signal_lem (λ _ _. some 3) before refl sigint (λ e. absurd cc) used memory refl 1
