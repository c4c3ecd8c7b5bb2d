-- ===== src/Bridge/Ends.antt =====
-- What a signal does to a process with a bridge: source/tssx/bridge.c behind the set-up of its handlers.
use tssx.Base.{
  ℕ, zero, suc, ◌≡◌, ◌≢◌, refl, ap, ◌∙◌, true, false, Option, Option-cases, none, some, inl, inr,
  [], ◌∷◌, if◌then◌else◌,
}
use tssx.Connection.{Connection, Memory}
use tssx.Bridge.{
  SessionTable, Bridge, bridge_setup, bridge_destroy, session_table_destroy, session_invalidate,
}
use tssx.Bridge.Signals.{
  Signal, sigint, sigterm, sigabrt, Handler, sig_dfl, sig_ign, bridge_signal_handler, user, Process,
  same_signal, with_handler, setup_signal_handler, setup_exit_handling, bridge_setup_handling,
  returns, exits, crashes, bridge_exit_handlers, exit_process, handled, bridge_signal_handler_for,
  handle_signal,
}

session_invalidate-twice :
    (o : Option Connection) (memory memory' : Memory)
    → let once = (session_invalidate (record { connection = o }) memory).0 in
      session_invalidate once memory' ≡ (once, memory')
unfolding session_invalidate
session_invalidate-twice none memory memory' = refl
session_invalidate-twice (some c) memory memory' = refl

-- A destroyed table has nothing left to end.
session_table_destroy-twice :
    (table : SessionTable) (memory memory' : Memory)
    → let once = (session_table_destroy table memory).0 in
      session_table_destroy once memory' ≡ (once, memory')
unfolding session_table_destroy
session_table_destroy-twice [] memory memory' = refl
session_table_destroy-twice (s ∷ table) memory memory' =
    let (s', memory1) = session_invalidate s memory in
    let table' = (session_table_destroy table memory1).0 in
    ap (λ r. let (rest, last) = session_table_destroy table' r.1 in (r.0 ∷ rest, last))
      (session_invalidate-twice s.connection memory memory')
    ∙ ap (λ q. (s' ∷ q.0, q.1)) (session_table_destroy-twice table memory1 memory')

destroyed :
    (b : Bridge) (memory : Memory)
    → b.is_initialized ≡ true
    → let gone = session_table_destroy b.session_table memory in
      bridge_destroy b memory ≡ some (record b { session_table = gone.0 }, gone.1)
unfolding bridge_destroy
destroyed b memory e = rw e refl

-- However often the handler of exit is registered, the sessions are ended once.
bridge_exit_handlers_lem :
    (n : ℕ) (b : Bridge) (memory : Memory)
    → b.is_initialized ≡ true
    → let gone = session_table_destroy b.session_table memory in
      bridge_exit_handlers (suc n) b memory ≡ some (record b { session_table = gone.0 }, gone.1)
unfolding bridge_exit_handlers
bridge_exit_handlers_lem zero b memory e =
    ap (λ o. elim o [ none ↦ none | some (b', memory') ↦ some (b', memory') ])
      (destroyed b memory e)
bridge_exit_handlers_lem (suc n) b memory e =
    let gone = session_table_destroy b.session_table memory in
    ap (λ o. elim o [ none ↦ none | some (b', memory') ↦ bridge_exit_handlers (suc n) b' memory' ])
      (destroyed b memory e)
    ∙ bridge_exit_handlers_lem n (record b { session_table = gone.0 }) gone.1 e
    ∙ ap (λ q. some (record b { session_table = q.0 }, q.1))
        (session_table_destroy-twice b.session_table memory gone.1)

handled-exits :
    (signal : Signal) (status : ℕ) (memory : Memory)
    → handled signal (exits status memory) ≡ exits status memory
unfolding handled
handled-exits sigint status memory = refl
handled-exits sigterm status memory = refl
handled-exits sigabrt status memory = refl

-- The three handlers set up, one behind the other.
with_all : (Signal → Handler) → (Signal → Handler) → Signal → Handler
with_all ours theirs other =
    with_handler sigabrt (ours sigabrt)
      (with_handler sigterm (ours sigterm) (with_handler sigint (ours sigint) theirs)) other

with_all_lem :
    (ours theirs : Signal → Handler) (signal : Signal) → with_all ours theirs signal ≡ ours signal
unfolding with_all same_signal
with_all_lem ours theirs sigint = refl
with_all_lem ours theirs sigterm = refl
with_all_lem ours theirs sigabrt = refl

module _ (user_handler : ℕ → Signal → Option ℕ) (before : Process)
    (unused : before.bridge.is_initialized ≡ false) (signal : Signal)
    (foreign : before.actions signal ≢ bridge_signal_handler) (b : Bridge) (memory : Memory)
    (in_use : b.is_initialized ≡ true) (depth : ℕ) where
  abbrev gone : SessionTable × Memory
  gone = session_table_destroy b.session_table memory

  -- The process as the set-up leaves it.
  abbrev ready : Process
  ready = record {
    bridge = bridge_setup before.bridge;
    memory = before.memory;
    actions = with_all (λ _. bridge_signal_handler) before.actions;
    old_handlers = with_all before.actions before.old_handlers;
    exit_handlers = suc before.exit_handlers;
  }

  setup : bridge_setup_handling (λ _. true) before ≡ some ready
  unfolding bridge_setup_handling setup_exit_handling setup_signal_handler with_all same_signal
  setup = rw unused refl

  abbrev now : Process
  now = record ready { bridge = b; memory = memory }

  exit_process_lem : (status : ℕ) → exit_process status now ≡ exits status gone.1
  unfolding exit_process
  exit_process_lem status =
      ap (λ o. elim o [ none ↦ crashes | some (_, memory) ↦ exits status memory ])
        (bridge_exit_handlers_lem before.exit_handlers b memory in_use)

  abbrev ended : Process
  ended = record now { bridge = record b { session_table = gone.0 }; memory = gone.1 }

  handled-returns :
      (signal : Signal)
      → handled signal (returns now) ≡ returns (if same_signal signal sigabrt then ended else now)
  unfolding handled same_signal
  handled-returns sigint = refl
  handled-returns sigterm = refl
  handled-returns sigabrt =
      ap
        (λ o. elim o [
          | none ↦ crashes
          | some (b, memory) ↦ returns (record now { bridge = b; memory = memory })
        ])
        (destroyed b memory in_use)

  by_handler :
      (h : Handler)
      → h ≢ bridge_signal_handler
      → bridge_signal_handler_for user_handler (suc depth) signal h now ≡ elim h [
        | sig_dfl ↦ exits 1 gone.1
        | sig_ign ↦ crashes
        | bridge_signal_handler ↦ crashes
        | user n ↦ elim (user_handler n signal) [
          | some status ↦ exits status gone.1
          | none ↦ returns (if same_signal signal sigabrt then ended else now)
        ]
      ]
  unfolding bridge_signal_handler_for
  by_handler sig_dfl d = ap (handled signal) (exit_process_lem 1) ∙ handled-exits signal 1 gone.1
  by_handler sig_ign d = refl
  by_handler bridge_signal_handler d = absurd (d refl)
  by_handler (user n) d = elim (Option-cases (user_handler n signal)) [
    | inl e ↦ rw e (handled-returns signal)
    | inr (status, e) ↦
        rw e (ap (handled signal) (exit_process_lem status) ∙ handled-exits signal status gone.1)
  ]

  -- Behind the set-up of the handlers, with a bridge in use, a signal does what the action before it
  -- says, once: where that was the default, or a user's handler that exits, the process exits with every
  -- session ended; where it was a user's handler that returns, nothing has changed, but for SIGABRT,
  -- behind which every session is ended; where the signal was ignored, the process crashes.
  pub handle_signal_lem :
      let gone = session_table_destroy b.session_table memory in
      (ready : Process) × (bridge_setup_handling (λ _. true) before ≡ some ready)
      × (ready.actions signal ≡ bridge_signal_handler)
      × (let now : Process = record ready { bridge = b; memory = memory } in
          let ended : Process = record now {
            bridge = record b { session_table = gone.0 };
            memory = gone.1;
          } in
          handle_signal user_handler (suc depth) signal now ≡ elim (before.actions signal) [
            | sig_dfl ↦ exits 1 gone.1
            | sig_ign ↦ crashes
            | bridge_signal_handler ↦ crashes
            | user n ↦ elim (user_handler n signal) [
              | some status ↦ exits status gone.1
              | none ↦ returns (if same_signal signal sigabrt then ended else now)
            ]
          ])
  unfolding handle_signal
  handle_signal_lem =
      let old = with_all_lem before.actions before.old_handlers signal in
      (
        ready,
        setup,
        with_all_lem (λ _. bridge_signal_handler) before.actions signal,
        ap (λ h. bridge_signal_handler_for user_handler (suc depth) signal h now) old
            ∙ by_handler (before.actions signal) foreign,
      )
