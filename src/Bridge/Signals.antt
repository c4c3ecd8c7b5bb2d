-- ===== src/Bridge/Signals.antt =====
-- How a process with a bridge ends: the handlers of signals and of exit in source/tssx/bridge.c. A
-- handler of the user returns or ends the process, and leaves the bridge alone; what it does is an
-- argument, by the handler's number. `_bridge_signal_handler` is set for three signals only.
use tssx.Base.{ℕ, zero, suc, ◌>>=◌, Bool, true, false, Option, none, some, if◌then◌else◌}
use tssx.Connection.{Memory}
use tssx.Bridge.{Bridge, bridge_setup, bridge_destroy}

pub data Signal : Type 0 where
  sigint sigterm sigabrt : Signal

-- SIG_DFL, which is NULL; SIG_IGN, which is 1; the function of this file; one of the user's.
pub data Handler : Type 0 where
  sig_dfl sig_ign bridge_signal_handler : Handler
  user : ℕ → Handler

-- `old_handlers` are `old_sigint_handler`, `old_sigterm_handler` and `old_sigabrt_handler`, and
-- `exit_handlers` says how often `_bridge_exit_handler` is registered.
pub record Process : Type 0 where
  pub bridge : Bridge
  pub memory : Memory
  pub actions : Signal → Handler
  pub old_handlers : Signal → Handler
  pub exit_handlers : ℕ

unfoldable pub same_signal : Signal → Signal → Bool
same_signal sigint sigint = true
same_signal sigterm sigterm = true
same_signal sigabrt sigabrt = true
same_signal _ _ = false

abbrev pub with_handler : Signal → Handler → (Signal → Handler) → Signal → Handler
with_handler signal handler f other = if same_signal signal other then handler else f other

-- `sigaction` answers or not; where it does not, `throw` ends the process.
unfoldable pub setup_signal_handler : Bool → Signal → Process → Option Process
setup_signal_handler false signal p = none
setup_signal_handler true signal p = some (record p {
  actions = with_handler signal bridge_signal_handler p.actions;
  old_handlers = with_handler signal (p.actions signal) p.old_handlers;
})

unfoldable pub setup_exit_handling : (Signal → Bool) → Process → Option Process
setup_exit_handling answers p = do
  p1 ← setup_signal_handler (answers sigint) sigint p
  p2 ← setup_signal_handler (answers sigterm) sigterm p1
  p3 ← setup_signal_handler (answers sigabrt) sigabrt p2
  some (record p3 { exit_handlers = suc p3.exit_handlers })

-- `bridge_setup` with the set-up of the handlers, none where its `assert` fails.
unfoldable pub bridge_setup_handling : (Signal → Bool) → Process → Option Process
bridge_setup_handling answers p = if p.bridge.is_initialized then none else (do
  p' ← setup_exit_handling answers p
  some (record p' { bridge = bridge_setup p'.bridge }))

-- A handler returns, the process exits, or a call goes where no function is.
pub data Outcome : Type 0 where
  returns : Process → Outcome
  exits : ℕ → Memory → Outcome
  crashes : Outcome

-- `_bridge_exit_handler`, as often as it is registered.
unfoldable pub bridge_exit_handlers : ℕ → Bridge → Memory → Option (Bridge × Memory)
bridge_exit_handlers zero b memory = some (b, memory)
bridge_exit_handlers (suc n) b memory = elim (bridge_destroy b memory) [
  | none ↦ none
  | some (b', memory') ↦ bridge_exit_handlers n b' memory'
]

unfoldable pub exit_process : ℕ → Process → Outcome
exit_process status p = elim (bridge_exit_handlers p.exit_handlers p.bridge p.memory) [
  | none ↦ crashes
  | some (_, memory) ↦ exits status memory
]

-- The end of `_bridge_signal_handler_for`.
unfoldable pub handled : Signal → Outcome → Outcome
handled sigabrt (returns p) = elim (bridge_destroy p.bridge p.memory) [
  | none ↦ crashes
  | some (b, memory) ↦ returns (record p { bridge = b; memory = memory })
]
handled _ outcome = outcome

module _ (user_handler : ℕ → Signal → Option ℕ) where
  -- The calls of `_bridge_signal_handler` nest where the old handler is that function itself; `depth` is
  -- how many of them the stack has room for. EXIT_FAILURE is 1.
  unfoldable pub bridge_signal_handler_for : ℕ → Signal → Handler → Process → Outcome
  bridge_signal_handler_for zero signal old_handler p = crashes
  bridge_signal_handler_for (suc depth) signal sig_dfl p = handled signal (exit_process 1 p)
  bridge_signal_handler_for (suc depth) signal sig_ign p = crashes
  bridge_signal_handler_for (suc depth) signal bridge_signal_handler p =
      handled signal (bridge_signal_handler_for depth signal (p.old_handlers signal) p)
  bridge_signal_handler_for (suc depth) signal (user n) p =
      handled signal
        (elim (user_handler n signal) [ none ↦ returns p | some status ↦ exit_process status p ])

  -- `_bridge_signal_handler`
  unfoldable pub handle_signal : ℕ → Signal → Process → Outcome
  handle_signal depth signal p = bridge_signal_handler_for depth signal (p.old_handlers signal) p
