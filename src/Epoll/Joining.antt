-- ===== src/Epoll/Joining.antt =====
-- What `_concurrent_epoll_wait` of source/tssx/epoll-overrides.c returns, in whatever order its threads run.
use tssx.Base.{
  ℕ, ◌+◌, ◌<◌, ◌≤◌, ◌≡◌, ◌≢◌, refl, sym, ap, ◌∙◌, eq_of_some, Bool, true, false, Bool-cases, Option,
  none, some, inl, inr, List, [], ◌∷◌, length, take, replicate, blit, ltb, ◌==◌, ◌&&◌,
  if◌then◌else◌, add_size, size_error, arith,
}
use tssx.Connection.{Side}
use tssx.Poll.{poll_timeout_elapsed}
use tssx.Poll.Threads.{Polled, failed, interrupted, ready, Polling, Reach, initial, Reach-sum}
use tssx.Epoll.{EpollEvent, EpollInstance}
use tssx.Epoll.Waiting.{
  Waited, SharedLook, TssxWaited, concurrent_tssx_epoll_wait, copy_over, check_epoll_entry,
  check_epoll_entries,
}
use tssx.Epoll.Waiting.Rounds.{copy_over_lem}
use tssx.Epoll.Concurrent.{normal_epoll_wait, EpollTask, blank, join_events, concurrent_epoll_wait}

-- A round that ends the wait, or goes on with the rest of it.
round-returned :
    (failed some_normal some_tssx late : Bool) (count : ℕ) (after : EpollInstance)
    (events : List EpollEvent) (rest : Option TssxWaited) (w : TssxWaited) (n : ℕ)
    → let result : ℕ → Waited =
        λ n. record { returned = n; instance_after = after; events_after = events } in
      (if failed
          then some (record { waited = result size_error; added = none; killed = false })
          else if some_normal
          then some (record { waited = result count; added = some count; killed = false })
          else if some_tssx
          then some (record { waited = result count; added = some count; killed = true })
          else if late
          then some (record { waited = result count; added = some count; killed = false })
          else rest)
        ≡ some w
      → (rest ≡ some w → w.waited.returned ≡ n)
      → w.added ≡ some n
      → w.waited.returned ≡ n
round-returned true _ _ _ count after events rest w n e later a =
    let p : none ≡ some n = ap (λ w. w.added) (eq_of_some e) ∙ a in absurd cc
round-returned false true _ _ count after events rest w n e later a =
    ap (λ w. w.waited.returned) (sym (eq_of_some e))
    ∙ eq_of_some (ap (λ w. w.added) (eq_of_some e) ∙ a)
round-returned false false true _ count after events rest w n e later a =
    ap (λ w. w.waited.returned) (sym (eq_of_some e))
    ∙ eq_of_some (ap (λ w. w.added) (eq_of_some e) ∙ a)
round-returned false false false true count after events rest w n e later a =
    ap (λ w. w.waited.returned) (sym (eq_of_some e))
    ∙ eq_of_some (ap (λ w. w.added) (eq_of_some e) ∙ a)
round-returned false false false false count after events rest w n e later a = later e

-- What the thread of connected descriptors adds is what it returns.
added-returned :
    (side : Side) (inst : EpollInstance) (events : List EpollEvent) (start timeout : ℕ)
    (looks : List SharedLook) (w : TssxWaited) (n : ℕ)
    → concurrent_tssx_epoll_wait side inst events start timeout looks ≡ some w
    → w.added ≡ some n
    → w.waited.returned ≡ n
unfolding concurrent_tssx_epoll_wait
added-returned side inst events start timeout [] w n e a = absurd cc
added-returned side inst events start timeout (shared ∷ looks) w n e a =
    let (activity, first, events₁) =
      check_epoll_entry side shared.look.view inst.first events (length events) 0 in
    let found : ℕ = if activity then 1 else 0 in
    let (entries, events₂, count) =
      if ltb found (length events) && ltb 1 inst.tssx_count
      then check_epoll_entries side shared.look.view (length events) inst.entries events₁ found
      else (inst.entries, events₁, found) in
    let after : EpollInstance = record inst { first = first; entries = entries } in
    round-returned (shared.shared_event_count == size_error) (ltb 0 shared.shared_event_count)
      (ltb 0 count) (poll_timeout_elapsed start shared.look.now timeout) count after events₂
      (concurrent_tssx_epoll_wait side after events₂ start timeout looks) w n e
      (λ e. added-returned side after events₂ start timeout looks w n e a) a

-- Where nothing is wrong, the thread of normal descriptors adds the count that it leaves.
event_count-added :
    (before : ℕ) (answer : Polled) (behind : ℕ)
    → let normal = normal_epoll_wait before answer behind in
      behind ≢ size_error → normal.stored_error ≡ false → normal.event_count ≡ normal.added
unfolding normal_epoll_wait
event_count-added before failed behind intact calm = ground arith
event_count-added before interrupted behind intact calm = ground arith
event_count-added before (ready n) behind intact calm = ground arith

module _ (side : Side) (inst : EpollInstance) (events : List EpollEvent) (start timeout : ℕ)
    (looks : List SharedLook) (w : TssxWaited)
    (run : concurrent_tssx_epoll_wait side inst
        (replicate (length events) blank)
        start
        timeout
        looks
      ≡ some w)
    (s : Polling) (reached : Reach initial s) (no_error : s.stored_error ≡ false)
    (added : w.added ≡ some s.tssx_added) (before : ℕ) (answer : Polled) (behind : ℕ)
    (intact : behind ≢ size_error)
    (calm : (normal_epoll_wait before answer behind).stored_error ≡ false)
    (normal_added : (normal_epoll_wait before answer behind).added ≡ s.normal_added) where
  -- Where the two threads of a wait, in any order of their steps, have ended without an error, and that
  -- of normal descriptors has found no more than the array has room for, the wait returns the sum of what
  -- the two have found, if that is not the number of an error: the array has the events of the thread of
  -- normal descriptors and behind them those of the other one, if there is room for both; if not, the wait
  -- writes behind its end.
  pub concurrent_epoll_wait_lem :
      s.normal_added ≤ length events
      → s.normal_added + s.tssx_added < size_error
      → let task : EpollTask = record {
        events = events;
        event_count = (normal_epoll_wait before answer behind).event_count;
        shared_event_count = s.event_count;
      } in
        let tssx_events = take s.tssx_added w.waited.events_after in
        concurrent_epoll_wait side inst task start timeout looks ≡ (
          if ltb (length events) (s.normal_added + length tssx_events)
          then none
          else some (record w.waited {
            returned = s.normal_added + s.tssx_added;
            events_after = blit events s.normal_added tssx_events;
          }))
  unfolding concurrent_epoll_wait join_events
  concurrent_epoll_wait_lem inside small =
      let left : (normal_epoll_wait before answer behind).event_count ≡ s.normal_added =
        event_count-added before answer behind intact calm ∙ normal_added in
      let returned =
        added-returned side inst (replicate (length events) blank) start timeout looks w
          s.tssx_added run added in
      let sum = Reach-sum s reached no_error in
      let exact : s.event_count ≡ s.normal_added + s.tssx_added = omega (arith, sum, small) in
      let fine : s.event_count == size_error ≡ false = ground (arith, exact, small) in
      let counts : add_size w.waited.returned s.normal_added == s.event_count ≡ true =
        ground (arith, exact, small, returned) in
      let task : EpollTask = record {
        events = events;
        event_count = (normal_epoll_wait before answer behind).event_count;
        shared_event_count = s.event_count;
      } in
      let tssx_events = take s.tssx_added w.waited.events_after in
      let copied = copy_over_lem events s.normal_added tssx_events inside in
      ap (λ o. elim o [ none ↦ none | some w ↦ join_events task w.waited ]) run
      ∙ ap (λ n. join_events (record task { event_count = n }) w.waited) left
      ∙ rw fine (
          ap
            (λ o. elim o [
              | none ↦ none
              | some events' ↦
                  if add_size w.waited.returned s.normal_added == s.event_count
                  then some (record w.waited { returned = s.event_count; events_after = events' })
                  else none
            ])
            (ap (λ n. copy_over events s.normal_added (take n w.waited.events_after)) returned
              ∙ copied)
          ∙ elim (Bool-cases (ltb (length events) (s.normal_added + length tssx_events))) [
            | inl t ↦ rw t refl
            | inr t ↦ rw (t, counts, exact) refl
          ])
