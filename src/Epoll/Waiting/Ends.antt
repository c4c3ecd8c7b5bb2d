-- ===== src/Epoll/Waiting/Ends.antt =====
-- The end of the waits of source/tssx/epoll-overrides.c.
use tssx.Base.{
  ℕ, ◌≤◌, ◌<◌, ◌≡◌, refl, true, Bool-cases, inl, inr, some, List, [], ◌∷◌, ◌++◌, length, ltb, ◌==◌,
  if◌then◌else◌, length-take, arith,
}
use tssx.Connection.{Side}
use tssx.Poll.{Look, poll_timeout_elapsed}
use tssx.Epoll.{EpollEvent, EpollInstance}
use tssx.Epoll.Waiting.{
  check_epoll_entry, check_epoll_entries, Waited, tssx_epoll_wait_for_single_entry,
  wait_for_entries, simple_tssx_epoll_wait,
}
use tssx.Epoll.Waiting.Report.{reports}
use tssx.Epoll.Waiting.Rounds.{scanned}

module _ (side : Side) (start timeout : ℕ) (look : Look) (after : List Look)
    (over : poll_timeout_elapsed start look.now timeout ≡ true) where
  single-ends :
      (inst : EpollInstance) (events : List EpollEvent) (before : List Look)
      → (w : Waited) × (tssx_epoll_wait_for_single_entry side inst events start timeout
            (before ++ (look ∷ after))
          ≡ some w)
        × (w.returned ≤ length events)
  unfolding tssx_epoll_wait_for_single_entry check_epoll_entries
  single-ends inst events [] =
      elim (Bool-cases (check_epoll_entry side look.view inst.first events (length events) 0).0) [
        | inl t ↦ rw (t) (_, refl, omega arith)
        | inr t ↦ rw (t, over) (_, refl, omega arith)
      ]
  single-ends inst events (l ∷ before) =
      let check = check_epoll_entry side l.view inst.first events (length events) 0 in
      let (w, e, small) = single-ends (record inst { first = check.1 }) check.2 before in
      let (_, kept, _) = scanned side inst events start timeout l [] (inst.first ∷ []) in
      elim (Bool-cases check.0) [
        | inl t ↦ rw t (_, refl, omega arith)
        | inr t ↦ elim (Bool-cases (poll_timeout_elapsed start l.now timeout)) [
          | inl y ↦ rw (t, y) (_, refl, omega arith)
          | inr n ↦ rw (t, n) (w, e, (omega (arith, small, kept)))
        ]
      ]

  several-ends :
      (inst : EpollInstance) (events : List EpollEvent) (before : List Look)
      → (w : Waited) × (wait_for_entries side inst events start timeout (before ++ (look ∷ after))
          ≡ some w)
        × (w.returned ≤ length events)
  unfolding wait_for_entries check_epoll_entries
  several-ends inst events [] =
      let (count, _, _) =
        scanned side inst events start timeout look [] (inst.first ∷ inst.entries) in
      let most = length-take (length events) (reports side look.view (inst.first ∷ inst.entries)) in
      let scan =
        check_epoll_entries side look.view (length events) (inst.first ∷ inst.entries) events 0 in
      elim (Bool-cases (ltb 0 scan.2)) [
        | inl t ↦ rw t (_, refl, omega (arith, count, most))
        | inr t ↦ rw (t, over) (_, refl, omega (arith, count, most))
      ]
  several-ends inst events (l ∷ before) =
      let (count, kept, _) =
        scanned side inst events start timeout l [] (inst.first ∷ inst.entries) in
      let most = length-take (length events) (reports side l.view (inst.first ∷ inst.entries)) in
      let check = check_epoll_entry side l.view inst.first events (length events) 0 in
      let scan =
        check_epoll_entries side l.view (length events) inst.entries check.2
          (if check.0 then 1 else 0) in
      let (w, e, small) =
        several-ends (record inst { first = check.1; entries = scan.0 }) scan.1 before in
      elim (Bool-cases (ltb 0 scan.2)) [
        | inl t ↦ rw t (_, refl, omega (arith, count, most))
        | inr t ↦ elim (Bool-cases (poll_timeout_elapsed start l.now timeout)) [
          | inl y ↦ rw (t, y) (_, refl, omega (arith, count, most))
          | inr n ↦ rw (t, n) (w, e, omega (arith, small, kept))
        ]
      ]

-- A wait on an instance with a connected descriptor returns no later than behind the first round that finds the time over,
-- whatever the rounds before it find, and what it returns is at most the size of the array.
pub epoll_wait-ends :
    (side : Side) (inst : EpollInstance) (events : List EpollEvent) (start timeout : ℕ)
    (before : List Look) (look : Look) (after : List Look)
    → 0 < inst.tssx_count
    → poll_timeout_elapsed start look.now timeout ≡ true
    → (w : Waited) × (simple_tssx_epoll_wait side inst events start timeout
          (before ++ (look ∷ after))
        ≡ some w)
      × (w.returned ≤ length events)
unfolding simple_tssx_epoll_wait
epoll_wait-ends side inst events start timeout before look after pos over =
    let some_there : ltb 0 inst.tssx_count ≡ true = ground arith in
    rw some_there (elim (Bool-cases (inst.tssx_count == 1)) [
      | inl t ↦ rw t (single-ends side start timeout look after over inst events before)
      | inr f ↦ rw f (several-ends side start timeout look after over inst events before)
    ])
