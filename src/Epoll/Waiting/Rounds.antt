-- ===== src/Epoll/Waiting/Rounds.antt =====
-- What the waits of source/tssx/epoll-overrides.c come to, and the copy of the concurrent wait.
use native.Mathlib.Decide.{dec_lt}
use tssx.Base.{
  ℕ, zero, suc, ◌+◌, ◌-◌, ◌≤◌, ◌<◌, ◌≡◌, refl, sym, ap, ◌∙◌, true, false, Bool-cases, inl, inr, ◌⊎◌,
  none, some, List, [], ◌∷◌, set, length, take, blit, ltb, ◌==◌, if◌then◌else◌, length-set, arith,
}
use tssx.Connection.{Side}
use tssx.Poll.{Look, poll_timeout_elapsed}
use tssx.Epoll.{EpollEvent, EpollEntry, EpollInstance}
use tssx.Epoll.Waiting.{
  check_epoll_entry, check_epoll_entries, Waited, tssx_epoll_wait_for_single_entry,
  wait_for_entries, simple_tssx_epoll_wait, copy_over,
}
use tssx.Epoll.Waiting.Report.{reports, scan_lem}

-- The entries of an instance that a wait checks.
abbrev pub waited_for : EpollInstance → List EpollEntry
waited_for inst = if inst.tssx_count == 1 then inst.first ∷ [] else inst.first ∷ inst.entries

-- The events that a round of a wait puts into the array.
abbrev pub found : Side → Look → EpollInstance → List EpollEvent → List EpollEvent
found side look inst events = take (length events) (reports side look.view (waited_for inst))

module _ (side : Side) (inst : EpollInstance) (events : List EpollEvent) (start timeout : ℕ)
    (look : Look) (looks : List Look) where
  -- What a round over entries leaves.
  pub scanned :
      (entries : List EpollEntry)
      → let (entries', events', n) =
          check_epoll_entries side look.view (length events) entries events 0 in
        let new = take (length events) (reports side look.view entries) in
        (n ≡ length new) × (length events' ≡ length events) × (take (length new) events' ≡ new)
  scanned entries =
      let (counted, kept, placed) =
        scan_lem side look.view (length events) entries events 0 refl (omega arith) in
      let whole : length events - 0 ≡ length events = omega arith in
      let count : (check_epoll_entries side look.view (length events) entries events 0).2
          ≡ length (take (length events) (reports side look.view entries)) =
        omega (arith, counted, ap (λ k. length (take k (reports side look.view entries))) whole) in
      (
        count,
        kept,
        ap (λ k. take k (check_epoll_entries side look.view (length events) entries events 0).1)
              (sym count)
            ∙ placed
            ∙ ap (λ k. take k (reports side look.view entries)) whole,
      )

  single :
      (0 < length (take (length events) (reports side look.view (inst.first ∷ []))))
        ⊎ (poll_timeout_elapsed start look.now timeout ≡ true)
      → let (activity, first, events') =
          check_epoll_entry side look.view inst.first events (length events) 0 in
        tssx_epoll_wait_for_single_entry side inst events start timeout (look ∷ looks)
        ≡ some (record {
          returned = 0;
          instance_after = record inst { first = first };
          events_after = events';
        })
  unfolding tssx_epoll_wait_for_single_entry check_epoll_entries
  single (inl more) =
      let (count, _, _) = scanned (inst.first ∷ []) in
      let active : (check_epoll_entry side look.view inst.first events (length events) 0).0 ≡ true =
        ground (arith, count) in
      rw active refl
  single (inr over) = ground arith

  several :
      (0 < length (take (length events) (reports side look.view (inst.first ∷ inst.entries))))
        ⊎ (poll_timeout_elapsed start look.now timeout ≡ true)
      → let (activity, first, events₁) =
          check_epoll_entry side look.view inst.first events (length events) 0 in
        let (entries, events₂, count) =
          check_epoll_entries side look.view
            (length events)
            inst.entries
            events₁
            (if activity then 1 else 0) in
        wait_for_entries side inst events start timeout (look ∷ looks)
        ≡ some (record {
          returned = count;
          instance_after = record inst { first = first; entries = entries };
          events_after = events₂;
        })
  unfolding wait_for_entries check_epoll_entries
  several (inl more) =
      let (count, _, _) = scanned (inst.first ∷ inst.entries) in ground (arith, count)
  several (inr over) = ground arith

-- On an instance with a connected descriptor, a round in which an entry has something to report, or behind which the time is over, ends the wait. The
-- array then begins with the events of the entries that are enabled and have one, in their order, as many as
-- there is room for: the hangup of a dead peer, or the operations that a level-triggered
-- entry is registered and its connection ready for. Of a living peer an edge-triggered entry
-- reports nothing. The wait returns their number, and 0 whatever it found where the instance has one entry.
pub epoll_wait_lem :
    (side : Side) (inst : EpollInstance) (events : List EpollEvent) (start timeout : ℕ)
    (look : Look) (looks : List Look)
    → 0 < inst.tssx_count
    → (0 < length (found side look inst events))
      ⊎ (poll_timeout_elapsed start look.now timeout ≡ true)
    → (w : Waited) × (simple_tssx_epoll_wait side inst events start timeout (look ∷ looks) ≡ some w)
      × (w.returned ≡ (if inst.tssx_count == 1 then 0 else length (found side look inst events)))
      × (take (length (found side look inst events)) w.events_after ≡ found side look inst events)
      × (length w.events_after ≡ length events)
unfolding simple_tssx_epoll_wait tssx_epoll_wait_for_single_entry wait_for_entries
    check_epoll_entries
epoll_wait_lem side inst events start timeout look looks pos ends =
    let some_there : ltb 0 inst.tssx_count ≡ true = ground arith in
    rw some_there (elim (Bool-cases (inst.tssx_count == 1)) [
      | inl t ↦
          let (count, kept, placed) =
            scanned side inst events start timeout look looks (inst.first ∷ []) in
          simp t
            (_, single side inst events start timeout look looks (rw t at ends), refl, placed, kept)
      | inr f ↦
          let (count, kept, placed) =
            scanned side inst events start timeout look looks (inst.first ∷ inst.entries) in
          simp f (
            _,
            several side inst events start timeout look looks (rw f at ends),
            count,
            placed,
            kept,
          )
    ])

blit-nil : (events : List EpollEvent) (index : ℕ) → blit events index [] ≡ events
unfolding blit
blit-nil [] index = refl
blit-nil (e ∷ events) zero = refl
blit-nil (e ∷ events) (suc index) = ap (λ l. e ∷ l) (blit-nil events index)

blit-set :
    (events : List EpollEvent) (index : ℕ) (event : EpollEvent) (more : List EpollEvent)
    → index < length events
    → blit (set events index event) (suc index) more ≡ blit events index (event ∷ more)
unfolding blit
blit-set [] index event more h = absurd (omega arith)
blit-set (e ∷ events) zero event more h = refl
blit-set (e ∷ events) (suc index) event more h =
    ap (λ l. e ∷ l) (blit-set events index event more (omega arith))

-- Behind the `index` events of the other thread, the copy of the concurrent wait puts its events into the
-- array, where there is room for the events of both; where there is not, it writes behind the end of
-- the array.
pub copy_over_lem :
    (events : List EpollEvent) (index : ℕ) (tssx_events : List EpollEvent)
    → index ≤ length events
    → copy_over events index tssx_events ≡ (
        if ltb (length events) (index + length tssx_events)
        then none
        else some (blit events index tssx_events))
unfolding copy_over
copy_over_lem events index [] inside =
    let room : ltb (length events) (index + 0) ≡ false = ground arith in
    rw (room, blit-nil events index) refl
copy_over_lem events index (event ∷ tssx_events) inside = elim (dec_lt index (length events)) [
  | yes less ↦
      let size = length-set events index event in
      let here : ltb index (length events) ≡ true = ground arith in
      let more : suc index + length tssx_events ≡ index + suc (length tssx_events) = omega arith in
      rw
        (
          here,
          copy_over_lem (set events index event) (suc index) tssx_events (omega (arith, size)),
          size,
          more,
          blit-set events index event tssx_events less,
        )
        refl
  | no none_left ↦
      let here : ltb index (length events) ≡ false = ground arith in
      let over : ltb (length events) (index + suc (length tssx_events)) ≡ true = ground arith in
      rw (here, over) refl
]
