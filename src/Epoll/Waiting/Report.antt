-- ===== src/Epoll/Waiting/Report.antt =====
-- What a scan of the entries of source/tssx/epoll-overrides.c reports.
use native.Mathlib.Decide.{dec_lt}
use tssx.Base.{
  ℕ, zero, suc, ◌+◌, ◌-◌, ◌≤◌, ◌<◌, ◌≡◌, refl, sym, ap, ◌∙◌, Bool, true, false, not, Bool-cases,
  inl, inr, some, List, [], ◌∷◌, ◌++◌, get_elem?, set, length, take, ◌==◌, ◌&&◌, ◌||◌,
  if◌then◌else◌, length-set, take-set, append-nil, append_assoc, arith,
}
use tssx.Buffer.{Operation, read, write}
use tssx.Connection.{Segment, Side}
use tssx.Overrides.{ready_for}
use tssx.Poll.{View, entry_peer_died}
use tssx.Epoll.{EpollEvents, EpollEvent, EpollEntry}
use tssx.Epoll.Waiting.{
  is_edge_triggered, is_level_triggered, is_oneshot, is_edge_for, flags_and_is_read, set_poll_edge,
  clear_poll_edge, disable_poll_entry, epoll_operation_registered, add_operation, check_epoll_event,
  notify_of_epoll_hangup, check_entry_activity, check_epoll_entry, check_epoll_entries,
}

-- An operation that an entry with a living peer reports: one that it is registered and ready for, unless
-- it is edge-triggered.
abbrev pub operation_reported : Side → Segment → EpollEntry → Operation → Bool
operation_reported side s entry operation =
    epoll_operation_registered entry operation
    && ready_for side s operation
    && not entry.event.events.epollet

-- The flags that an entry reports.
unfoldable pub flags_reported : Side → Segment → EpollEntry → EpollEvents
flags_reported side s entry =
    let dead = entry_peer_died s in
    record {
      epollin = dead || operation_reported side s entry read;
      epollout = not dead && operation_reported side s entry write;
      epollrdhup = dead && entry.event.events.epollrdhup;
      epollhup = dead;
      epollet = false;
      epolloneshot = false;
    }

-- An enabled entry reports a dead peer, and otherwise its operations.
unfoldable pub is_active : Side → Segment → EpollEntry → Bool
is_active side s entry =
    entry_peer_died s
    || operation_reported side s entry read
    || operation_reported side s entry write

unfoldable pub event_reported : Side → Segment → EpollEntry → EpollEvent
event_reported side s entry = record {
  events = flags_reported side s entry;
  user_data = entry.event.user_data;
}

-- The events that entries report, in their order.
unfoldable pub reports : Side → View → List EpollEntry → List EpollEvent
reports side view [] = []
reports side view (entry ∷ entries) =
    let rest = reports side view entries in
    let s = view entry.connection in
    if entry.enabled && is_active side s entry then event_reported side s entry ∷ rest else rest

-- What the checks of one entry put out.
activity_lem :
    (side : Side) (s : Segment) (entry : EpollEntry)
    → let (activity, entry', output) = check_entry_activity side s entry in
      (activity ≡ is_active side s entry) × (output ≡ flags_reported side s entry)
unfolding is_active flags_reported is_edge_for flags_and_is_read check_entry_activity
    check_epoll_event notify_of_epoll_hangup is_level_triggered is_edge_triggered is_oneshot
    set_poll_edge clear_poll_edge disable_poll_entry epoll_operation_registered add_operation
activity_lem side s entry = ground arith

-- A write leaves what stands before it.
take-set_before {ℓ} : {A : Type ℓ} (xs : List A) (i : ℕ) (x : A) → take i (set xs i x) ≡ take i xs
take-set_before [] zero x = refl
take-set_before [] (suc i) x = refl
take-set_before (y ∷ xs) zero x = refl
take-set_before (y ∷ xs) (suc i) x = ap (λ l. y ∷ l) (take-set_before xs i x)

get_elem?-some {ℓ} :
    {A : Type ℓ} (xs : List A) (i : ℕ) → i < length xs → (x : A) × (get_elem? xs i ≡ some x)
get_elem?-some [] i h = absurd (omega arith)
get_elem?-some (x ∷ xs) zero h = (x, refl)
get_elem?-some (x ∷ xs) (suc i) h = get_elem?-some xs i (omega arith)

take-nil {ℓ} : {A : Type ℓ} (n : ℕ) → take {A = A} n [] ≡ []
take-nil zero = refl
take-nil (suc n) = refl

module _ (side : Side) (view : View) (number_of_events : ℕ) where
  -- A check where the array has room.
  entry_lem :
      (entry : EpollEntry) (events : List EpollEvent) (count : ℕ)
      → length events ≡ number_of_events
      → count < number_of_events
      → let (activity, entry', events') =
          check_epoll_entry side view entry events number_of_events count in
        let s = view entry.connection in
        let active = entry.enabled && is_active side s entry in
        (activity ≡ active)
        × (length events' ≡ number_of_events)
        × (take (if active then suc count else count) events' ≡ (
            if active
            then take count events ++ (event_reported side s entry ∷ [])
            else take count events))
  unfolding check_epoll_entry event_reported
  entry_lem entry events count full room =
      let s = view entry.connection in
      let (old, there) = get_elem?-some events count (omega (arith, full)) in
      let not_full : count == number_of_events ≡ false = ground arith in
      let (active, flags) = activity_lem side s entry in
      elim (Bool-cases entry.enabled) [
        | inl t ↦ elim (Bool-cases (is_active side s entry)) [
          | inl y ↦
              simp (not_full, t, there, active, flags, y)
                (
                  refl,
                  length-set events count _ ∙ full,
                  take-set count events _ (omega (arith, full)),
                )
          | inr y ↦
              simp (not_full, t, there, active, flags, y)
                (refl, length-set events count _ ∙ full, take-set_before events count _)
        ]
        | inr f ↦ simp (not_full, f) (refl, full, refl)
      ]

  -- A check at the end of the array.
  full_lem :
      (entry : EpollEntry) (events : List EpollEvent) (count : ℕ)
      → count ≡ number_of_events
      → check_epoll_entry side view entry events number_of_events count ≡ (false, entry, events)
  unfolding check_epoll_entry
  full_lem entry events count e =
      let full : count == number_of_events ≡ true = ground arith in rw full refl

  -- A scan of entries puts the events that they report, in their order, behind those that are in
  -- the array, as many as there is room for.
  pub scan_lem :
      (entries : List EpollEntry) (events : List EpollEvent) (count : ℕ)
      → length events ≡ number_of_events
      → count ≤ number_of_events
      → let (entries', events', n) =
          check_epoll_entries side view number_of_events entries events count in
        let new = take (number_of_events - count) (reports side view entries) in
        (n ≡ count + length new)
        × (length events' ≡ number_of_events)
        × (take n events' ≡ take count events ++ new)
  unfolding check_epoll_entries reports
  scan_lem [] events count full room =
      let none_left : take {A = EpollEvent} (number_of_events - count) [] ≡ [] =
        take-nil (number_of_events - count) in
      rw none_left (omega arith, full, sym (append-nil _))
  scan_lem (entry ∷ entries) events count full room =
      let s = view entry.connection in
      let active : Bool = entry.enabled && is_active side s entry in
      elim (dec_lt count number_of_events) [
        | yes less ↦
            let (same, full', put) = entry_lem entry events count full less in
            let events' = (check_epoll_entry side view entry events number_of_events count).2 in
            elim (Bool-cases active) [
              | inl y ↦
                  let left : number_of_events - count ≡ suc (number_of_events - suc count) =
                    omega arith in
                  let (counted, kept, rest) = scan_lem entries events' (suc count) full' less in
                  let here : take (suc count) events'
                      ≡ take count events ++ (event_reported side s entry ∷ []) =
                    rw y at put in
                  simp (same, y, left)
                    (
                      omega (arith, counted),
                      kept,
                      rest
                          ∙ rw here (
                              append_assoc (take count events) (event_reported side s entry ∷ [])
                                (take (number_of_events - suc count) (reports side view entries))),
                    )
              | inr n ↦
                  let (counted, kept, rest) = scan_lem entries events' count full' room in
                  let here : take count events' ≡ take count events = rw n at put in
                  simp (same, n) (counted, kept, rest ∙ rw here refl)
            ]
        | no more ↦
            let (counted, kept, rest) = scan_lem entries events count full room in
            let none_left : number_of_events - count ≡ 0 = omega (arith, more) in
            let counted_here : (check_epoll_entries side view number_of_events entries events
                  count).2
                ≡ count + 0 =
              rw none_left at counted in
            let rest_here : take
                  (check_epoll_entries side view number_of_events entries events count).2
                  (check_epoll_entries side view number_of_events entries events count).1
                ≡ take count events ++ [] =
              rw none_left at rest in
            let at_end : count ≡ number_of_events = omega (arith, more, room) in
            simp (full_lem entry events count at_end, none_left)
              (omega (arith, counted_here), kept, rest_here)
      ]
