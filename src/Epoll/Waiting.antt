-- ===== src/Epoll/Waiting.antt =====
-- The waits of source/tssx/epoll-overrides.c on connected descriptors: `_check_epoll_entry` with what it
-- calls, the loops over an instance, and `epoll_wait`, which chooses between them. The array of the
-- caller is a list, whose length `number_of_events` is.
pub mod Report
pub mod Rounds
pub mod Ends
use tssx.Base.{
  ℕ, zero, suc, ◌+◌, Bool, true, false, not, Option, none, some, List, [], ◌∷◌, get_elem?, set,
  length, ltb, leb, ◌==◌, ◌&&◌, ◌||◌, if◌then◌else◌, size_error,
}
use tssx.Buffer.{Operation, read, write}
use tssx.Connection.{Segment, Side}
use tssx.Overrides.{ready_for}
use tssx.Poll.{View, Look, poll_timeout_elapsed, entry_peer_died}
use tssx.Epoll.{
  EpollEvents, no_epoll_events, EpollEvent, EpollEntry, EpollInstance, EpollStatus, success, error,
}

unfoldable pub is_edge_triggered : EpollEntry → Bool
is_edge_triggered entry = entry.event.events.epollet

unfoldable pub is_level_triggered : EpollEntry → Bool
is_level_triggered entry = not (is_edge_triggered entry)

unfoldable pub is_oneshot : EpollEntry → Bool
is_oneshot entry = entry.event.events.epolloneshot

-- READ_EDGE and WRITE_EDGE
abbrev pub edge_of : Operation → ℕ
edge_of read = 2
edge_of write = 4

-- `operation == READ`, as an `int`, and its bit in the flags, which is that of ENABLED.
unfoldable pub flags_and_is_read : EpollEntry → Operation → Bool
flags_and_is_read entry read = entry.enabled
flags_and_is_read entry write = false

-- `&` binds tighter than `?:`, so that the test chooses an edge, which is negated.
unfoldable pub is_edge_for : EpollEntry → Operation → Bool
is_edge_for entry operation =
    (if flags_and_is_read entry operation then edge_of read else edge_of write) == 0

unfoldable pub set_poll_edge : EpollEntry → Operation → EpollEntry
set_poll_edge entry read = record entry { read_edge = true }
set_poll_edge entry write = record entry { write_edge = true }

unfoldable pub clear_poll_edge : EpollEntry → Operation → EpollEntry
clear_poll_edge entry read = record entry { read_edge = false }
clear_poll_edge entry write = record entry { write_edge = false }

unfoldable pub disable_poll_entry : EpollEntry → EpollEntry
disable_poll_entry entry = record entry { enabled = false }

unfoldable pub epoll_operation_registered : EpollEntry → Operation → Bool
epoll_operation_registered entry read = entry.event.events.epollin
epoll_operation_registered entry write = entry.event.events.epollout

-- `output_event->events |= _epoll_operation_map[operation]`
unfoldable pub add_operation : EpollEvents → Operation → EpollEvents
add_operation output read = record output { epollin = true }
add_operation output write = record output { epollout = true }

unfoldable pub check_epoll_event :
    Side → Segment → EpollEntry → EpollEvents → Operation → Bool × EpollEntry × EpollEvents
check_epoll_event side s entry output operation =
    if epoll_operation_registered entry operation
    then if ready_for side s operation
      then if is_level_triggered entry || is_edge_for entry operation
        then (let edged = set_poll_edge entry operation in
            (
              true,
              if is_oneshot edged then disable_poll_entry edged else edged,
              add_operation output operation,
            ))
        else (false, entry, output)
      else (false, clear_poll_edge entry operation, output)
    else (false, entry, output)

unfoldable pub notify_of_epoll_hangup : EpollEntry → EpollEvents → EpollEvents
notify_of_epoll_hangup entry output =
    let hung = record output { epollhup = true; epollin = true } in
    if entry.event.events.epollrdhup then record hung { epollrdhup = true } else hung

-- The activity of an entry, the entry and the flags put out.
unfoldable pub check_entry_activity : Side → Segment → EpollEntry → Bool × EpollEntry × EpollEvents
check_entry_activity side s entry =
    if entry_peer_died s
    then (true, entry, notify_of_epoll_hangup entry no_epoll_events)
    else (let (readable, entry₁, output₁) = check_epoll_event side s entry no_epoll_events read in
        let (writable, entry₂, output₂) = check_epoll_event side s entry₁ output₁ write in
        (readable || writable, entry₂, output₂))

-- A write behind the end of the array changes something else, so that the array stays as it is, and the
-- activity is told all the same.
unfoldable pub check_epoll_entry :
    Side → View → EpollEntry → List EpollEvent → ℕ → ℕ → Bool × EpollEntry × List EpollEvent
check_epoll_entry side view entry events number_of_events event_count =
    if event_count == number_of_events
    then (false, entry, events)
    else if entry.enabled
    then (let (activity, entry', output) =
          check_entry_activity side (view entry.connection) entry in
        elim (get_elem? events event_count) [
          | none ↦ (activity, entry', events)
          | some old ↦ (
            activity,
            entry',
            set events event_count (record old {
              events = output;
              user_data = if activity then entry.event.user_data else old.user_data;
            }),
          )
        ])
    else (false, entry, events)

-- The loop over entries: they, the array and the number of events.
unfoldable pub check_epoll_entries :
    Side → View → ℕ → List EpollEntry → List EpollEvent → ℕ → List EpollEntry × List EpollEvent × ℕ
check_epoll_entries side view number_of_events [] events event_count = ([], events, event_count)
check_epoll_entries side view number_of_events (entry ∷ entries) events event_count =
    let (activity, entry', events₁) =
      check_epoll_entry side view entry events number_of_events event_count in
    let (entries', events₂, count) =
      check_epoll_entries side view number_of_events entries events₁
        (if activity then suc event_count else event_count) in
    (entry' ∷ entries', events₂, count)

-- What a wait leaves: the number it returns, the instance and the array.
pub record Waited : Type 0 where
  pub returned : ℕ
  pub instance_after : EpollInstance
  pub events_after : List EpollEvent

-- None where the rounds end before the wait does.
unfoldable pub tssx_epoll_wait_for_single_entry :
    Side → EpollInstance → List EpollEvent → ℕ → ℕ → List Look → Option Waited
tssx_epoll_wait_for_single_entry side inst events start timeout [] = none
tssx_epoll_wait_for_single_entry side inst events start timeout (look ∷ looks) =
    let (activity, first, events') =
      check_epoll_entry side look.view inst.first events (length events) 0 in
    let after : EpollInstance = record inst { first = first } in
    let rest = tssx_epoll_wait_for_single_entry side after events' start timeout looks in
    let result : Waited = record { returned = 0; instance_after = after; events_after = events' } in
    if activity
    then some result
    else if poll_timeout_elapsed start look.now timeout
    then some result
    else rest

-- The loop of `_simple_tssx_epoll_wait` on more than one entry.
unfoldable pub wait_for_entries :
    Side → EpollInstance → List EpollEvent → ℕ → ℕ → List Look → Option Waited
wait_for_entries side inst events start timeout [] = none
wait_for_entries side inst events start timeout (look ∷ looks) =
    let (activity, first, events₁) =
      check_epoll_entry side look.view inst.first events (length events) 0 in
    let (entries, events₂, count) =
      check_epoll_entries side look.view (length events) inst.entries events₁
        (if activity then 1 else 0) in
    let after : EpollInstance = record inst { first = first; entries = entries } in
    let rest = wait_for_entries side after events₂ start timeout looks in
    let result : Waited = record {
      returned = count;
      instance_after = after;
      events_after = events₂;
    } in
    if ltb 0 count
    then some result
    else if poll_timeout_elapsed start look.now timeout
    then some result
    else rest

-- None also where the instance has no connected descriptor, which an `assert` asks for.
unfoldable pub simple_tssx_epoll_wait :
    Side → EpollInstance → List EpollEvent → ℕ → ℕ → List Look → Option Waited
simple_tssx_epoll_wait side inst events start timeout looks =
    if ltb 0 inst.tssx_count
    then if inst.tssx_count == 1
      then tssx_epoll_wait_for_single_entry side inst events start timeout looks
      else wait_for_entries side inst events start timeout looks
    else none

-- A round of the thread of connected descriptors, with the shared count that it loads.
pub record SharedLook : Type 0 where
  pub look : Look
  pub shared_event_count : ℕ

-- What that thread leaves: what it returns, what it adds to the shared count, and whether it has killed
-- the other thread.
pub record TssxWaited : Type 0 where
  pub waited : Waited
  pub added : Option ℕ
  pub killed : Bool

-- The loop ends at a full array, where the other one asks at each entry.
unfoldable pub concurrent_tssx_epoll_wait :
    Side → EpollInstance → List EpollEvent → ℕ → ℕ → List SharedLook → Option TssxWaited
concurrent_tssx_epoll_wait side inst events start timeout [] = none
concurrent_tssx_epoll_wait side inst events start timeout (shared ∷ looks) =
    let (activity, first, events₁) =
      check_epoll_entry side shared.look.view inst.first events (length events) 0 in
    let found : ℕ = if activity then 1 else 0 in
    let (entries, events₂, count) =
      if ltb found (length events) && ltb 1 inst.tssx_count
      then check_epoll_entries side shared.look.view (length events) inst.entries events₁ found
      else (inst.entries, events₁, found) in
    let after : EpollInstance = record inst { first = first; entries = entries } in
    let rest = concurrent_tssx_epoll_wait side after events₂ start timeout looks in
    let result : ℕ → Waited =
      λ n. record { returned = n; instance_after = after; events_after = events₂ } in
    if shared.shared_event_count == size_error
    then some (record { waited = result size_error; added = none; killed = false })
    else if ltb 0 shared.shared_event_count
    then some (record { waited = result count; added = some count; killed = false })
    else if ltb 0 count
    then some (record { waited = result count; added = some count; killed = true })
    else if poll_timeout_elapsed start shared.look.now timeout
    then some (record { waited = result count; added = some count; killed = false })
    else rest

-- The copy behind the join, into the array behind the events of the other thread; none where it
-- writes behind the end of the array.
unfoldable pub copy_over : List EpollEvent → ℕ → List EpollEvent → Option (List EpollEvent)
copy_over events index [] = some events
copy_over events index (event ∷ tssx_events) =
    let rest = copy_over (set events index event) (suc index) tssx_events in
    if ltb index (length events) then rest else none

-- NUMBER_OF_EPOLL_INSTANCES
abbrev pub number_of_epoll_instances : ℕ
number_of_epoll_instances = 1024

-- For a descriptor that is not negative.
unfoldable pub validate_epoll_wait_arguments : ℕ → ℕ → EpollStatus
validate_epoll_wait_arguments epfd number_of_events =
    if leb number_of_epoll_instances epfd
    then error
    else if number_of_events == 0
    then error
    else success
