-- ===== src/Poll.antt =====
-- The override of `poll`: source/tssx/poll-overrides.c with the timeouts of
-- source/tssx/common-poll-overrides.c. A descriptor's connection is what the bridge has for it. Masks
-- of events are their bits. `malloc` answers, so that the vectors are lists. What a process reads
-- through the pointers of its connections while it polls is given scan by scan: a part of it may be
-- older than another, as each stands for the time at which it is read.
pub mod Scan
pub mod Wait
pub mod Partition
pub mod Threads
pub mod Start
mod Tests
use tssx.Base.{
  ℕ, zero, suc, ◌+◌, Bool, true, false, Option, none, some, List, [], ◌∷◌, get_elem?, set, ltb,
  ◌==◌, ◌&&◌, ◌||◌, if◌then◌else◌, sub_size, size_error,
}
use tssx.Buffer.{Operation, read, write}
use tssx.Connection.{Connection, Segment, Side}
use tssx.Bridge.{Bridge}
use tssx.Bridge.Inv.{connection_at}
use tssx.Overrides.{ready_for}

-- POLLIN, POLLOUT, POLLERR, POLLHUP and POLLNVAL
pub record PollEvents : Type 0 where
  pub pollin : Bool
  pub pollout : Bool
  pub pollerr : Bool
  pub pollhup : Bool
  pub pollnval : Bool

abbrev pub no_events : PollEvents
no_events = record {
  pollin = false;
  pollout = false;
  pollerr = false;
  pollhup = false;
  pollnval = false;
}

-- `struct pollfd`
pub record PollFd : Type 0 where
  pub fd : ℕ
  pub events : PollEvents
  pub revents : PollEvents

-- `poll_pointer` is the place in the caller's array.
pub record PollEntry : Type 0 where
  pub connection : Connection
  pub poll_pointer : ℕ

-- What this process reads through the pointers of a connection.
abbrev pub View : Type 0
View = Connection → Segment

-- A round of a wait: the segments as the scan finds them, and the clock, in milliseconds, behind it.
pub record Look : Type 0 where
  pub view : View
  pub now : ℕ

-- BLOCK_FOREVER, as a `size_t`
abbrev pub block_forever : ℕ
block_forever = size_error

-- The timeout is an `int`, converted to a `size_t`.
unfoldable pub poll_timeout_elapsed : ℕ → ℕ → ℕ → Bool
poll_timeout_elapsed start now timeout =
    if timeout == block_forever
    then false
    else if timeout == 0
    then true
    else ltb timeout (sub_size now start)

-- `events & _operation_map[operation]`
unfoldable pub waiting_for : PollFd → Operation → Bool
waiting_for p read = p.events.pollin
waiting_for p write = p.events.pollout

unfoldable pub tell_that_ready_for : PollFd → Operation → PollFd
tell_that_ready_for p read = record p { revents = record p.revents { pollin = true } }
tell_that_ready_for p write = record p { revents = record p.revents { pollout = true } }

unfoldable pub entry_peer_died : Segment → Bool
entry_peer_died s = s.open_count == 1

unfoldable pub check_ready : Side → Segment → PollFd → Operation → Bool × PollFd
check_ready side s p operation =
    if waiting_for p operation
    then if ready_for side s operation then (true, tell_that_ready_for p operation) else (false, p)
    else (false, p)

unfoldable pub check_poll_events : Side → Segment → PollFd → Bool × PollFd
check_poll_events side s p =
    if entry_peer_died s
    then (
      true,
      tell_that_ready_for (record p { revents = record p.revents { pollhup = true } }) read,
    )
    else (let (readable, p₁) = check_ready side s p read in
        let (writable, p₂) = check_ready side s p₁ write in (readable || writable, p₂))

-- The check of one entry, through its pointer into the caller's array.
unfoldable pub check_entry : Side → View → PollEntry → List PollFd → Bool × List PollFd
check_entry side view entry fds = elim (get_elem? fds entry.poll_pointer) [
  | none ↦ (false, fds)
  | some p ↦
      let (occurred, p') = check_poll_events side (view entry.connection) p in
      (occurred, set fds entry.poll_pointer p')
]

-- The loop over all entries: how many events occurred, and the array.
unfoldable pub scan : Side → View → List PollEntry → List PollFd → ℕ × List PollFd
scan side view [] fds = (0, fds)
scan side view (entry ∷ entries) fds =
    let (occurred, fds₁) = check_entry side view entry fds in
    let (count, fds₂) = scan side view entries fds₁ in (if occurred then suc count else count, fds₂)

-- None where the rounds end before the call does.
unfoldable pub simple_tssx_poll :
    Side → List PollEntry → ℕ → ℕ → List Look → List PollFd → Option (ℕ × List PollFd)
simple_tssx_poll side entries start timeout [] fds = none
simple_tssx_poll side entries start timeout (look ∷ looks) fds =
    let (count, fds') = scan side look.view entries fds in
    let rest = simple_tssx_poll side entries start timeout looks fds' in
    if ltb 0 count
    then some (count, fds')
    else if poll_timeout_elapsed start look.now timeout
    then some (count, fds')
    else rest

-- What `_partition` makes: the array, the entries with a connection, the others.
pub record Partitioned : Type 0 where
  pub fds : List PollFd
  pub tssx_fds : List PollEntry
  pub normal_fds : List PollFd

-- A descriptor, at its place, before those behind it.
unfoldable pub partition_entry : Bridge → ℕ → PollFd → Partitioned → Partitioned
partition_entry b index p rest =
    let cleared = record p { revents = no_events } in
    elim (connection_at b p.fd) [
      | some c ↦ record {
        fds = cleared ∷ rest.fds;
        tssx_fds = record { connection = c; poll_pointer = index } ∷ rest.tssx_fds;
        normal_fds = rest.normal_fds;
      }
      | none ↦ record {
        fds = cleared ∷ rest.fds;
        tssx_fds = rest.tssx_fds;
        normal_fds = cleared ∷ rest.normal_fds;
      }
    ]

-- `index` is the place of the first descriptor. None is a failed `assert`: descriptor 0 is in the array.
unfoldable pub partition : Bridge → ℕ → List PollFd → Option Partitioned
partition b index [] = some (record { fds = []; tssx_fds = []; normal_fds = [] })
partition b index (p ∷ fds) =
    let rest = partition b (suc index) fds in
    if ltb 0 p.fd
    then elim rest [ none ↦ none | some parts ↦ some (partition_entry b index p parts) ]
    else none

-- None is a failed `assert`: the two lists are not in step.
unfoldable pub join_poll_partition : Bridge → List PollFd → List PollFd → Option (List PollFd)
join_poll_partition b [] normal_fds = some []
join_poll_partition b (p ∷ fds) [] =
    let rest = join_poll_partition b fds [] in
    elim (connection_at b p.fd) [
      | some c ↦ elim rest [ none ↦ none | some joined ↦ some (p ∷ joined) ]
      | none ↦ none
    ]
join_poll_partition b (p ∷ fds) (entry ∷ normal_fds) =
    let kept = join_poll_partition b fds (entry ∷ normal_fds) in
    let taken = join_poll_partition b fds normal_fds in
    elim (connection_at b p.fd) [
      | some c ↦ elim kept [ none ↦ none | some joined ↦ some (p ∷ joined) ]
      | none ↦
          if entry.fd == p.fd
          then elim taken [
            | none ↦ none
            | some joined ↦ some (record p { revents = entry.revents } ∷ joined)
          ]
          else none
    ]

-- `poll` behind the partition. `real_poll` gives the array and what it returns; `concurrent` stands for
-- `_concurrent_poll`, which gives the array, the normal descriptors and what it returns.
unfoldable pub poll_parts :
    (List PollFd → ℕ → ℕ × List PollFd)
    → (Partitioned → ℕ → Option (ℕ × List PollFd × List PollFd))
    → Side
    → Bridge
    → ℕ
    → List Look
    → ℕ
    → Partitioned
    → Option (ℕ × List PollFd)
poll_parts real_poll concurrent side b start looks timeout parts = elim parts.tssx_fds [
  | [] ↦ some (real_poll parts.fds timeout)
  | _ ↦ elim parts.normal_fds [
    | [] ↦ simple_tssx_poll side parts.tssx_fds start timeout looks parts.fds
    | _ ↦ elim (concurrent parts timeout) [
      | none ↦ none
      | some (count, fds, normal_fds) ↦ elim (join_poll_partition b fds normal_fds) [
        | none ↦ none
        | some joined ↦ some (count, joined)
      ]
    ]
  ]
]

unfoldable pub poll :
    (List PollFd → ℕ → ℕ × List PollFd)
    → (Partitioned → ℕ → Option (ℕ × List PollFd × List PollFd))
    → Side
    → Bridge
    → ℕ
    → List Look
    → List PollFd
    → ℕ
    → Option (ℕ × List PollFd)
poll real_poll concurrent side b start looks [] timeout = some (0, [])
poll real_poll concurrent side b start looks (p ∷ more) timeout = elim (partition b 0 (p ∷ more)) [
  | none ↦ none
  | some parts ↦ poll_parts real_poll concurrent side b start looks timeout parts
]
