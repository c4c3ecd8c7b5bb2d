-- ===== src/Select.antt =====
-- The override of `select`: source/tssx/select-overrides.c. A set of descriptors says for each whether it is
-- in, and a pointer to one may be null. What a process reads while it waits is given scan by
-- scan, as for `poll`. `calloc` answers.
pub mod Forward
pub mod Several
pub mod Fast
mod Tests
use tssx.Base.{
  ℕ, zero, suc, Bool, true, false, Option, none, some, List, [], ◌∷◌, ltb, ◌==◌, ◌&&◌, ◌||◌, ◌-◌,
  sub_size, if◌then◌else◌, size_error,
}
use tssx.Buffer.{Operation, read, write}
use tssx.Connection.{Connection, Segment, Side}
use tssx.Bridge.{Bridge}
use tssx.Bridge.Inv.{connection_at}
use tssx.Overrides.{ready_for}
use tssx.Poll.{PollEvents, PollFd, no_events, View, Look, block_forever, entry_peer_died}

-- `fd_set`
abbrev pub FdSet : Type 0
FdSet = ℕ → Bool

pub record DescriptorSets : Type 0 where
  pub readfds : Option FdSet
  pub writefds : Option FdSet
  pub errorfds : Option FdSet

unfoldable pub fd_is_set : ℕ → Option FdSet → Bool
fd_is_set fd none = false
fd_is_set fd (some set) = set fd

unfoldable pub is_in_any_set : ℕ → DescriptorSets → Bool
is_in_any_set fd sets =
    fd_is_set fd sets.readfds || fd_is_set fd sets.writefds || fd_is_set fd sets.errorfds

-- FD_ZERO
abbrev pub empty_set : FdSet
empty_set = λ fd. false

unfoldable pub clear_set : Option FdSet → Option FdSet
clear_set none = none
clear_set (some set) = some empty_set

unfoldable pub clear_all_sets : DescriptorSets → DescriptorSets
clear_all_sets sets = record {
  readfds = clear_set sets.readfds;
  writefds = clear_set sets.writefds;
  errorfds = clear_set sets.errorfds;
}

unfoldable pub copy_set : Option FdSet → FdSet
copy_set none = empty_set
copy_set (some set) = set

-- FD_SET on a set that is there.
abbrev pub with_fd : ℕ → FdSet → FdSet
with_fd fd set = λ other. if other == fd then true else set other

-- FD_SET; none where the pointer is null.
unfoldable pub set_fd : ℕ → Option FdSet → Option FdSet
set_fd fd none = none
set_fd fd (some set) = some (with_fd fd set)

-- What `_count_tssx_sockets` finds.
pub record Counts : Type 0 where
  pub lowest_fd : ℕ
  pub normal_count : ℕ
  pub tssx_count : ℕ

unfoldable pub count_socket : Bridge → DescriptorSets → ℕ → Counts → Counts
count_socket b sets fd counts =
    if is_in_any_set fd sets
    then (let lowest = if ltb fd counts.lowest_fd then fd else counts.lowest_fd in
        elim (connection_at b fd) [
          | none ↦ record {
            lowest_fd = lowest;
            normal_count = suc counts.normal_count;
            tssx_count = counts.tssx_count;
          }
          | some c ↦ record {
            lowest_fd = lowest;
            normal_count = counts.normal_count;
            tssx_count = suc counts.tssx_count;
          }
        ])
    else counts

-- The loop over `left` descriptors from `fd` on.
unfoldable pub count_from : Bridge → DescriptorSets → ℕ → ℕ → Counts → Counts
count_from b sets fd zero counts = counts
count_from b sets fd (suc left) counts =
    count_from b sets (suc fd) left (count_socket b sets fd counts)

unfoldable pub count_tssx_sockets : Bridge → DescriptorSets → ℕ → Counts
count_tssx_sockets b sets highest_fd =
    count_from b sets 0 highest_fd
      (record { lowest_fd = highest_fd; normal_count = 0; tssx_count = 0 })

abbrev pub poll_entry : DescriptorSets → ℕ → PollFd
poll_entry sets fd = record {
  fd = fd;
  events = record no_events {
    pollin = fd_is_set fd sets.readfds;
    pollout = fd_is_set fd sets.writefds;
    pollerr = fd_is_set fd sets.errorfds;
  };
  revents = no_events;
}

-- The loop over `left` descriptors from `fd` on.
unfoldable pub fill_poll_entries : DescriptorSets → ℕ → ℕ → List PollFd
fill_poll_entries sets fd zero = []
fill_poll_entries sets fd (suc left) =
    let rest = fill_poll_entries sets (suc fd) left in
    if is_in_any_set fd sets then poll_entry sets fd ∷ rest else rest

-- A write of one event, where it has occurred; none where it goes through a null pointer.
unfoldable pub check_poll_event_occurred : Bool → ℕ → Option FdSet → Option (Option FdSet)
check_poll_event_occurred occurred fd set =
    if occurred
    then elim set [ none ↦ none | some fds ↦ some (some (with_fd fd fds)) ]
    else some set

unfoldable pub read_poll_entry : PollFd → DescriptorSets → Option DescriptorSets
read_poll_entry entry sets =
    if entry.revents.pollnval
    then elim (check_poll_event_occurred true entry.fd sets.errorfds) [
      | none ↦ none
      | some errorfds ↦ some (record sets { errorfds = errorfds })
    ]
    else elim (check_poll_event_occurred entry.revents.pollin entry.fd sets.readfds) [
      | none ↦ none
      | some readfds ↦
          elim (check_poll_event_occurred entry.revents.pollout entry.fd sets.writefds) [
            | none ↦ none
            | some writefds ↦
                elim (check_poll_event_occurred entry.revents.pollerr entry.fd sets.errorfds) [
                  | none ↦ none
                  | some errorfds ↦
                      some (record { readfds = readfds; writefds = writefds; errorfds = errorfds })
                ]
          ]
    ]

-- The loop behind the clearing of the sets.
unfoldable pub repopulate : List PollFd → DescriptorSets → Option DescriptorSets
repopulate [] sets = some sets
repopulate (entry ∷ entries) sets = elim (read_poll_entry entry sets) [
  | none ↦ none
  | some sets' ↦ repopulate entries sets'
]

unfoldable pub read_poll_entries : DescriptorSets → List PollFd → Option DescriptorSets
read_poll_entries sets entries = repopulate entries (clear_all_sets sets)

-- What a wait comes to: a read or write through a null pointer, or a number of descriptors with the sets.
pub data Selected : Type 0 where
  null_access : Selected
  selected : ℕ → DescriptorSets → Selected

-- `_ready_for_select` on a set that the caller has, or has copied.
unfoldable pub ready_for_select :
    Side → Segment → ℕ → Option FdSet → Operation → Bool × Option FdSet
ready_for_select side s fd set operation =
    if ready_for side s operation then (true, set_fd fd set) else (false, set)

unfoldable pub waiting_and_ready_for_select :
    Side → Segment → ℕ → Option FdSet → Operation → Bool × Option FdSet
waiting_and_ready_for_select side s fd set operation =
    if fd_is_set fd set then ready_for_select side s fd set operation else (false, set)

-- On sets that are not null.
unfoldable pub check_select_events : Side → Segment → ℕ → DescriptorSets → Bool × DescriptorSets
check_select_events side s fd sets =
    if entry_peer_died s
    then (true, record sets { readfds = set_fd fd sets.readfds })
    else (let (readable, readfds) = waiting_and_ready_for_select side s fd sets.readfds read in
        let (writable, writefds) = waiting_and_ready_for_select side s fd sets.writefds write in
        (readable || writable, record sets { readfds = readfds; writefds = writefds }))

-- The loop of a round over `left` descriptors from `fd` on, in the set of the caller or not; none where one
-- of them has no connection to follow.
unfoldable pub select_round :
    Side → Bridge → View → ℕ → ℕ → DescriptorSets → Option (ℕ × DescriptorSets)
select_round side b view fd zero sets = some (0, sets)
select_round side b view fd (suc left) sets = elim (connection_at b fd) [
  | none ↦ none
  | some c ↦
      let (ready, sets₁) = check_select_events side (view c) fd sets in
      elim (select_round side b view (suc fd) left sets₁) [
        | none ↦ none
        | some (count, sets₂) ↦ some (if ready then suc count else count, sets₂)
      ]
]

unfoldable pub select_timeout_elapsed : ℕ → ℕ → ℕ → Bool
select_timeout_elapsed start now timeout =
    if timeout == block_forever
    then false
    else if timeout == 0
    then true
    else ltb timeout (sub_size now start)

-- The rounds of `_select_on_tssx_only` in the copy of the sets, with the sets of the caller; none where the
-- rounds end before the wait does.
unfoldable pub tssx_rounds :
    Side → Bridge → ℕ → ℕ → ℕ → ℕ → List Look → DescriptorSets → DescriptorSets → Option Selected
tssx_rounds side b lowest_fd left start timeout [] original sets = none
tssx_rounds side b lowest_fd left start timeout (look ∷ looks) original sets =
    elim (select_round side b look.view lowest_fd left original) [
      | none ↦ some null_access
      | some (ready_count, original') ↦
          let rest = tssx_rounds side b lowest_fd left start timeout looks original' sets in
          if ltb 0 ready_count
          then some (selected ready_count sets)
          else if select_timeout_elapsed start look.now timeout
          then some (selected ready_count sets)
          else rest
    ]

-- `_copy_all_sets` to sets that are there.
abbrev pub copy_all_sets : DescriptorSets → DescriptorSets
copy_all_sets sets = record {
  readfds = some (copy_set sets.readfds);
  writefds = some (copy_set sets.writefds);
  errorfds = some (copy_set sets.errorfds);
}

-- A round of the fast path, in the sets of the caller; none where it writes through a null pointer.
unfoldable pub fast_round :
    Side → Segment → ℕ → Bool → Bool → DescriptorSets → Option (Bool × DescriptorSets)
fast_round side s fd select_read select_write sets =
    if entry_peer_died s
    then elim sets.readfds [
      | none ↦ none
      | some readfds ↦ some (true, record sets { readfds = some (with_fd fd readfds) })
    ]
    else if select_read && select_write
    then (let (writable, writefds) = ready_for_select side s fd sets.writefds write in
        let (readable, readfds) = ready_for_select side s fd sets.readfds read in
        some (writable || readable, record sets { readfds = readfds; writefds = writefds }))
    else if select_read
    then (let (readable, readfds) = ready_for_select side s fd sets.readfds read in
        some (readable, record sets { readfds = readfds }))
    else (let (writable, writefds) = ready_for_select side s fd sets.writefds write in
        some (writable, record sets { writefds = writefds }))

unfoldable pub fast_rounds :
    Side → Connection → ℕ → Bool → Bool → ℕ → ℕ → List Look → DescriptorSets → Option Selected
fast_rounds side c fd select_read select_write start timeout [] sets = none
fast_rounds side c fd select_read select_write start timeout (look ∷ looks) sets =
    elim (fast_round side (look.view c) fd select_read select_write sets) [
      | none ↦ some null_access
      | some (ready, sets') ↦
          let rest = fast_rounds side c fd select_read select_write start timeout looks sets' in
          if ready
          then some (selected 1 sets')
          else if select_timeout_elapsed start look.now timeout
          then some (selected 0 sets')
          else rest
    ]

-- For a descriptor that is to be read or written, which an `assert` asks for.
unfoldable pub select_on_tssx_only_fast_path :
    Side → Bridge → DescriptorSets → ℕ → ℕ → ℕ → List Look → Option Selected
select_on_tssx_only_fast_path side b sets fd start timeout looks = elim (connection_at b fd) [
  | none ↦ some null_access
  | some c ↦
      fast_rounds side c fd (fd_is_set fd sets.readfds) (fd_is_set fd sets.writefds) start timeout
        looks (clear_all_sets sets)
]

-- For one descriptor, an `assert` asks for the highest one behind it.
unfoldable pub select_on_tssx_only :
    Side → Bridge → DescriptorSets → Counts → ℕ → ℕ → ℕ → List Look → Option Selected
select_on_tssx_only side b sets counts highest_fd start timeout looks =
    if counts.tssx_count == 1
    then select_on_tssx_only_fast_path side b sets counts.lowest_fd start timeout looks
    else tssx_rounds side b counts.lowest_fd (highest_fd - counts.lowest_fd) start timeout looks
        (copy_all_sets sets) (clear_all_sets sets)

-- With the call of `poll`, none where that does not return.
unfoldable pub forward_to_poll :
    (List PollFd → Option (ℕ × List PollFd)) → DescriptorSets → ℕ → Option Selected
forward_to_poll poll sets highest_fd = elim (poll (fill_poll_entries sets 0 highest_fd)) [
  | none ↦ none
  | some (number_of_events, poll_entries) ↦
      if number_of_events == size_error
      then some (selected size_error sets)
      else elim (read_poll_entries sets poll_entries) [
        | none ↦ some null_access
        | some sets' ↦ some (selected number_of_events sets')
      ]
]

-- `real_select` gives the sets and what it returns.
unfoldable pub select :
    (ℕ → DescriptorSets → ℕ → ℕ × DescriptorSets)
    → (List PollFd → Option (ℕ × List PollFd))
    → Side
    → Bridge
    → ℕ
    → List Look
    → ℕ
    → DescriptorSets
    → ℕ
    → Option Selected
select real_select poll side b start looks nfds sets timeout =
    let counts = count_tssx_sockets b sets nfds in
    if counts.normal_count == 0
    then select_on_tssx_only side b sets counts nfds start timeout looks
    else if counts.tssx_count == 0
    then (let (count, sets') = real_select nfds sets timeout in some (selected count sets'))
    else forward_to_poll poll sets nfds
