-- ===== src/Epoll/Concurrent.antt =====
-- `epoll_wait` of source/tssx/epoll-overrides.c on the instances of a process, and the join of its two
-- threads in `_concurrent_epoll_wait`. The threads share a count as those of a mixed `poll` do:
-- `_normal_epoll_wait` takes the steps of `_normal_poll`, and `_concurrent_tssx_epoll_wait` those of
-- `_concurrent_tssx_poll` (Poll/Threads). The start of the thread and the signal handlers succeed.
use tssx.Base.{
  ℕ, Bool, true, false, Option, none, some, List, length, take, replicate, get_elem?, set, ◌==◌,
  if◌then◌else◌, add_size, size_error,
}
use tssx.Connection.{Side}
use tssx.Poll.{Look}
use tssx.Poll.Threads.{Polled, failed, interrupted, ready}
use tssx.Epoll.{no_epoll_events, EpollEvent, EpollInstance, success, error}
use tssx.Epoll.Waiting.{
  Waited, SharedLook, simple_tssx_epoll_wait, concurrent_tssx_epoll_wait, copy_over,
  validate_epoll_wait_arguments,
}
use tssx.Epoll.Table.{EpollTable}

-- What `_normal_epoll_wait` leaves: the count in its task, what it adds to the shared count, and whether
-- it stores an error there.
pub record NormalWait : Type 0 where
  pub event_count : ℕ
  pub added : ℕ
  pub stored_error : Bool

-- The count that `real_epoll_wait` returns, as a `size_t`.
abbrev pub count_of : Polled → ℕ
count_of failed = size_error
count_of interrupted = size_error
count_of (ready n) = n

-- `_normal_epoll_wait`, with what its two loads of the shared count find and how `real_epoll_wait`
-- answers.
unfoldable pub normal_epoll_wait : ℕ → Polled → ℕ → NormalWait
normal_epoll_wait before answer behind =
    let polled : Polled = if before == 0 then answer else ready 0 in
    if behind == size_error
    then record { event_count = count_of polled; added = 0; stored_error = false }
    else elim polled [
      | failed ↦ record { event_count = size_error; added = 0; stored_error = true }
      | interrupted ↦ record { event_count = 0; added = 0; stored_error = false }
      | ready n ↦ record { event_count = n; added = n; stored_error = false }
    ]

-- What the thread of the normal descriptors leaves in its task, and the shared count behind the join.
pub record EpollTask : Type 0 where
  pub events : List EpollEvent
  pub event_count : ℕ
  pub shared_event_count : ℕ

-- `_concurrent_epoll_wait` behind the join; none where it writes behind the end of the array, or where its
-- last `assert` fails.
unfoldable pub join_events : EpollTask → Waited → Option Waited
join_events task tssx =
    if task.shared_event_count == size_error
    then some (record tssx { returned = size_error; events_after = task.events })
    else elim (copy_over task.events task.event_count (take tssx.returned tssx.events_after)) [
      | none ↦ none
      | some events ↦
          if add_size tssx.returned task.event_count == task.shared_event_count
          then some (record tssx { returned = task.shared_event_count; events_after = events })
          else none
    ]

-- An event of the array that `calloc` gives.
abbrev pub blank : EpollEvent
blank = record { events = no_epoll_events; user_data = 0 }

unfoldable pub concurrent_epoll_wait :
    Side → EpollInstance → EpollTask → ℕ → ℕ → List SharedLook → Option Waited
concurrent_epoll_wait side inst task start timeout looks =
    elim (concurrent_tssx_epoll_wait side inst (replicate (length task.events) blank) start timeout
      looks) [ none ↦ none | some w ↦ join_events task w.waited ]

-- The rounds of a wait on connected descriptors alone, and of one of two threads.
pub record Rounds : Type 0 where
  pub looks : List Look
  pub shared_looks : List SharedLook

-- `epoll_wait`: the number that it returns, the instances and the array. `real_wait` is what
-- `real_epoll_wait` returns and puts into the array.
unfoldable pub epoll_wait_call :
    Side
    → EpollTable
    → ℕ
    → List EpollEvent
    → ℕ × List EpollEvent
    → EpollTask
    → ℕ
    → ℕ
    → Rounds
    → Option (ℕ × EpollTable × List EpollEvent)
epoll_wait_call side table epfd events real_wait task start timeout rounds =
    if table.are_initialized
    then elim (validate_epoll_wait_arguments epfd (length events)) [
      | error ↦ some (size_error, table, events)
      | success ↦ elim (get_elem? table.instances epfd) [
        | none ↦ none
        | some inst ↦
            if inst.tssx_count == 0
            then some (real_wait.0, table, real_wait.1)
            else elim (if inst.normal_count == 0
                then simple_tssx_epoll_wait side inst events start timeout rounds.looks
                else concurrent_epoll_wait side inst task start timeout rounds.shared_looks) [
                  | none ↦ none
                  | some w ↦ some (
                    w.returned,
                    record table { instances = set table.instances epfd w.instance_after },
                    w.events_after,
                  )
                ]
      ]
    ]
    else none
