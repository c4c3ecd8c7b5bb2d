-- ===== src/Epoll/Tests.antt =====
-- The instances and waits of source/tssx/epoll-overrides.c at small inputs, and the theorems about them at
-- such inputs.
use tssx.Base.{
  ℕ, ◌≤◌, ◌≡◌, ◌≢◌, ◌∙◌, refl, true, false, inl, inr, none, some, List, [], ◌∷◌, ◌++◌, length, take,
  ◌==◌, if◌then◌else◌, blit, get_elem?, set, replicate, length-set, length-replicate, arith,
}
use tssx.Buffer.{Buffer, buffer_ready_for, buffer_is_empty}
use tssx.Overrides.{ready_for}
use tssx.Connection.{Connection, Memory, server, default_timeouts}
use tssx.Bridge.{Bridge}
use tssx.Bridge.Inv as Bridges
use tssx.Bridge.Inv.{connection_at}
use tssx.Bridge.Single.{single, single-IsValid}
use tssx.Poll.{View, Look, poll_timeout_elapsed, entry_peer_died}
use tssx.Poll.Threads.{
  Polling, initial, over, ended, ready, begin_poll, return_poll, see_none, scan_tssx, stop_scanning,
  add_normal, add_tssx, Reach, here, next,
}
use tssx.Epoll.{
  no_epoll_events, EpollEvent, EpollInstance, EpollStatus, success, ctl_add, new_entry,
  epoll_update_instance,
}
use tssx.Epoll.Instances.{registered, IsValid, Does}
use tssx.Epoll.Table.{EpollTable, epoll_ctl_call}
use tssx.Epoll.Control.{epoll_ctl_call_lem}
use tssx.Epoll.Closing.{IsReady}
use tssx.Epoll.Concurrent.{normal_epoll_wait, EpollTask, blank, concurrent_epoll_wait}
use tssx.Epoll.Joining.{concurrent_epoll_wait_lem}
use tssx.Epoll.Waiting.Report.{reports, is_active}
use tssx.Epoll.Waiting.{
  TssxWaited, Waited, check_epoll_entry, check_entry_activity, check_epoll_event,
  is_level_triggered, is_edge_triggered, is_oneshot, set_poll_edge, add_operation,
  number_of_epoll_instances, epoll_operation_registered, simple_tssx_epoll_wait,
  concurrent_tssx_epoll_wait,
}
use tssx.Epoll.Waiting.Rounds.{found, epoll_wait_lem}
use tssx.Epoll.Waiting.Ends.{epoll_wait-ends}

-- One byte to read, room for two.
abbrev buffer : Buffer
buffer = record {
  size = 1;
  capacity = 3;
  timeouts = default_timeouts;
  read = 2;
  write = 0;
  bytes = 0 ∷ 0 ∷ 7 ∷ [];
}

abbrev joined : Connection
joined = record { segment_id = some 9 }

abbrev living : View
living = λ c. record { open_count = 2; server_buffer = buffer; client_buffer = buffer }

abbrev readable : EpollEvent
readable = record { events = record no_epoll_events { epollin = true }; user_data = 70 }

abbrev edge : EpollEvent
edge = record { events = record no_epoll_events { epollin = true; epollet = true }; user_data = 71 }

abbrev one : EpollInstance
one = record {
  entries = [];
  is_set_up = false;
  first = new_entry 4 readable joined;
  tssx_count = 1;
  normal_count = 0;
}

-- Descriptors 4, 5 and 6, the second of them edge-triggered.
abbrev three : EpollInstance
three = record {
  entries = new_entry 5 edge joined ∷ new_entry 6 readable joined ∷ [];
  is_set_up = true;
  first = new_entry 4 readable joined;
  tssx_count = 3;
  normal_count = 0;
}

three-IsValid : IsValid three
three-IsValid = record { counted = inr (omega arith); small = omega arith; has_block = λ l. refl }

abbrev look : Look
look = record { view = living; now = 10 }

abbrev room : List EpollEvent
room = edge ∷ edge ∷ edge ∷ []

-- The instances of a process, of which 5 has the three descriptors.
abbrev instances : List EpollInstance
instances = set (replicate number_of_epoll_instances one) 5 three

abbrev table : EpollTable
table = record { instances = instances; are_initialized = true }

table-IsReady : IsReady table
table-IsReady = record {
  width =
      length-set (replicate number_of_epoll_instances one) 5 three
      ∙ length-replicate number_of_epoll_instances one;
  initialized = refl;
}

-- With one descriptor and no vector, the update of another one fails an assert.
absent_update : epoll_update_instance one 9 readable ≡ none
unfolding epoll_update_instance
absent_update = refl

-- Descriptor 0 is connected: it is put behind the three.
epoll_ctl_call_lem_example :
    (status : EpollStatus) × (table' : EpollTable) × (b' : Bridge) × (inst' : EpollInstance)
    × (epoll_ctl_call table (single joined) 5 ctl_add 0 readable success
        ≡ some (status, table', b'))
    × (get_elem? table'.instances 5 ≡ some inst')
    × Does ctl_add 0 readable joined (registered three) status (registered inst')
    × IsValid inst'
    × (inst'.normal_count ≡ 0)
    × ((j : ℕ) → j ≢ 5 → get_elem? table'.instances j ≡ get_elem? table.instances j)
    × IsReady table'
    × ((j : ℕ) → connection_at b' j ≡ connection_at (single joined) j)
epoll_ctl_call_lem_example =
    epoll_ctl_call_lem table-IsReady (single-IsValid joined) 5 (omega arith) three refl ctl_add 0
      readable success (omega arith) joined refl three-IsValid (inl refl) (omega arith)

abbrev nothing : Memory
nothing = λ id. none

-- Nothing has set the instances up: the connection of descriptor 0 is not touched by a close of 5.
abbrev unset : EpollTable
unset = record table { are_initialized = false }

-- One event of the normal descriptors and one of descriptor 4.
abbrev ran : Polling
ran = record initial {
  event_count = 2;
  normal = over;
  tssx = ended;
  normal_added = 1;
  tssx_added = 1;
}

ran-Reach : Reach initial ran
ran-Reach =
    next
      (next
        (next
          (next
            (next (next (next here (begin_poll refl refl)) (return_poll (ready 1) refl))
              (see_none (ready 1) refl (λ e. absurd (omega (arith, e)))))
            (scan_tssx 0 1 refl))
          (stop_scanning 1 refl (λ e. absurd (omega (arith, e)))))
        (add_normal 1 refl))
      (add_tssx 1 refl)

abbrev waited : TssxWaited
waited = record {
  waited = record {
    returned = 1;
    instance_after = record one { first = record (one.first) { read_edge = true } };
    events_after = readable ∷ blank ∷ blank ∷ [];
  };
  added = some 1;
  killed = true;
}

waited_run :
    concurrent_tssx_epoll_wait server one
      (replicate 3 blank)
      5
      100
      (record { look = look; shared_event_count = 0 } ∷ [])
    ≡ some waited
unfolding concurrent_tssx_epoll_wait check_epoll_entry check_entry_activity entry_peer_died
    check_epoll_event epoll_operation_registered ready_for buffer_ready_for is_level_triggered
    is_edge_triggered is_oneshot set_poll_edge add_operation
waited_run = refl

concurrent_epoll_wait_lem_example :
    let normal = normal_epoll_wait 0 (ready 1) 1 in
    let task : EpollTask = record {
      events = room;
      event_count = normal.event_count;
      shared_event_count = 2;
    } in
    concurrent_epoll_wait server one task 5 100
      (record { look = look; shared_event_count = 0 } ∷ [])
    ≡ some (record waited.waited { returned = 2; events_after = edge ∷ readable ∷ edge ∷ [] })
unfolding blit normal_epoll_wait
concurrent_epoll_wait_lem_example =
    concurrent_epoll_wait_lem server one room 5 100
      (record { look = look; shared_event_count = 0 } ∷ []) waited waited_run ran ran-Reach refl
      refl 0 (ready 1) 1 (λ e. absurd (omega (arith, e))) refl refl (omega arith) (omega arith)

-- Two of the three report that they are readable.
epoll_wait_lem_example :
    (w : Waited) × (simple_tssx_epoll_wait server three room 5 100 (look ∷ []) ≡ some w)
    × (w.returned ≡ (if three.tssx_count == 1 then 0 else length (found server look three room)))
    × (take (length (found server look three room)) w.events_after ≡ found server look three room)
    × (length w.events_after ≡ length room)
unfolding reports is_active entry_peer_died epoll_operation_registered ready_for buffer_ready_for
    buffer_is_empty
epoll_wait_lem_example =
    epoll_wait_lem server three room 5 100 look [] (omega arith) (inl (omega arith))

epoll_wait-ends_example :
    (w : Waited) × (simple_tssx_epoll_wait server one room 5 0 ([] ++ (look ∷ [])) ≡ some w)
    × (w.returned ≤ length room)
unfolding poll_timeout_elapsed
epoll_wait-ends_example = epoll_wait-ends server one room 5 0 [] look [] (omega arith) refl
