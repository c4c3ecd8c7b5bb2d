-- ===== src/Poll/Tests.antt =====
-- The calls of source/tssx/poll-overrides.c at small inputs, and the theorems about them at such inputs.
use tssx.Base.{
  ℕ, ◌-◌, ◌≡◌, refl, true, false, inl, Option, none, some, List, [], ◌∷◌, ◌++◌, map, replicate,
  add_size, arith,
}
use tssx.Buffer.{Buffer, buffer_ready_for, buffer_is_empty}
use tssx.Overrides.{ready_for}
use tssx.Connection.{Connection, server, default_timeouts}
use tssx.Bridge.{Bridge}
use tssx.Poll.{
  View, PollEvents, PollFd, no_events, Partitioned, partition, join_poll_partition, poll,
  entry_peer_died, waiting_for,
}
use tssx.Poll.Scan.{Watched, shown, busy_count}
use tssx.Poll.Wait.{poll_lem}
use tssx.Poll.Partition.{merged, tell, partition-join}
use tssx.Poll.Threads.{
  ready, over, ended, Polling, initial, Reach, begin_poll, return_poll, see_none, add_normal,
  scan_tssx, stop_scanning, add_tssx, here, next, Reach-lost_error,
}

abbrev joined : Connection
joined = record { segment_id = some 9 }

-- Descriptor 4 is connected, the lower ones are not.
abbrev used : Bridge
used = record {
  is_initialized = true;
  connection_count = 1;
  session_table =
      replicate 4 (record { connection = none }) ++ (record { connection = some joined } ∷ []);
}

-- One byte to read, room for two.
abbrev buffer : Buffer
buffer = record {
  size = 1;
  capacity = 3;
  timeouts = default_timeouts;
  read = 2;
  write = 0;
  bytes = 0 ∷ 0 ∷ 7 ∷ [];
}

-- A peer that lives, and one that has gone.
abbrev living : View
living = λ c. record { open_count = 2; server_buffer = buffer; client_buffer = buffer }

abbrev wants : ℕ → PollFd
wants fd = record { fd = fd; events = record no_events { pollin = true }; revents = no_events }

abbrev watched : Watched
watched = record { connection = joined; fd = 4; events = record no_events { pollin = true } }

abbrev real_poll : List PollFd → ℕ → ℕ × List PollFd
real_poll fds timeout = (0, fds)

abbrev concurrent : Partitioned → ℕ → Option (ℕ × List PollFd × List PollFd)
concurrent parts timeout = some (0, parts.fds, parts.normal_fds)

poll_lem_example :
    poll real_poll concurrent server used 5
      ([] ++ (record { view = living; now = 10 } ∷ []))
      (wants 4 ∷ [])
      100
    ≡ some (busy_count server living (watched ∷ []), map (shown server living) (watched ∷ []))
unfolding busy_count entry_peer_died waiting_for ready_for buffer_ready_for buffer_is_empty
poll_lem_example =
    poll_lem real_poll concurrent server used 5 100 (wants 4 ∷ []) (watched ∷ []) []
      (record { view = living; now = 10 }) [] (omega arith, refl, refl, refl, tt) (omega arith) tt
      (inl (omega arith))

-- Descriptor 4 is connected, 2 is not; the scan finds 4 readable.
abbrev readable : PollFd → PollFd
readable p = record p { revents = record no_events { pollin = true } }

abbrev told : ℕ → PollEvents
told fd = record no_events { pollout = true }

partition-join_example :
    (parts : Partitioned) × (partition used 0 (wants 4 ∷ wants 2 ∷ []) ≡ some parts)
    × (join_poll_partition used (map readable parts.fds) (map (tell told) parts.normal_fds)
        ≡ some (merged used told (map readable parts.fds)))
partition-join_example =
    partition-join used told readable (λ p. refl) 0 (wants 4 ∷ wants 2 ∷ [])
      (omega arith, (omega arith, tt))

-- One thread adds 2 and the other 1.
abbrev last : Polling
last = record {
  event_count = add_size (add_size 0 2) 1;
  normal = over;
  tssx = ended;
  normal_added = 2;
  tssx_added = 1;
  stored_error = false;
}

last-Reach : Reach initial last
last-Reach =
    next
      (next
        (next
          (next
            (next (next (next here (begin_poll refl refl)) (scan_tssx 0 1 refl))
              (return_poll (ready 2) refl))
            (see_none (ready 2) refl (λ e. absurd (omega (arith, e)))))
          (stop_scanning 1 refl (λ e. absurd (omega (arith, e)))))
        (add_normal 2 refl))
      (add_tssx 1 refl)

Reach-lost_error_example :
    (s : Polling) × Reach initial s
    × (s.normal ≡ over)
    × (s.tssx ≡ ended)
    × (s.stored_error ≡ true)
    × (s.event_count ≡ 3 - 1)
Reach-lost_error_example = Reach-lost_error 3 (omega arith) (omega arith)
