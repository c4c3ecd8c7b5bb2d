-- ===== src/Select/Tests.antt =====
-- The waits of source/tssx/select-overrides.c at small inputs, and the theorems about them at such inputs.
use tssx.Base.{
  ℕ, ◌+◌, ◌-◌, ◌≤◌, ◌<◌, ◌≡◌, refl, true, false, inl, inr, none, some, [], ◌∷◌, ◌++◌, map,
  replicate, subst, Bool-cases, ltb, ◌==◌, ◌&&◌, arith,
}
use tssx.Buffer.{Buffer, buffer_ready_for, buffer_is_empty}
use tssx.Connection.{Connection, server, default_timeouts}
use tssx.Bridge.{Bridge}
use tssx.Bridge.Inv.{connection_at}
use tssx.Overrides.{ready_for}
use tssx.Poll.{View, Look, PollEvents, no_events, entry_peer_died}
use tssx.Poll.Partition.{tell}
use tssx.Select.{
  FdSet, DescriptorSets, fd_is_set, is_in_any_set, clear_all_sets, Counts, selected,
  forward_to_poll, select_on_tssx_only,
}
use tssx.Select.Forward.{read_event, write_event, error_event, forward_lem}
use tssx.Select.Several.{count_of, several_lem}

abbrev joined : Connection
joined = record { segment_id = some 9 }

-- Descriptors 4 and 5 are connected, the lower ones are not.
abbrev used : Bridge
used = record {
  is_initialized = true;
  connection_count = 2;
  session_table =
      replicate 4 (record { connection = none })
      ++ replicate 2 (record { connection = some joined });
}

-- One byte to read, room for two.
abbrev buffer : Buffer
buffer = record {
  size = 1;
  capacity = 3;
  timeouts = default_timeouts;
  read = 2;
  write = 0;
  bytes = 0 ∷ 0 ∷ 7 ∷ [];
}

abbrev living : View
living = λ c. record { open_count = 2; server_buffer = buffer; client_buffer = buffer }

abbrev look : Look
look = record { view = living; now = 10 }

abbrev reads : FdSet
reads = λ fd. ltb 3 fd

abbrev nothing : FdSet
nothing = λ fd. false

abbrev sets : DescriptorSets
sets = record { readfds = some reads; writefds = some nothing; errorfds = none }

abbrev told : ℕ → PollEvents
told fd = record no_events { pollin = fd == 4 }

forward_lem_example :
    let all : DescriptorSets = record {
      readfds = some reads;
      writefds = some nothing;
      errorfds = some nothing;
    } in
    forward_to_poll (λ entries. some (1, map (tell told) entries)) all 6
    ≡ some (
        selected 1 (record {
          readfds = some (λ fd. ltb fd 6 && is_in_any_set fd all && read_event (told fd));
          writefds = some (λ fd. ltb fd 6 && is_in_any_set fd all && write_event (told fd));
          errorfds = some (λ fd. ltb fd 6 && is_in_any_set fd all && error_event (told fd));
        }))
forward_lem_example = forward_lem reads nothing nothing told 6 1 (λ e. absurd (omega (arith, e)))

abbrev two : Counts
two = record { lowest_fd = 4; normal_count = 0; tssx_count = 2 }

two_connected : (k : ℕ) → 4 ≤ k → k < 4 + (6 - 4) → connection_at used k ≡ some joined
two_connected k h l = elim (Bool-cases (k == 4)) [
  | inl t ↦ let e : 4 ≡ k = ground arith in subst (λ j. connection_at used j ≡ some joined) e refl
  | inr t ↦
      let e : 5 ≡ k = ground (arith, h, l) in subst (λ j. connection_at used j ≡ some joined) e refl
]

several_lem_example :
    select_on_tssx_only server used sets two 6 5 100 (look ∷ [])
    ≡ some (selected (count_of server living (λ k. joined) sets 4 2) (clear_all_sets sets))
unfolding count_of entry_peer_died fd_is_set ready_for buffer_ready_for buffer_is_empty
several_lem_example =
    several_lem server used (λ k. joined) sets two 6 5 100 look [] refl two_connected
      (inl (omega arith))
