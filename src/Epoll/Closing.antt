-- ===== src/Epoll/Closing.antt =====
-- `close` of source/tssx/socket-overrides.c: for a descriptor with an epoll instance of
-- source/tssx/epoll-overrides.c, one with a connection, and any other.
use tssx.Base.{
  ℕ, ◌≤◌, ◌≡◌, refl, Bool, true, false, Option, none, some, inl, inr, ◌⊎◌, map, length, get_elem?,
  ltb, if◌then◌else◌, arith,
}
use tssx.Connection.{Memory}
use tssx.Bridge.{Bridge}
use tssx.Epoll.{EpollInstance, EpollStatus, success, error, epoll_instance_size}
use tssx.Epoll.Waiting.{number_of_epoll_instances}
use tssx.Epoll.Table.{EpollTable, instance_size_of, instance_associated, close_call}

-- The array is set up.
pub record IsReady (table : EpollTable) : Type 0 where
  pub width : length table.instances ≡ number_of_epoll_instances
  pub initialized : table.are_initialized ≡ true

-- The answer to whether there is an instance.
associated : Option (Option ℕ × EpollTable) → Option (Bool × EpollTable)
associated o = elim o [
  | none ↦ none
  | some (size, table) ↦ some (elim size [ none ↦ false | some n ↦ ltb 0 n ], table)
]

-- `close` of a descriptor up to 2, or beyond the array of instances, ends the process at an `assert`,
-- whatever is open.
close_call-aborts :
    (answers : Bool) (real_close : ℕ → ℕ) (table : EpollTable) (b : Bridge) (memory : Memory)
    (fd : ℕ)
    → (fd ≤ 2) ⊎ (number_of_epoll_instances ≤ fd)
    → close_call answers real_close table b memory fd ≡ none
unfolding close_call instance_associated instance_size_of
close_call-aborts answers real_close table b memory fd (inl low) =
    let l : ltb 2 fd ≡ false = ground arith in
    rw (close_call, instance_associated, instance_size_of, l) refl
close_call-aborts answers real_close table b memory fd (inr high) =
    let l : ltb 2 fd ≡ true = ground arith in
    let h : ltb fd number_of_epoll_instances ≡ false = ground arith in
    rw (close_call, instance_associated, instance_size_of, l, h) refl

-- What `_setup_epoll_instances` leaves of an instance.
abbrev pub without_counts : EpollInstance → EpollInstance
without_counts inst = record inst { tssx_count = 0; normal_count = 0 }

-- The table of a process whose instances have been set up: as it is, or, where nothing was, with every
-- instance counting no descriptor.
unfoldable pub prepared : EpollTable → EpollTable
prepared table =
    if table.are_initialized
    then table
    else record { instances = map without_counts table.instances; are_initialized = true }

-- `instance_associated` from what the set-up of the instances returns.
asked_with : ℕ → EpollStatus × EpollTable → Option (Bool × EpollTable)
asked_with fd r = associated (
    if ltb 2 fd
    then if ltb fd number_of_epoll_instances
      then elim r.0 [
        | error ↦ some (none, r.1)
        | success ↦ elim (get_elem? r.1.instances fd) [
          | none ↦ none
          | some inst ↦ some (some (epoll_instance_size inst), r.1)
        ]
      ]
      else none
    else none)
