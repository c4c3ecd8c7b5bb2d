-- ===== src/Epoll.antt =====
-- The override of `epoll`: source/tssx/epoll-overrides.c. An instance keeps the connected descriptors
-- of an epoll descriptor, the first of them in a field and the others in a vector, which is a list here,
-- as `malloc` answers (Vector.Refine.perform-Edits). The masks are their bits. What a process reads
-- through the pointers of its connections is given scan by scan, as for `poll`.
pub mod Instances
pub mod Waiting
pub mod Table
pub mod Closing
pub mod Control
pub mod Concurrent
pub mod Joining
mod Tests
use tssx.Base.{
  ℕ, zero, suc, ◌+◌, ◌-◌, Bool, true, false, not, Option, none, some, List, [], ◌∷◌, ◌++◌,
  get_elem?, set, take, length, ltb, leb, ◌==◌, ◌&&◌, ◌||◌, if◌then◌else◌, add_size, sub_size,
}
use tssx.Buffer.{Operation, read, write}
use tssx.Connection.{Connection, Segment, Side}
use tssx.Overrides.{ready_for}
use tssx.Poll.{View, Look, poll_timeout_elapsed}

-- EPOLLIN, EPOLLOUT, EPOLLRDHUP, EPOLLHUP, EPOLLET and EPOLLONESHOT
pub record EpollEvents : Type 0 where
  pub epollin : Bool
  pub epollout : Bool
  pub epollrdhup : Bool
  pub epollhup : Bool
  pub epollet : Bool
  pub epolloneshot : Bool

abbrev pub no_epoll_events : EpollEvents
no_epoll_events = record {
  epollin = false;
  epollout = false;
  epollrdhup = false;
  epollhup = false;
  epollet = false;
  epolloneshot = false;
}

-- `struct epoll_event`
pub record EpollEvent : Type 0 where
  pub events : EpollEvents
  pub user_data : ℕ

-- The three flags are the bits ENABLED, READ_EDGE and WRITE_EDGE.
pub record EpollEntry : Type 0 where
  pub fd : ℕ
  pub event : EpollEvent
  pub connection : Connection
  pub enabled : Bool
  pub read_edge : Bool
  pub write_edge : Bool

-- `is_set_up` says whether the vector of the entries has a block: `vector_is_initialized`.
pub record EpollInstance : Type 0 where
  pub entries : List EpollEntry
  pub is_set_up : Bool
  pub first : EpollEntry
  pub tssx_count : ℕ
  pub normal_count : ℕ

pub data EpollStatus : Type 0 where
  success error : EpollStatus

-- An entry with only ENABLED set.
abbrev pub new_entry : ℕ → EpollEvent → Connection → EpollEntry
new_entry fd event connection = record {
  fd = fd;
  event = event;
  connection = connection;
  enabled = true;
  read_edge = false;
  write_edge = false;
}

unfoldable pub epoll_set_first_entry :
    EpollInstance → ℕ → EpollEvent → Connection → EpollStatus × EpollInstance
epoll_set_first_entry inst fd event connection = (
  success,
  record inst { first = new_entry fd event connection; tssx_count = add_size inst.tssx_count 1 },
)

unfoldable pub epoll_push_back_entry :
    EpollInstance → ℕ → EpollEvent → Connection → EpollStatus × EpollInstance
epoll_push_back_entry inst fd event connection =
    -- `vector_setup` at one descriptor
    let entries = if inst.tssx_count == 1 then [] else inst.entries in
    (
      success,
      record inst {
        entries = entries ++ (new_entry fd event connection ∷ []);
        is_set_up = (inst.tssx_count == 1) || inst.is_set_up;
        tssx_count = add_size inst.tssx_count 1;
      },
    )

unfoldable pub epoll_add_to_instance :
    EpollInstance → ℕ → EpollEvent → Connection → EpollStatus × EpollInstance
epoll_add_to_instance inst fd event connection =
    if inst.tssx_count == 0
    then epoll_set_first_entry inst fd event connection
    else epoll_push_back_entry inst fd event connection

-- The write of `_epoll_update_instance` to an entry.
abbrev pub renew : EpollEvent → EpollEntry → EpollEntry
renew event entry = record entry {
  event = event;
  enabled = true;
  read_edge = false;
  write_edge = false;
}

-- `_find_epoll_entry`, with the write to the entry found; none where there is none.
unfoldable pub update_found : ℕ → EpollEvent → List EpollEntry → Option (List EpollEntry)
update_found fd event [] = none
update_found fd event (entry ∷ entries) =
    let rest = update_found fd event entries in
    if entry.fd == fd
    then some (renew event entry ∷ entries)
    else elim rest [ none ↦ none | some entries' ↦ some (entry ∷ entries') ]

unfoldable pub update_entry : EpollInstance → ℕ → EpollEvent → EpollStatus × EpollInstance
update_entry inst fd new_event =
    if fd == inst.first.fd
    then (success, record inst { first = renew new_event inst.first })
    else elim (update_found fd new_event inst.entries) [
      | none ↦ (error, inst)
      | some entries ↦ (success, record inst { entries = entries })
    ]

-- `vector_begin` asserts that the vector is set up, before it looks for a descriptor that is not the
-- first: none.
unfoldable pub epoll_update_instance :
    EpollInstance → ℕ → EpollEvent → Option (EpollStatus × EpollInstance)
epoll_update_instance inst fd new_event =
    if (fd == inst.first.fd) || inst.is_set_up then some (update_entry inst fd new_event) else none

-- `vector_back`, and the vector behind `vector_pop_back`.
unfoldable pub split_last : EpollEntry → List EpollEntry → List EpollEntry × EpollEntry
split_last entry [] = ([], entry)
split_last entry (next ∷ entries) =
    let (front, last) = split_last next entries in (entry ∷ front, last)

unfoldable pub epoll_erase_first_from_instance : EpollInstance → EpollStatus × EpollInstance
epoll_erase_first_from_instance inst =
    if ltb 1 inst.tssx_count
    then elim inst.entries [
      | [] ↦ (error, inst)
      | entry ∷ entries ↦
          let (front, last) = split_last entry entries in
          (
            success,
            record inst { first = last; entries = front; tssx_count = sub_size inst.tssx_count 1 },
          )
    ]
    else (success, record inst { tssx_count = sub_size inst.tssx_count 1 })

-- The loop of `_epoll_erase_from_instance`.
unfoldable pub erase_found : ℕ → List EpollEntry → Option (List EpollEntry)
erase_found fd [] = none
erase_found fd (entry ∷ entries) =
    let rest = erase_found fd entries in
    if entry.fd == fd
    then some entries
    else elim rest [ none ↦ none | some entries' ↦ some (entry ∷ entries') ]

unfoldable pub erase_entry : EpollInstance → ℕ → EpollStatus × EpollInstance
erase_entry inst fd =
    if fd == inst.first.fd
    then epoll_erase_first_from_instance inst
    else elim (erase_found fd inst.entries) [
      | none ↦ (error, inst)
      | some entries ↦
          (success, record inst { entries = entries; tssx_count = sub_size inst.tssx_count 1 })
    ]

-- The asserts of the erasure: that of `vector_begin`, and for the first descriptor, where there are
-- others, that of `vector_back` on a vector with an element.
unfoldable pub erase_asserts : EpollInstance → ℕ → Bool
erase_asserts inst fd =
    if fd == inst.first.fd
    then not (ltb 1 inst.tssx_count && (length inst.entries == 0))
    else inst.is_set_up

unfoldable pub epoll_erase_from_instance : EpollInstance → ℕ → Option (EpollStatus × EpollInstance)
epoll_erase_from_instance inst fd =
    if erase_asserts inst fd then some (erase_entry inst fd) else none

-- EPOLL_CTL_ADD, EPOLL_CTL_MOD, EPOLL_CTL_DEL and any other number.
pub data EpollOperation : Type 0 where
  ctl_add ctl_mod ctl_del ctl_other : EpollOperation

-- For an instance with a descriptor, where the operation needs one.
unfoldable pub epoll_tssx_control_operation :
    EpollInstance
    → EpollOperation
    → ℕ
    → EpollEvent
    → Connection
    → Option (EpollStatus × EpollInstance)
epoll_tssx_control_operation inst ctl_add fd event connection =
    some (epoll_add_to_instance inst fd event connection)
epoll_tssx_control_operation inst ctl_mod fd event connection = epoll_update_instance inst fd event
epoll_tssx_control_operation inst ctl_del fd event connection = epoll_erase_from_instance inst fd
epoll_tssx_control_operation inst ctl_other fd event connection = some (error, inst)

-- `real_epoll_ctl` answers.
unfoldable pub epoll_normal_control_operation :
    EpollInstance → EpollOperation → EpollStatus → EpollStatus × EpollInstance
epoll_normal_control_operation inst ctl_add answer =
    (answer, record inst { normal_count = add_size inst.normal_count 1 })
epoll_normal_control_operation inst ctl_del answer =
    (answer, record inst { normal_count = sub_size inst.normal_count 1 })
epoll_normal_control_operation inst _ answer = (answer, inst)

-- `epoll_ctl` on an instance, with the connection that the bridge has for the descriptor.
unfoldable pub epoll_ctl :
    EpollInstance
    → EpollOperation
    → ℕ
    → EpollEvent
    → Option Connection
    → EpollStatus
    → Option (EpollStatus × EpollInstance)
epoll_ctl inst operation fd event connected answer = elim connected [
  | some connection ↦ epoll_tssx_control_operation inst operation fd event connection
  | none ↦ some (epoll_normal_control_operation inst operation answer)
]

unfoldable pub epoll_instance_size : EpollInstance → ℕ
epoll_instance_size inst = inst.tssx_count + inst.normal_count

unfoldable pub has_epoll_instance_associated : EpollInstance → Bool
has_epoll_instance_associated inst = ltb 0 (epoll_instance_size inst)

-- `vector_destroy`, where there is more than one descriptor, gives the block back and leaves the vector
-- its size, for which the list stands.
unfoldable pub close_epoll_instance : EpollInstance → EpollInstance
close_epoll_instance inst = record inst {
  tssx_count = 0;
  normal_count = 0;
  is_set_up = inst.is_set_up && not (ltb 1 inst.tssx_count);
}
