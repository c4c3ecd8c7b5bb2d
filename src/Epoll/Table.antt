-- ===== src/Epoll/Table.antt =====
-- The instances of a process in source/tssx/epoll-overrides.c, one for each descriptor, with the calls
-- that find theirs, and `close` of source/tssx/socket-overrides.c. A result of none is a failed `assert`,
-- or an access beyond the array. A descriptor is a natural number.
use tssx.Base.{
  ℕ, Bool, true, false, Option, none, some, List, [], ◌∷◌, get_elem?, set, ltb, if◌then◌else◌,
}
use tssx.Connection.{Memory}
use tssx.Bridge.{Bridge, Session, session_has_connection, bridge_lookup, bridge_erase}
use tssx.Epoll.{
  EpollEvent, EpollInstance, EpollStatus, success, error, EpollOperation, ctl_add, ctl_mod, ctl_del,
  ctl_other, epoll_ctl, epoll_instance_size, close_epoll_instance,
}
use tssx.Epoll.Waiting.{number_of_epoll_instances}

-- `_epoll_instances` and `_epoll_instances_are_initialized`
pub record EpollTable : Type 0 where
  pub instances : List EpollInstance
  pub are_initialized : Bool

-- The loop of `_setup_epoll_instances`.
unfoldable pub clear_counts : List EpollInstance → List EpollInstance
clear_counts [] = []
clear_counts (inst ∷ instances) =
    record inst { tssx_count = 0; normal_count = 0 } ∷ clear_counts instances

-- `atexit` answers or not.
unfoldable pub setup_epoll_instances : Bool → EpollTable → EpollStatus × EpollTable
setup_epoll_instances answers table =
    let cleared : EpollTable = record table { instances = clear_counts table.instances } in
    if answers then (success, record cleared { are_initialized = true }) else (error, cleared)

unfoldable pub lazy_epoll_setup : Bool → EpollTable → EpollStatus × EpollTable
lazy_epoll_setup answers table =
    if table.are_initialized then (success, table) else setup_epoll_instances answers table

-- `epoll_instance_size` for a descriptor: none for ERROR.
unfoldable pub instance_size_of : Bool → EpollTable → ℕ → Option (Option ℕ × EpollTable)
instance_size_of answers table epfd =
    if ltb 2 epfd
    then if ltb epfd number_of_epoll_instances
      then (let (status, table') = lazy_epoll_setup answers table in
          elim status [
            | error ↦ some (none, table')
            | success ↦ elim (get_elem? table'.instances epfd) [
              | none ↦ none
              | some inst ↦ some (some (epoll_instance_size inst), table')
            ]
          ])
      else none
    else none

-- `has_epoll_instance_associated` for a descriptor; ERROR is not above 0.
unfoldable pub instance_associated : Bool → EpollTable → ℕ → Option (Bool × EpollTable)
instance_associated answers table epfd = elim (instance_size_of answers table epfd) [
  | none ↦ none
  | some (size, table') ↦ some (elim size [ none ↦ false | some n ↦ ltb 0 n ], table')
]

-- `real_epoll_create1` answers with a descriptor, or none for ERROR.
unfoldable pub epoll_create1 : Bool → Option ℕ → EpollTable → Option (Option ℕ × EpollTable)
epoll_create1 answers created table =
    let (status, table') = lazy_epoll_setup answers table in
    elim status [
      | error ↦ some (none, table')
      | success ↦ elim created [
        | none ↦ some (none, table')
        | some epfd ↦ elim (instance_associated answers table' epfd) [
          | none ↦ none
          | some (associated, table'') ↦ if associated then none else some (some epfd, table'')
        ]
      ]
    ]

-- The flags of `epoll_create1` go on to the real call.
unfoldable pub epoll_create : Bool → Option ℕ → EpollTable → Option (Option ℕ × EpollTable)
epoll_create answers created table = epoll_create1 answers created table

-- The assertions of the operations on an instance, for a connected descriptor or another one.
unfoldable pub control_allowed : EpollInstance → EpollOperation → Bool → Bool
control_allowed inst ctl_add connected = true
control_allowed inst ctl_mod connected = if connected then ltb 0 inst.tssx_count else true
control_allowed inst ctl_del connected =
    ltb 0 (if connected then inst.tssx_count else inst.normal_count)
control_allowed inst ctl_other connected = true

-- `epoll_ctl` behind the look for the connection and the instance.
unfoldable pub control_found :
    EpollTable
    → Bridge
    → ℕ
    → EpollOperation
    → ℕ
    → EpollEvent
    → EpollStatus
    → Session
    → EpollInstance
    → Option (EpollStatus × EpollTable × Bridge)
control_found table b epfd operation fd event answer session inst =
    if control_allowed inst operation (session_has_connection session)
    then elim (epoll_ctl inst operation fd event session.connection answer) [
      | none ↦ none
      | some (status, inst') ↦
          some (status, record table { instances = set table.instances epfd inst' }, b)
    ]
    else none

-- `epoll_ctl`, where `real_epoll_ctl` answers.
unfoldable pub epoll_ctl_call :
    EpollTable
    → Bridge
    → ℕ
    → EpollOperation
    → ℕ
    → EpollEvent
    → EpollStatus
    → Option (EpollStatus × EpollTable × Bridge)
epoll_ctl_call table b epfd operation fd event answer =
    if table.are_initialized
    then elim (bridge_lookup b fd) [
      | none ↦ none
      | some (b', session) ↦ elim (get_elem? table.instances epfd) [
        | none ↦ none
        | some inst ↦ control_found table b' epfd operation fd event answer session inst
      ]
    ]
    else none

-- What `close` leaves, and the answer of `real_close`.
pub record Closed : Type 0 where
  pub answer : ℕ
  pub table : EpollTable
  pub bridge : Bridge
  pub memory : Memory

-- The two branches of `close`, for a descriptor with an instance and for another one.
unfoldable pub close_found : Bool → (ℕ → ℕ) → EpollTable → Bridge → Memory → ℕ → Option Closed
close_found true real_close table b memory fd = elim (get_elem? table.instances fd) [
  | none ↦ none
  | some inst ↦ some (record {
    answer = real_close fd;
    table = record table { instances = set table.instances fd (close_epoll_instance inst) };
    bridge = b;
    memory = memory;
  })
]
close_found false real_close table b memory fd = elim (bridge_erase b fd memory) [
  | none ↦ none
  | some (b', memory') ↦
      some (record { answer = real_close fd; table = table; bridge = b'; memory = memory' })
]

unfoldable pub close_call : Bool → (ℕ → ℕ) → EpollTable → Bridge → Memory → ℕ → Option Closed
close_call answers real_close table b memory fd = elim (instance_associated answers table fd) [
  | none ↦ none
  | some (associated, table') ↦ close_found associated real_close table' b memory fd
]
