-- ===== src/Bridge.antt =====
-- The table of a process's connections by file descriptor: source/tssx/session.c,
-- source/tssx/session-table.c and source/tssx/bridge.c. A result of none is a failed `assert`, for a
-- descriptor beyond the table or for a session that is taken. The calls that return a status return
-- SUCCESS, since the lazy setup cannot fail, and the model leaves it out.
pub mod Users
pub mod Inv
pub mod Single
pub mod Fork
pub mod Signals
pub mod Ends
mod Tests
use tssx.Base.{
  ℕ, ◌<◌, Bool, true, false, not, Option, none, some, List, [], ◌∷◌, get_elem?, set, replicate,
  length, ltb, ◌==◌, if◌then◌else◌, add_size, sub_size,
}
use tssx.Connection.{Connection, Memory, connection_add_user, disconnect}

pub record Session : Type 0 where
  pub connection : Option Connection

-- FD_SETSIZE
abbrev pub session_table_size : ℕ
session_table_size = 1024

abbrev pub SessionTable : Type 0
SessionTable = List Session

unfoldable pub session_setup : Session → Session
session_setup s = record s { connection = none }

unfoldable pub session_has_connection : Session → Bool
session_has_connection s = elim s.connection [ none ↦ false | some _ ↦ true ]

unfoldable pub session_invalidate : Session → Memory → Session × Memory
session_invalidate s memory = elim s.connection [
  | none ↦ (s, memory)
  | some c ↦ (record s { connection = none }, (disconnect c memory).1)
]

unfoldable pub session_table_setup : SessionTable → SessionTable
session_table_setup [] = []
session_table_setup (s ∷ table) = session_setup s ∷ session_table_setup table

unfoldable pub session_table_destroy : SessionTable → Memory → SessionTable × Memory
session_table_destroy [] memory = ([], memory)
session_table_destroy (s ∷ table) memory =
    let (s', memory') = session_invalidate s memory in
    let (table', memory'') = session_table_destroy table memory' in (s' ∷ table', memory'')

unfoldable pub session_table_get : SessionTable → ℕ → Option Session
session_table_get table index = if ltb index session_table_size then get_elem? table index else none

unfoldable pub session_table_assign : SessionTable → ℕ → Session → Option SessionTable
session_table_assign table index session = elim (session_table_get table index) [
  | none ↦ none
  | some s ↦ if session_has_connection s then none else some (set table index session)
]

pub record Bridge : Type 0 where
  pub is_initialized : Bool
  pub connection_count : ℕ
  pub session_table : SessionTable

-- BRIDGE_INITIALIZER
abbrev pub bridge_initializer : Bridge
bridge_initializer = record {
  is_initialized = false;
  connection_count = 0;
  session_table = replicate session_table_size (record { connection = none });
}

unfoldable pub bridge_setup : Bridge → Bridge
bridge_setup b = record {
  is_initialized = true;
  connection_count = 0;
  session_table = session_table_setup b.session_table;
}

-- `_lazy_bridge_setup`
unfoldable pub lazy_bridge_setup : Bridge → Bridge
lazy_bridge_setup b = if b.is_initialized then b else bridge_setup b

unfoldable pub bridge_destroy : Bridge → Memory → Option (Bridge × Memory)
bridge_destroy b memory =
    if b.is_initialized
    then (let (table, memory') = session_table_destroy b.session_table memory in
        some (record b { session_table = table }, memory'))
    else none

-- The loop of `bridge_add_user`.
unfoldable pub add_users : SessionTable → Memory → Memory
add_users [] memory = memory
add_users (s ∷ table) memory =
    add_users table (elim s.connection [ none ↦ memory | some c ↦ connection_add_user c memory ])

unfoldable pub bridge_add_user : Bridge → Memory → Bridge × Memory
bridge_add_user b memory =
    let b' = lazy_bridge_setup b in
    (b', if b'.connection_count == 0 then memory else add_users b'.session_table memory)

-- `bridge_insert` behind the lazy setup.
unfoldable pub insert_ready : Bridge → ℕ → Session → Option Bridge
insert_ready b fd session = elim (session_table_assign b.session_table fd session) [
  | none ↦ none
  | some table ↦ some (record b {
    session_table = table;
    connection_count =
        if session_has_connection session
        then add_size b.connection_count 1
        else b.connection_count;
  })
]

unfoldable pub bridge_insert : Bridge → ℕ → Session → Option Bridge
bridge_insert b = insert_ready (lazy_bridge_setup b)

-- `bridge_erase` behind the lazy setup.
unfoldable pub erase_ready : Bridge → ℕ → Memory → Option (Bridge × Memory)
erase_ready b fd memory = elim (session_table_get b.session_table fd) [
  | none ↦ none
  | some session ↦
      let (session', memory') = session_invalidate session memory in
      some (
        record b {
          connection_count =
              if session_has_connection session
              then sub_size b.connection_count 1
              else b.connection_count;
          session_table = set b.session_table fd session';
        },
        memory',
      )
]

unfoldable pub bridge_erase : Bridge → ℕ → Memory → Option (Bridge × Memory)
bridge_erase b = erase_ready (lazy_bridge_setup b)

-- `bridge_lookup` and `bridge_has_connection` behind the lazy setup.
unfoldable pub lookup_ready : Bridge → ℕ → Option (Bridge × Session)
lookup_ready b fd = elim (session_table_get b.session_table fd) [
  | none ↦ none
  | some s ↦ some (b, s)
]

unfoldable pub bridge_lookup : Bridge → ℕ → Option (Bridge × Session)
bridge_lookup b = lookup_ready (lazy_bridge_setup b)

unfoldable pub bridge_has_connection : Bridge → ℕ → Option (Bridge × Bool)
bridge_has_connection b fd = elim (lookup_ready (lazy_bridge_setup b) fd) [
  | none ↦ none
  | some (b', s) ↦ some (b', session_has_connection s)
]

unfoldable pub bridge_has_any_connections : Bridge → Bool
bridge_has_any_connections b = ltb 0 b.connection_count
