-- ===== src/Bridge/Fork.antt =====
-- Forking and ending a process with connections: bridge_add_user and bridge_destroy of
-- source/tssx/bridge.c.
use tssx.Base.{
  ℕ, ◌+◌, ◌≤◌, ◌<◌, ◌≡◌, refl, sym, ap, ◌∙◌, subst, none, some, true, false, [], ◌∷◌, ◌==◌,
  if◌then◌else◌, Bool-cases, Option-cases, inl, inr, size_modulus, arith,
}
use tssx.Connection.{Memory, Segment}
use tssx.Bridge.{
  Session, SessionTable, Bridge, add_users, bridge_add_user, bridge_destroy, session_table_destroy,
  session_invalidate, session_has_connection,
}
use tssx.Bridge.Users.{
  uses, connections, uses_le, with_count, without, add_users_lem, add_users-none,
  session_table_destroy_lem, session_table_destroy-none,
}
use tssx.Bridge.Inv.{IsValid, ready, ready-IsValid, lazy_bridge_setup_lem, connection_at}

-- Every segment has a user, and room in the count for the sessions of the table once more.
abbrev pub Counted : Memory → SessionTable → Type 0
Counted memory table =
    (id : ℕ) (s : Segment)
    → memory id ≡ some s
    → (0 < s.open_count) × (s.open_count + uses id table < size_modulus)

module _ {b : Bridge} (v : IsValid b) (memory : Memory)
    (counted : Counted memory b.session_table) where
  abbrev shared : Memory
  shared = if b.connection_count == 0 then memory else add_users b.session_table memory

  add_user_ready : bridge_add_user b memory ≡ (ready v, shared)
  unfolding bridge_add_user
  add_user_ready =
      ap (λ r. (r, if r.connection_count == 0 then memory else add_users r.session_table memory))
        (lazy_bridge_setup_lem v)

  shared-counts :
      (id : ℕ) (s : Segment)
      → memory id ≡ some s
      → shared id ≡ some (with_count s (s.open_count + uses id b.session_table))
  shared-counts id s e = elim (Bool-cases (b.connection_count == 0)) [
    | inl t ↦
        let u = uses_le id b.session_table in
        let z : s.open_count ≡ s.open_count + uses id b.session_table =
          ground (arith, u, v.counted) in
        rw t (e ∙ ap (λ n. some (with_count s n)) z)
    | inr t ↦ rw t (add_users_lem b.session_table memory id s e (counted id s e).1)
  ]

  shared-none : (id : ℕ) → memory id ≡ none → shared id ≡ none
  shared-none id e = elim (Bool-cases (b.connection_count == 0)) [
    | inl t ↦ rw t e
    | inr t ↦ rw t (add_users-none b.session_table memory id e)
  ]

  -- `bridge_add_user`, which `fork` calls, adds to the count of a segment as many users as this
  -- process has connections to it; the bridge stays valid and keeps its connections.
  pub bridge_add_user_lem :
      IsValid (bridge_add_user b memory).0
      × ((fd : ℕ) → connection_at (bridge_add_user b memory).0 fd ≡ connection_at b fd)
      × ((id : ℕ) (s : Segment)
          → memory id ≡ some s
          → (bridge_add_user b memory).1 id
            ≡ some (with_count s (s.open_count + uses id b.session_table)))
  bridge_add_user_lem = (
    subst (λ r. IsValid r.0) (sym add_user_ready) (ready-IsValid v),
    λ fd. ap (λ r. connection_at r.0 fd) add_user_ready,
    λ id s e. ap (λ r. r.1 id) add_user_ready ∙ shared-counts id s e,
  )

  exit_forked : (id : ℕ) → (session_table_destroy b.session_table shared).1 id ≡ memory id
  exit_forked id = elim (Option-cases (memory id)) [
    | inl e ↦ session_table_destroy-none b.session_table shared id (shared-none id e) ∙ sym e
    | inr (s, e) ↦
        let n = s.open_count + uses id b.session_table in
        let (pos, small) = counted id s e in
        let t : n == uses id b.session_table ≡ false = ground arith in
        session_table_destroy_lem b.session_table shared id (with_count s n) (shared-counts id s e)
          (omega arith) (omega arith) small
        ∙ rw t (ap (λ n. some (with_count s n)) (omega arith))
        ∙ sym e
  ]

  -- When a process forks and one of the two then ends, its `bridge_destroy` leaves every segment as it
  -- was before the fork: the peer sees neither.
  pub fork-exit :
      (b' : Bridge) × (memory' : Memory) × (bridge_destroy
          (bridge_add_user b memory).0
          (bridge_add_user b memory).1
        ≡ some (b', memory'))
      × ((id : ℕ) → memory' id ≡ memory id)
  unfolding bridge_destroy
  fork-exit = (
    record (ready v) { session_table = (session_table_destroy b.session_table shared).0 },
    (session_table_destroy b.session_table shared).1,
    ap (λ r. bridge_destroy r.0 r.1) add_user_ready,
    exit_forked,
  )

ended_session :
    (s : Session) (memory : Memory) → session_has_connection (session_invalidate s memory).0 ≡ false
unfolding session_invalidate session_has_connection
ended_session s memory = elim (Option-cases s.connection) [
  | inl n ↦ rw n refl
  | inr (c, n) ↦ rw n refl
]

ended_sessions :
    (table : SessionTable) (memory : Memory)
    → connections (session_table_destroy table memory).0 ≡ 0
unfolding session_table_destroy session_invalidate connections session_has_connection
ended_sessions [] memory = refl
ended_sessions (s ∷ table) memory =
    let rest = ended_sessions table (session_invalidate s memory).1 in
    rw (ended_session s memory) (omega arith)

-- `bridge_destroy` of a bridge in use ends each of its connections, and takes as many users off a
-- segment as the process had connections to it; the segment goes when no user is left.
pub bridge_destroy_lem :
    (b : Bridge) (memory : Memory)
    → b.is_initialized ≡ true
    → (b' : Bridge) × (memory' : Memory) × (bridge_destroy b memory ≡ some (b', memory'))
      × (connections b'.session_table ≡ 0)
      × ((id : ℕ) (s : Segment)
          → memory id ≡ some s
          → 0 < s.open_count
          → uses id b.session_table ≤ s.open_count
          → s.open_count < size_modulus
          → memory' id ≡ without (uses id b.session_table) s)
unfolding bridge_destroy
bridge_destroy_lem b memory e = (
  record b { session_table = (session_table_destroy b.session_table memory).0 },
  (session_table_destroy b.session_table memory).1,
  rw e refl,
  ended_sessions b.session_table memory,
  λ id s. session_table_destroy_lem b.session_table memory id s,
)
