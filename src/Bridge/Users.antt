-- ===== src/Bridge/Users.antt =====
-- Who counts as a user of a segment: the sessions of source/tssx/bridge.c over the segments of
-- source/tssx/connection.c.
use tssx.Base.{
  ℕ, zero, suc, ◌+◌, ◌-◌, ◌≤◌, ◌<◌, ◌≡◌, refl, sym, ap, ◌∙◌, Option, none, some, true, false, [],
  ◌∷◌, ◌==◌, if◌then◌else◌, Bool-cases, Option-cases, eq_of_some, inl, inr, ◌⊎◌, subst, add_size,
  sub_size, size_modulus, get_elem?, length, set, arith,
}
use tssx.Connection.{Connection, Memory, Segment, change, leave, connection_add_user, disconnect}
use tssx.Bridge.{
  Session, SessionTable, add_users, session_table_destroy, session_invalidate,
  session_has_connection, session_table_setup, session_setup,
}

-- 1 for a connection to the segment.
abbrev pub use_of : ℕ → Option Connection → ℕ
use_of id none = 0
use_of id (some c) = elim c.segment_id [ none ↦ 0 | some i ↦ if id == i then 1 else 0 ]

-- The sessions connected to the segment.
unfoldable pub uses : ℕ → SessionTable → ℕ
uses id [] = 0
uses id (s ∷ table) = use_of id s.connection + uses id table

-- The sessions with a connection.
unfoldable pub connections : SessionTable → ℕ
connections [] = 0
connections (s ∷ table) = (if session_has_connection s then 1 else 0) + connections table

-- The segment with another count of users.
abbrev pub with_count : Segment → ℕ → Segment
with_count s n = record s { open_count = n }

-- What is left of a segment when `n` of its users have gone.
abbrev pub without : ℕ → Segment → Option Segment
without n s = if s.open_count == n then none else some (with_count s (s.open_count - n))

-- A change by a connection changes the segment that it points to and no other.
change_cases :
    (f : Segment → Option Segment) (c : Connection) (memory : Memory) (id : ℕ) (s : Segment)
    → memory id ≡ some s
    → ((use_of id (some c) ≡ 0) × (change c f memory id ≡ some s))
      ⊎ ((use_of id (some c) ≡ 1) × (change c f memory id ≡ f s))
change_cases f c memory id s e = by_segment c.segment_id
  where
    by_segment :
        (o : Option ℕ)
        → let c' : Connection = record { segment_id = o } in
          ((use_of id (some c') ≡ 0) × (change c' f memory id ≡ some s))
          ⊎ ((use_of id (some c') ≡ 1) × (change c' f memory id ≡ f s))
    by_segment none = inl (refl, e)
    by_segment (some i) = elim (Bool-cases (id == i)) [
      | inl t ↦
          let at : memory i ≡ some s = subst (λ j. memory j ≡ some s) (ground arith) e in
          inr (rw t, rw (change, at, t))
      | inr t ↦ inl (
        rw t,
        elim (Option-cases (memory i)) [
          | inl n ↦ rw (change, n) e
          | inr (s', n) ↦ rw (change, n, t) e
        ],
      )
    ]

-- A change by a connection makes no segment where there is none.
change-none :
    (f : Segment → Option Segment) (c : Connection) (memory : Memory) (id : ℕ)
    → memory id ≡ none
    → change c f memory id ≡ none
change-none f c memory id e = by_segment c.segment_id
  where
    by_segment : (o : Option ℕ) → change (record { segment_id = o }) f memory id ≡ none
    by_segment none = e
    by_segment (some i) = elim (Option-cases (memory i)) [
      | inl n ↦ rw (change, n) e
      | inr (s', n) ↦ elim (Bool-cases (id == i)) [
        | inl t ↦
            let at : memory i ≡ none = subst (λ j. memory j ≡ none) (ground arith) e in absurd cc
        | inr t ↦ rw (change, n, t) e
      ]
    ]

add_one :
    (c : Connection) (memory : Memory) (id : ℕ) (s : Segment)
    → memory id ≡ some s
    → s.open_count + use_of id (some c) < size_modulus
    → connection_add_user c memory id ≡ some (with_count s (s.open_count + use_of id (some c)))
unfolding connection_add_user
add_one c memory id s e l =
    elim (change_cases (λ s. some (record s { open_count = add_size s.open_count 1 })) c memory id s
      e) [
        | inl (u, p) ↦ p ∙ ap (λ n. some (with_count s n)) (omega arith)
        | inr (u, p) ↦ p ∙ ap (λ n. some (with_count s n)) (omega arith)
      ]

leave_one :
    (c : Connection) (memory : Memory) (id : ℕ) (s : Segment)
    → memory id ≡ some s
    → 0 < s.open_count
    → s.open_count < size_modulus
    → (disconnect c memory).1 id ≡ without (use_of id (some c)) s
unfolding disconnect
leave_one c memory id s e pos l = elim (change_cases leave c memory id s e) [
  | inl (u, p) ↦
      let t : s.open_count == 0 ≡ false = ground arith in
      p ∙ sym (ap (λ n. without n s) u ∙ rw t (ap (λ n. some (with_count s n)) (omega arith)))
  | inr (u, p) ↦
      let one : sub_size s.open_count 1 ≡ s.open_count - 1 = omega arith in
      let t : s.open_count - 1 == 0 ≡ s.open_count == 1 = ground arith in
      p
      ∙ ap (λ m. if m == 0 then none else some (with_count s m)) one
      ∙ ap (λ b. if b then none else some (with_count s (s.open_count - 1))) t
      ∙ sym (ap (λ n. without n s) u)
]

-- The loop of `bridge_add_user` counts this process's sessions on a segment once more.
pub add_users_lem :
    (table : SessionTable) (memory : Memory) (id : ℕ) (s : Segment)
    → memory id ≡ some s
    → s.open_count + uses id table < size_modulus
    → add_users table memory id ≡ some (with_count s (s.open_count + uses id table))
unfolding add_users uses
add_users_lem [] memory id s e l = e ∙ ap (λ n. some (with_count s n)) (omega arith)
add_users_lem (session ∷ table) memory id s e l = elim (Option-cases session.connection) [
  | inl n ↦
      let l' = subst (λ c. s.open_count + (use_of id c + uses id table) < size_modulus) n l in
      rw n (
        add_users_lem table memory id s e (omega arith)
        ∙ ap (λ n. some (with_count s n)) (omega arith))
  | inr (c, n) ↦
      let k = s.open_count + use_of id (some c) in
      let l' = subst (λ c. s.open_count + (use_of id c + uses id table) < size_modulus) n l in
      let q = add_one c memory id s e (omega arith) in
      rw n (
        add_users_lem table (connection_add_user c memory) id (with_count s k) q (omega arith)
        ∙ ap (λ n. some (with_count s n)) (omega arith))
]

pub add_users-none :
    (table : SessionTable) (memory : Memory) (id : ℕ)
    → memory id ≡ none
    → add_users table memory id ≡ none
unfolding add_users connection_add_user
add_users-none [] memory id e = e
add_users-none (session ∷ table) memory id e = elim (Option-cases session.connection) [
  | inl n ↦ rw n (add_users-none table memory id e)
  | inr (c, n) ↦
      rw n (add_users-none table (connection_add_user c memory) id (change-none _ c memory id e))
]

after_leave :
    (table : SessionTable) (c : Connection) (memory : Memory) (id : ℕ) (s : Segment)
    → memory id ≡ some s
    → 0 < s.open_count
    → use_of id (some c) + uses id table ≤ s.open_count
    → s.open_count < size_modulus
    → let left = (disconnect c memory).1 in
      ((s' : Segment)
        → left id ≡ some s'
        → 0 < s'.open_count
        → uses id table ≤ s'.open_count
        → s'.open_count < size_modulus
        → (session_table_destroy table left).1 id ≡ without (uses id table) s')
      → (left id ≡ none → (session_table_destroy table left).1 id ≡ none)
      → (session_table_destroy table left).1 id ≡ without (use_of id (some c) + uses id table) s
after_leave table c memory id s e pos le l go gone =
    let left = (disconnect c memory).1 in
    let q = leave_one c memory id s e pos l in
    elim (Bool-cases (s.open_count == use_of id (some c))) [
      | inl t ↦
          let last : left id ≡ none = q ∙ rw t in
          let u : s.open_count == use_of id (some c) + uses id table ≡ true = ground arith in
          gone last ∙ rw u
      | inr t ↦
          let k = s.open_count - use_of id (some c) in
          let rest : left id ≡ some (with_count s k) = q ∙ rw t in
          let u : s.open_count == use_of id (some c) + uses id table ≡ k == uses id table =
            ground arith in
          go (with_count s k) rest (ground arith) (omega arith) (omega arith)
          ∙ ap (λ b. if b then none else some (with_count s (k - uses id table))) (sym u)
          ∙ ap
              (λ n.
                if s.open_count == use_of id (some c) + uses id table
                then none
                else some (with_count s n))
              (omega arith)
    ]

pub session_table_destroy-none :
    (table : SessionTable) (memory : Memory) (id : ℕ)
    → memory id ≡ none
    → (session_table_destroy table memory).1 id ≡ none
unfolding session_table_destroy session_invalidate disconnect
session_table_destroy-none [] memory id e = e
session_table_destroy-none (session ∷ table) memory id e = elim (Option-cases session.connection) [
  | inl n ↦ rw n (session_table_destroy-none table memory id e)
  | inr (c, n) ↦ rw n (
      session_table_destroy-none table (disconnect c memory).1 id (change-none leave c memory id e))
]

-- The end of all sessions takes this process's sessions off the count of a segment, and removes it
-- where no user is left.
pub session_table_destroy_lem :
    (table : SessionTable) (memory : Memory) (id : ℕ) (s : Segment)
    → memory id ≡ some s
    → 0 < s.open_count
    → uses id table ≤ s.open_count
    → s.open_count < size_modulus
    → (session_table_destroy table memory).1 id ≡ without (uses id table) s
unfolding session_table_destroy session_invalidate uses
session_table_destroy_lem [] memory id s e pos le l =
    let t : s.open_count == 0 ≡ false = ground arith in
    e ∙ sym (rw t (ap (λ n. some (with_count s n)) (omega arith)))
session_table_destroy_lem (session ∷ table) memory id s e pos le l =
    elim (Option-cases session.connection) [
      | inl n ↦
          let le' = subst (λ c. use_of id c + uses id table ≤ s.open_count) n le in
          rw n (
            session_table_destroy_lem table memory id s e pos (omega arith) l
            ∙ ap (λ n. without n s) (omega arith))
      | inr (c, n) ↦
          let le' = subst (λ c. use_of id c + uses id table ≤ s.open_count) n le in
          rw n (
            after_leave table c memory id s e pos le' l
              (session_table_destroy_lem table (disconnect c memory).1 id)
              (session_table_destroy-none table (disconnect c memory).1 id))
    ]

pub uses_le : (id : ℕ) (table : SessionTable) → uses id table ≤ connections table
unfolding uses connections session_has_connection
uses_le id [] = omega arith
uses_le id (session ∷ table) =
    let l = uses_le id table in
    elim (Option-cases session.connection) [
      | inl n ↦ rw n (omega arith)
      | inr (c, n) ↦ rw n (one c l)
    ]
  where
    one :
        (c : Connection)
        → uses id table ≤ connections table
        → use_of id (some c) + uses id table ≤ 1 + connections table
    one c l = elim (Option-cases c.segment_id) [
      | inl n ↦ rw n (omega arith)
      | inr (i, n) ↦
          rw n (elim (Bool-cases (id == i)) [
            | inl t ↦ rw t (omega arith)
            | inr t ↦ rw t (omega arith)
          ])
    ]

-- A change of one session.
pub connections-set :
    (table : SessionTable) (fd : ℕ) (old new : Session)
    → get_elem? table fd ≡ some old
    → connections (set table fd new) + (if session_has_connection old then 1 else 0)
      ≡ connections table + (if session_has_connection new then 1 else 0)
unfolding connections
connections-set [] fd old new e = absurd (ground arith)
connections-set (s ∷ table) zero old new e =
    let p : s ≡ old = eq_of_some e in
    ap
      (λ o.
        (if session_has_connection new then 1 else 0)
        + connections table
        + (if session_has_connection o then 1 else 0))
      (sym p)
    ∙ omega arith
connections-set (s ∷ table) (suc fd) old new e =
    let h = connections-set table fd old new e in omega arith

pub connections-set_up : (table : SessionTable) → connections (session_table_setup table) ≡ 0
unfolding session_table_setup session_setup connections session_has_connection
connections-set_up [] = refl
connections-set_up (s ∷ table) = let h = connections-set_up table in omega arith

pub connections_le : (table : SessionTable) → connections table ≤ length table
unfolding connections
connections_le [] = omega arith
connections_le (s ∷ table) =
    let l = connections_le table in
    elim (Bool-cases (session_has_connection s)) [
      | inl t ↦ rw t (omega arith)
      | inr t ↦ rw t (omega arith)
    ]

-- A table without connections is what its setup makes of it.
pub session_table_setup_id :
    (table : SessionTable) → connections table ≡ 0 → session_table_setup table ≡ table
unfolding connections session_table_setup session_setup session_has_connection
session_table_setup_id [] e = refl
session_table_setup_id (s ∷ table) e = elim (Option-cases s.connection) [
  | inl n ↦
      let q : s ≡ record { connection = none } = ap (λ c. record { connection = c }) n in
      let rest : connections table ≡ 0 = omega arith in
      ap (λ t. record { connection = none } ∷ t) (session_table_setup_id table rest)
      ∙ ap (λ x. x ∷ table) (sym q)
  | inr (c, n) ↦ let q : session_has_connection s ≡ true = rw n in absurd (ground (arith, q))
]
