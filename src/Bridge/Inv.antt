-- ===== src/Bridge/Inv.antt =====
-- The bridge of source/tssx/bridge.c as a map from descriptors to connections, and its invariant.
use tssx.Base.{
  ℕ, ◌+◌, ◌≤◌, ◌<◌, ◌≡◌, ◌≢◌, refl, sym, ap, ◌∙◌, Option, none, some, Bool, true, false, ltb,
  if◌then◌else◌, Bool-cases, Option-cases, inl, inr, add_size, sub_size, get_elem?, length, set,
  length-set, arith, get_elem?-exists, get_elem?-set, get_elem?-set_other,
}
use tssx.Connection.{Connection, Memory, disconnect}
use tssx.Bridge.{
  Session, Bridge, session_table_size, session_has_connection, session_table_get,
  session_table_assign, lazy_bridge_setup, bridge_setup, bridge_insert, insert_ready, erase_ready,
  lookup_ready, bridge_erase, bridge_lookup, bridge_has_connection, session_invalidate,
}
use tssx.Bridge.Users.{connections, connections-set, connections_le, session_table_setup_id}

-- The table has FD_SETSIZE sessions, the count is that of those with a connection, and there is none
-- before the setup.
pub record IsValid (b : Bridge) : Type 0 where
  pub width : length b.session_table ≡ session_table_size
  pub counted : b.connection_count ≡ connections b.session_table
  pub fresh : b.is_initialized ≡ false → b.connection_count ≡ 0

-- The connection of a descriptor.
abbrev pub connection_at : Bridge → ℕ → Option Connection
connection_at b fd = elim (get_elem? b.session_table fd) [ none ↦ none | some s ↦ s.connection ]

module _ {b : Bridge} (v : IsValid b) where
  abbrev pub ready : Bridge
  ready = record b { is_initialized = true }

  pub ready-IsValid : IsValid ready
  ready-IsValid = record { width = v.width; counted = v.counted; fresh = λ e. absurd cc }

  -- The lazy setup changes nothing but the flag.
  pub lazy_bridge_setup_lem : lazy_bridge_setup b ≡ ready
  unfolding lazy_bridge_setup bridge_setup
  lazy_bridge_setup_lem = elim (Bool-cases b.is_initialized) [
    | inl e ↦
        let p : lazy_bridge_setup b ≡ b = ap (λ i. if i then b else bridge_setup b) e in
        p ∙ ap (λ i. record b { is_initialized = i }) e
    | inr e ↦
        let z = v.fresh e in
        let t = session_table_setup_id b.session_table (sym v.counted ∙ z) in
        let p : lazy_bridge_setup b ≡ bridge_setup b =
          ap (λ i. if i then b else bridge_setup b) e in
        p
        ∙ ap (λ t. record { is_initialized = true; connection_count = 0; session_table = t }) t
        ∙ ap (λ n. record b { is_initialized = true; connection_count = n }) (sym z)
  ]

  session_at :
      (fd : ℕ)
      → fd < session_table_size
      → (s : Session) × (get_elem? b.session_table fd ≡ some s)
        × (session_table_get b.session_table fd ≡ some s)
        × (connection_at b fd ≡ s.connection)
  unfolding session_table_get
  session_at fd l =
      let (s, e) = get_elem?-exists b.session_table fd (omega (arith, v.width)) in
      let t : ltb fd session_table_size ≡ true = ground arith in
      (s, e, rw t e, ap (λ o. elim o [ none ↦ none | some s ↦ s.connection ]) e)

  -- A lookup of a descriptor in the table gives its connection, and says whether there is one.
  pub bridge_lookup_lem :
      (fd : ℕ)
      → fd < session_table_size
      → (b' : Bridge) × (s : Session) × (bridge_lookup b fd ≡ some (b', s))
        × (bridge_has_connection b fd ≡ some (b', session_has_connection s))
        × (s.connection ≡ connection_at b fd)
        × IsValid b'
        × ((j : ℕ) → connection_at b' j ≡ connection_at b j)
  unfolding bridge_lookup bridge_has_connection lookup_ready
  bridge_lookup_lem fd l =
      let (s, e, g, c) = session_at fd l in
      let found : lookup_ready ready fd ≡ some (ready, s) = rw (lookup_ready, g) in
      let seen : bridge_lookup b fd ≡ some (ready, s) =
        ap (λ r. lookup_ready r fd) lazy_bridge_setup_lem ∙ found in
      (
        ready,
        s,
        seen,
        ap (λ o. elim o [ none ↦ none | some (b', s) ↦ some (b', session_has_connection s) ]) seen,
        sym c,
        ready-IsValid,
        λ j. refl,
      )

  -- The table with another session for a descriptor, and the count that goes with it.
  changed :
      (fd n : ℕ) (old new : Session)
      → fd < session_table_size
      → get_elem? b.session_table fd ≡ some old
      → n + (if session_has_connection old then 1 else 0)
        ≡ b.connection_count + (if session_has_connection new then 1 else 0)
      → let b' : Bridge = record {
        is_initialized = true;
        connection_count = n;
        session_table = set b.session_table fd new;
      } in
        IsValid b'
        × (connection_at b' fd ≡ new.connection)
        × ((j : ℕ) → j ≢ fd → connection_at b' j ≡ connection_at b j)
  changed fd n old new l e c = (
    record {
      width = length-set b.session_table fd new ∙ v.width;
      counted =
          let k = connections-set b.session_table fd old new e in omega (arith, k, c, v.counted);
      fresh = λ e. absurd cc;
    },
    ap (λ o. elim o [ none ↦ none | some s ↦ s.connection ])
        (get_elem?-set b.session_table fd new (omega (arith, v.width))),
    λ j d.
        ap (λ o. elim o [ none ↦ none | some s ↦ s.connection ])
          (get_elem?-set_other b.session_table fd j new d),
  )

  -- `bridge_insert` at a descriptor without a connection puts the session there and leaves the other
  -- descriptors alone; the bridge stays valid.
  pub bridge_insert_lem :
      (fd : ℕ) (session : Session)
      → fd < session_table_size
      → connection_at b fd ≡ none
      → (b' : Bridge) × (bridge_insert b fd session ≡ some b')
        × IsValid b'
        × (connection_at b' fd ≡ session.connection)
        × ((j : ℕ) → j ≢ fd → connection_at b' j ≡ connection_at b j)
  unfolding bridge_insert insert_ready session_table_assign session_has_connection
  bridge_insert_lem fd session l free =
      let (s, e, g, c) = session_at fd l in
      let t : session_has_connection s ≡ false =
        ap (λ o. elim o [ none ↦ false | some _ ↦ true ]) (sym c ∙ free) in
      let n =
        if session_has_connection session
        then add_size b.connection_count 1
        else b.connection_count in
      let small : b.connection_count ≤ session_table_size =
        let le = connections_le b.session_table in omega (arith, le, v.counted, v.width) in
      let sum : n + (if session_has_connection s then 1 else 0)
          ≡ b.connection_count + (if session_has_connection session then 1 else 0) =
        rw t (elim (Bool-cases (session_has_connection session)) [
          | inl u ↦ rw u (omega arith)
          | inr u ↦ rw u (omega arith)
        ]) in
      let (v', here, there) = changed fd n s session l e sum in
      let put : insert_ready ready fd session
          ≡ some (record {
            is_initialized = true;
            connection_count = n;
            session_table = set b.session_table fd session;
          }) =
        rw (insert_ready, session_table_assign, g, t) in
      (_, ap (λ r. insert_ready r fd session) lazy_bridge_setup_lem ∙ put, v', here, there)

  -- `bridge_erase` takes the descriptor's connection off, disconnects it, and leaves the other
  -- descriptors alone; the bridge stays valid.
  pub bridge_erase_lem :
      (fd : ℕ) (memory : Memory)
      → fd < session_table_size
      → (b' : Bridge) × (bridge_erase b fd memory
          ≡ some
              (b', elim (connection_at b fd) [ none ↦ memory | some c ↦ (disconnect c memory).1 ]))
        × IsValid b'
        × (connection_at b' fd ≡ none)
        × ((j : ℕ) → j ≢ fd → connection_at b' j ≡ connection_at b j)
  unfolding bridge_erase erase_ready session_has_connection session_invalidate
  bridge_erase_lem fd memory l =
      let (s, e, g, c) = session_at fd l in
      let outcome : Bool → Session × Memory → Option (Bridge × Memory) = λ had left. some (
        record {
          is_initialized = true;
          connection_count = if had then sub_size b.connection_count 1 else b.connection_count;
          session_table = set b.session_table fd left.0;
        },
        left.1,
      ) in
      let run : bridge_erase b fd memory
          ≡ outcome (session_has_connection s) (session_invalidate s memory) =
        ap (λ r. erase_ready r fd memory) lazy_bridge_setup_lem ∙ rw (erase_ready, g) refl in
      let forgotten : Option Connection → Session × Memory = λ o. elim o [
        | none ↦ (s, memory)
        | some k ↦ (record { connection = none }, (disconnect k memory).1)
      ] in
      let freed : Option Connection → Memory =
        λ o. elim o [ none ↦ memory | some k ↦ (disconnect k memory).1 ] in
      let has : Option Connection → Bool = λ o. elim o [ none ↦ false | some _ ↦ true ] in
      elim (Option-cases s.connection) [
        | inl n ↦
            let (v', here, there) = changed fd b.connection_count s s l e refl in
            (
              _,
              run
                  ∙ ap (λ o. outcome (has o) (forgotten o)) n
                  ∙ ap (λ m. outcome false (s, m)) (sym (ap freed (c ∙ n))),
              v',
              here ∙ n,
              there,
            )
        | inr (k, n) ↦
            let t : session_has_connection s ≡ true = ap has n in
            let gone : Session = record { connection = none } in
            let one = connections-set b.session_table fd s gone e in
            let sum : sub_size b.connection_count 1 + (if session_has_connection s then 1 else 0)
                ≡ b.connection_count + 0 =
              let le = connections_le b.session_table in
              let one' = rw t at one in rw t (omega (arith, one', le, v.counted, v.width)) in
            let (v', here, there) = changed fd (sub_size b.connection_count 1) s gone l e sum in
            (
              _,
              run
                  ∙ ap (λ o. outcome (has o) (forgotten o)) n
                  ∙ ap (λ m. outcome true (gone, m)) (sym (ap freed (c ∙ n))),
              v',
              here,
              there,
            )
      ]
