-- ===== src/Epoll/Control.antt =====
-- `epoll_ctl` of source/tssx/epoll-overrides.c on the instances of a process: the descriptor's connection
-- is looked up in the bridge, and the instance of the epoll descriptor is changed.
use tssx.Base.{
  ℕ, ◌+◌, ◌^◌, ◌<◌, ◌≡◌, ◌≢◌, refl, sym, ap, ◌∙◌, true, none, ◌==◌, ◌||◌, Bool-cases, eq_of_some,
  Option-cases, some, inl, inr, List, [], ◌∷◌, length, get_elem?, get_elem?-set,
  get_elem?-set_other, length-set, set, arith,
}
use tssx.Connection.{Connection}
use tssx.Bridge.{Bridge, Session, session_table_size, session_has_connection, bridge_lookup}
use tssx.Bridge.Inv
use tssx.Bridge.Inv.{connection_at, bridge_lookup_lem}
use tssx.Epoll.{
  EpollEvent, EpollEntry, EpollInstance, EpollStatus, EpollOperation, ctl_add, ctl_mod, ctl_del,
  ctl_other, epoll_tssx_control_operation, epoll_ctl, epoll_add_to_instance, epoll_set_first_entry,
  epoll_push_back_entry, update_entry, erase_entry, erase_asserts, epoll_update_instance,
  epoll_erase_from_instance, epoll_erase_first_from_instance, update_found, erase_found,
}
use tssx.Epoll.Instances.{IsValid, registered, Asserts, Does, control_lem}
use tssx.Epoll.Table.{EpollTable, control_allowed, control_found, epoll_ctl_call}
use tssx.Epoll.Closing.{IsReady}
use tssx.Epoll.Waiting.{number_of_epoll_instances}

allowed :
    (inst : EpollInstance) (operation : EpollOperation) (fd : ℕ)
    → Asserts inst operation fd
    → control_allowed inst operation true ≡ true
unfolding control_allowed
allowed inst ctl_add fd there = refl
allowed inst ctl_mod fd (inl e) = absurd (let f : ctl_mod ≡ ctl_add = e in cc)
allowed inst ctl_mod fd (inr (there, _)) = ground arith
allowed inst ctl_del fd (inl e) = absurd (let f : ctl_del ≡ ctl_add = e in cc)
allowed inst ctl_del fd (inr (there, _)) = ground arith
allowed inst ctl_other fd there = refl

erased_first :
    (inst : EpollInstance) (entries : List EpollEntry)
    → inst.entries ≡ entries
    → (epoll_erase_first_from_instance inst).1.normal_count ≡ inst.normal_count
unfolding epoll_erase_first_from_instance
erased_first inst [] e = ground (arith, e)
erased_first inst (entry ∷ entries) e = ground (arith, e)

update-normal :
    (inst : EpollInstance) (fd : ℕ) (event : EpollEvent)
    → (update_entry inst fd event).1.normal_count ≡ inst.normal_count
unfolding update_entry
update-normal inst fd event = elim (Option-cases (update_found fd event inst.entries)) [
  | inl n ↦ ground arith
  | inr (_, n) ↦ ground arith
]

erase-normal :
    (inst : EpollInstance) (fd : ℕ) → (erase_entry inst fd).1.normal_count ≡ inst.normal_count
unfolding erase_entry
erase-normal inst fd =
    let kept = erased_first inst inst.entries refl in
    elim (Option-cases (erase_found fd inst.entries)) [
      | inl n ↦ ground arith
      | inr (_, n) ↦ ground arith
    ]

-- The count of the other descriptors is left alone.
normal_kept :
    (inst : EpollInstance) (operation : EpollOperation) (fd : ℕ) (event : EpollEvent)
    (c : Connection) (r : EpollStatus × EpollInstance)
    → epoll_tssx_control_operation inst operation fd event c ≡ some r
    → r.1.normal_count ≡ inst.normal_count
unfolding epoll_tssx_control_operation epoll_add_to_instance epoll_set_first_entry
    epoll_push_back_entry epoll_update_instance epoll_erase_from_instance
normal_kept inst ctl_add fd event c r run =
    ap (λ r. r.1.normal_count) (sym (eq_of_some run)) ∙ ground arith
normal_kept inst ctl_mod fd event c r run =
    elim (Bool-cases ((fd == inst.first.fd) || inst.is_set_up)) [
      | inl t ↦
          ap (λ r. r.1.normal_count) (sym (eq_of_some (rw (epoll_update_instance, t) at run)))
          ∙ update-normal inst fd event
      | inr t ↦ absurd (let e : none ≡ some r = rw (epoll_update_instance, t) at run in cc)
    ]
normal_kept inst ctl_del fd event c r run = elim (Bool-cases (erase_asserts inst fd)) [
  | inl t ↦
      ap (λ r. r.1.normal_count) (sym (eq_of_some (rw (epoll_erase_from_instance, t) at run)))
      ∙ erase-normal inst fd
  | inr t ↦ absurd (let e : none ≡ some r = rw (epoll_erase_from_instance, t) at run in cc)
]
normal_kept inst ctl_other fd event c r run = ap (λ r. r.1.normal_count) (sym (eq_of_some run))

module _ {table : EpollTable} (ready : IsReady table) {b : Bridge} (v : Inv.IsValid b) (epfd : ℕ)
    (in_range : epfd < number_of_epoll_instances) (inst : EpollInstance)
    (at : get_elem? table.instances epfd ≡ some inst) (operation : EpollOperation) (fd : ℕ)
    (event : EpollEvent) (answer : EpollStatus) (in_table : fd < session_table_size) where
  found :
      (b' : Bridge) (session : Session)
      → bridge_lookup b fd ≡ some (b', session)
      → epoll_ctl_call table b epfd operation fd event answer
        ≡ control_found table b' epfd operation fd event answer session inst
  unfolding epoll_ctl_call
  found b' session run = simp (epoll_ctl_call, ready.initialized, run, at) refl

  connected_run :
      (b' : Bridge) (session : Session) (c : Connection) (r : EpollStatus × EpollInstance)
      → session.connection ≡ some c
      → Asserts inst operation fd
      → epoll_tssx_control_operation inst operation fd event c ≡ some r
      → control_found table b' epfd operation fd event answer session inst
        ≡ some (r.0, record table { instances = set table.instances epfd r.1 }, b')
  unfolding control_found epoll_ctl session_has_connection
  connected_run b' session c r e there run =
      let ok = allowed inst operation fd there in
      ap
        (λ o.
          control_found table b' epfd operation fd event answer (record { connection = o }) inst)
        e
      ∙ rw ok (
          ap
            (λ o. elim o [
              | none ↦ none
              | some (status, inst') ↦
                  some (status, record table { instances = set table.instances epfd inst' }, b')
            ])
            run)

  -- `epoll_ctl` of a connected descriptor, on an instance that counts its descriptors, where it is ADD, or
  -- the instance has one and either the descriptor is the first or the vector is set up, returns. It
  -- does to the list of the instance's connected descriptors what
  -- the operation says, and leaves the instance valid, the other instances as they were, and the
  -- connections of the bridge too; the real call is not made.
  pub epoll_ctl_call_lem :
      (c : Connection)
      → connection_at b fd ≡ some c
      → IsValid inst
      → Asserts inst operation fd
      → inst.tssx_count + 1 < 2 ^ 62
      → (status : EpollStatus) × (table' : EpollTable) × (b' : Bridge) × (inst' : EpollInstance)
        × (epoll_ctl_call table b epfd operation fd event answer ≡ some (status, table', b'))
        × (get_elem? table'.instances epfd ≡ some inst')
        × Does operation fd event c (registered inst) status (registered inst')
        × IsValid inst'
        × (inst'.normal_count ≡ inst.normal_count)
        × ((j : ℕ) → j ≢ epfd → get_elem? table'.instances j ≡ get_elem? table.instances j)
        × IsReady table'
        × ((j : ℕ) → connection_at b' j ≡ connection_at b j)
  epoll_ctl_call_lem c connected valid there small =
      let (b', session, run, _, q, _, same) = bridge_lookup_lem v fd in_table in
      let (r, ran, does, valid') = control_lem inst operation fd event c valid there small in
      let inside : epfd < length table.instances = omega (arith, ready.width) in
      (
        r.0,
        record table { instances = set table.instances epfd r.1 },
        b',
        r.1,
        found b' session run ∙ connected_run b' session c r (q ∙ connected) there ran,
        get_elem?-set table.instances epfd r.1 inside,
        does,
        valid',
        normal_kept inst operation fd event c r ran,
        λ j d. get_elem?-set_other table.instances epfd j r.1 d,
        record {
          width = length-set table.instances epfd r.1 ∙ ready.width;
          initialized = ready.initialized;
        },
        same,
      )
