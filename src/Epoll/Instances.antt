-- ===== src/Epoll/Instances.antt =====
-- The descriptors of an epoll instance of source/tssx/epoll-overrides.c as one list.
use mathlib.Core.List.{Perm}
use mathlib.Core.List.Perm
use tssx.Base.{
  ℕ, suc, ◌+◌, ◌^◌, ◌<◌, ◌≡◌, ◌≢◌, refl, sym, ap, subst, ◌∙◌, ◌&&◌, ◌||◌, true, false, Bool-cases,
  Option, Option-cases, none, some, eq_of_some, List, [], ◌∷◌, ◌++◌, length, length-append, ltb,
  ◌==◌, if◌then◌else◌, ◌⊎◌, inl, inr, sub_size, arith,
}
use tssx.Connection.{Connection}
use tssx.Epoll.{
  EpollEvent, EpollEntry, EpollInstance, EpollStatus, success, error, EpollOperation, ctl_add,
  ctl_mod, ctl_del, ctl_other, new_entry, renew, epoll_set_first_entry, epoll_push_back_entry,
  epoll_add_to_instance, update_found, update_entry, epoll_update_instance, erase_entry,
  erase_asserts, split_last, erase_found, epoll_erase_first_from_instance,
  epoll_erase_from_instance, epoll_tssx_control_operation,
}

-- The connected descriptors of an instance.
unfoldable pub registered : EpollInstance → List EpollEntry
registered inst = if inst.tssx_count == 0 then [] else inst.first ∷ inst.entries

-- The count is that of the descriptors, of which one is in the field unless there is none; with more
-- than one the vector is set up.
pub record IsValid (inst : EpollInstance) : Type 0 where
  pub counted :
      ((inst.tssx_count ≡ 0) × (inst.entries ≡ [])) ⊎ (inst.tssx_count ≡ suc (length inst.entries))
  pub small : inst.tssx_count < 2 ^ 62
  pub has_block : 1 < inst.tssx_count → inst.is_set_up ≡ true

-- What an update of the list comes to, and what an erasure does, which keeps no order.
abbrev Changed : Option (List EpollEntry) → EpollStatus → List EpollEntry → List EpollEntry → Type 0
Changed none status before after = (status ≡ error) × (after ≡ before)
Changed (some changed) status before after = (status ≡ success) × (after ≡ changed)

abbrev Erased : Option (List EpollEntry) → EpollStatus → List EpollEntry → List EpollEntry → Type 0
Erased none status before after = (status ≡ error) × (after ≡ before)
Erased (some left) status before after = (status ≡ success) × Perm after left

-- No entry is of the descriptor.
abbrev pub Absent : ℕ → List EpollEntry → Type 0
Absent fd [] = Unit
Absent fd (entry ∷ entries) = (entry.fd ≢ fd) × Absent fd entries

-- An entry that reports everything the event asks for and has reported nothing.
abbrev pub fresh_entry : ℕ → EpollEvent → Connection → EpollEntry
fresh_entry fd event connection = record {
  fd = fd;
  event = event;
  connection = connection;
  enabled = true;
  read_edge = false;
  write_edge = false;
}

-- The first entry of the descriptor stands between `xs` and `ys`.
pub record First (fd : ℕ) (entries : List EpollEntry) : Type 0 where
  pub xs : List EpollEntry
  pub entry : EpollEntry
  pub ys : List EpollEntry
  pub parts : entries ≡ xs ++ (entry ∷ ys)
  pub is_it : entry.fd ≡ fd
  pub before : Absent fd xs

-- What an operation does to a list of descriptors.
abbrev pub Does :
    EpollOperation
    → ℕ
    → EpollEvent
    → Connection
    → List EpollEntry
    → EpollStatus
    → List EpollEntry
    → Type 0
Does ctl_add fd event c before status after =
    (status ≡ success) × (after ≡ before ++ (fresh_entry fd event c ∷ []))
Does ctl_mod fd event c before status after =
    ((p : First fd before) × (status ≡ success)
      × (after ≡ p.xs ++ (fresh_entry fd event p.entry.connection ∷ p.ys)))
    ⊎ (Absent fd before × (status ≡ error) × (after ≡ before))
Does ctl_del fd event c before status after =
    ((p : First fd before) × (status ≡ success) × Perm after (p.xs ++ p.ys))
    ⊎ (Absent fd before × (status ≡ error) × (after ≡ before))
Does ctl_other fd event c before status after = (status ≡ error) × (after ≡ before)

-- The entries with another one in front of them.
behind :
    {fd : ℕ} {entries : List EpollEntry} (entry : EpollEntry)
    → entry.fd ≢ fd
    → First fd entries
    → First fd (entry ∷ entries)
behind entry d p = record {
  xs = entry ∷ p.xs;
  entry = p.entry;
  ys = p.ys;
  parts = ap (λ l. entry ∷ l) p.parts;
  is_it = p.is_it;
  before = (d, p.before);
}

-- The search of an update renews the first entry of the descriptor, if there is one.
Renewed : ℕ → EpollEvent → List EpollEntry → Option (List EpollEntry) → Type 0
Renewed fd event entries none = Absent fd entries
Renewed fd event entries (some changed) =
    (p : First fd entries) × (changed ≡ p.xs ++ (fresh_entry fd event p.entry.connection ∷ p.ys))

update_found_lem :
    (fd : ℕ) (event : EpollEvent) (entries : List EpollEntry)
    → Renewed fd event entries (update_found fd event entries)
unfolding update_found Renewed behind
update_found_lem fd event [] = tt
update_found_lem fd event (entry ∷ entries) = elim (Bool-cases (entry.fd == fd)) [
  | inl t ↦
      let same : entry.fd ≡ fd = ground arith in
      let p : update_found fd event (entry ∷ entries) ≡ some (renew event entry ∷ entries) =
        rw (update_found, t) refl in
      subst (Renewed fd event (entry ∷ entries)) (sym p) (
        record { xs = []; entry = entry; ys = entries; parts = refl; is_it = same; before = tt },
        ap (λ n. fresh_entry n event entry.connection ∷ entries) same,
      )
  | inr t ↦
      let other : entry.fd ≢ fd = λ e. absurd (ground (arith, t, e)) in
      let rest = update_found_lem fd event entries in
      elim (Option-cases (update_found fd event entries)) [
        | inl n ↦
            let p : update_found fd event (entry ∷ entries) ≡ none = rw (update_found, t, n) refl in
            subst (Renewed fd event (entry ∷ entries)) (sym p)
              (other, subst (Renewed fd event entries) n rest)
        | inr (changed, n) ↦
            let p : update_found fd event (entry ∷ entries) ≡ some (entry ∷ changed) =
              rw (update_found, t, n) refl in
            let (f, q) = subst (Renewed fd event entries) n rest in
            subst (Renewed fd event (entry ∷ entries)) (sym p)
              (behind entry other f, ap (λ l. entry ∷ l) q)
      ]
]

-- That of an erasure takes it away.
Taken : ℕ → List EpollEntry → Option (List EpollEntry) → Type 0
Taken fd entries none = Absent fd entries
Taken fd entries (some left) = (p : First fd entries) × (left ≡ p.xs ++ p.ys)

erase_found_lem : (fd : ℕ) (entries : List EpollEntry) → Taken fd entries (erase_found fd entries)
unfolding erase_found Taken behind
erase_found_lem fd [] = tt
erase_found_lem fd (entry ∷ entries) = elim (Bool-cases (entry.fd == fd)) [
  | inl t ↦
      let same : entry.fd ≡ fd = ground arith in
      let p : erase_found fd (entry ∷ entries) ≡ some entries = rw (erase_found, t) refl in
      subst (Taken fd (entry ∷ entries)) (sym p) (
        record { xs = []; entry = entry; ys = entries; parts = refl; is_it = same; before = tt },
        refl,
      )
  | inr t ↦
      let other : entry.fd ≢ fd = λ e. absurd (ground (arith, t, e)) in
      let rest = erase_found_lem fd entries in
      elim (Option-cases (erase_found fd entries)) [
        | inl n ↦
            let p : erase_found fd (entry ∷ entries) ≡ none = rw (erase_found, t, n) refl in
            subst (Taken fd (entry ∷ entries)) (sym p) (other, subst (Taken fd entries) n rest)
        | inr (left, n) ↦
            let p : erase_found fd (entry ∷ entries) ≡ some (entry ∷ left) =
              rw (erase_found, t, n) refl in
            let (f, q) = subst (Taken fd entries) n rest in
            subst (Taken fd (entry ∷ entries)) (sym p) (behind entry other f, ap (λ l. entry ∷ l) q)
      ]
]

renew-Does :
    (fd : ℕ) (event : EpollEvent) (c : Connection) (before after : List EpollEntry)
    (status : EpollStatus) (found : Option (List EpollEntry))
    → Renewed fd event before found
    → Changed found status before after
    → Does ctl_mod fd event c before status after
unfolding Renewed
renew-Does fd event c before after status none absent (s, e) = inr (absent, s, e)
renew-Does fd event c before after status (some changed) (p, q) (s, e) = inl (p, s, e ∙ q)

take-Does :
    (fd : ℕ) (event : EpollEvent) (c : Connection) (before after : List EpollEntry)
    (status : EpollStatus) (found : Option (List EpollEntry))
    → Taken fd before found
    → Erased found status before after
    → Does ctl_del fd event c before status after
unfolding Taken
take-Does fd event c before after status none absent (s, e) = inr (absent, s, e)
take-Does fd event c before after status (some left) (p, q) (s, e) =
    inl (p, s, subst (Perm after) q e)

split_last-Perm :
    (entry : EpollEntry) (entries : List EpollEntry)
    → let (front, last) = split_last entry entries in Perm (last ∷ front) (entry ∷ entries)
unfolding split_last
split_last-Perm entry [] = Perm.refl _
split_last-Perm entry (next ∷ entries) =
    Perm.trans (Perm.swap _ _ _) (Perm.cons entry (split_last-Perm next entries))

length-split_last :
    (entry : EpollEntry) (entries : List EpollEntry)
    → length (split_last entry entries).0 ≡ length entries
unfolding split_last
length-split_last entry [] = refl
length-split_last entry (next ∷ entries) = ap suc (length-split_last next entries)

length-update_found :
    (fd : ℕ) (event : EpollEvent) (entries changed : List EpollEntry)
    → update_found fd event entries ≡ some changed
    → length changed ≡ length entries
unfolding update_found
length-update_found fd event [] changed e = absurd cc
length-update_found fd event (entry ∷ entries) changed e = elim (Bool-cases (entry.fd == fd)) [
  | inl t ↦
      let p : renew event entry ∷ entries ≡ changed = eq_of_some (rw t at e) in ap length (sym p)
  | inr t ↦ elim (Option-cases (update_found fd event entries)) [
    | inl n ↦ let p : none ≡ some changed = rw (update_found, t, n) at e in absurd cc
    | inr (rest, n) ↦
        let p : entry ∷ rest ≡ changed = eq_of_some (rw (update_found, t, n) at e) in
        ap length (sym p) ∙ ap suc (length-update_found fd event entries rest n)
  ]
]

length-erase_found :
    (fd : ℕ) (entries left : List EpollEntry)
    → erase_found fd entries ≡ some left
    → suc (length left) ≡ length entries
unfolding erase_found
length-erase_found fd [] left e = absurd cc
length-erase_found fd (entry ∷ entries) left e = elim (Bool-cases (entry.fd == fd)) [
  | inl t ↦ let p : entries ≡ left = eq_of_some (rw t at e) in ap (λ xs. suc (length xs)) (sym p)
  | inr t ↦ elim (Option-cases (erase_found fd entries)) [
    | inl n ↦ let p : none ≡ some left = rw (erase_found, t, n) at e in absurd cc
    | inr (rest, n) ↦
        let p : entry ∷ rest ≡ left = eq_of_some (rw (erase_found, t, n) at e) in
        ap (λ xs. suc (length xs)) (sym p) ∙ ap suc (length-erase_found fd entries rest n)
  ]
]

-- With a descriptor there is a first one.
registered-more :
    (inst : EpollInstance)
    → IsValid inst
    → 0 < inst.tssx_count
    → (registered inst ≡ inst.first ∷ inst.entries) × (inst.tssx_count ≡ suc (length inst.entries))
unfolding registered
registered-more inst valid there = elim valid.counted [
  | inl (z, _) ↦ absurd (omega (arith, z))
  | inr more ↦ (ground arith, more)
]

-- A setup of the vector at one descriptor loses no entry.
setup-kept :
    (count : ℕ) (entries : List EpollEntry)
    → count ≡ suc (length entries)
    → (if count == 1 then [] else entries) ≡ entries
setup-kept count [] e = ground arith
setup-kept count (entry ∷ entries) e = ground arith

add-IsValid :
    (inst : EpollInstance) (fd : ℕ) (event : EpollEvent) (c : Connection)
    → IsValid inst
    → inst.tssx_count + 1 < 2 ^ 62
    → let (status, inst') = epoll_add_to_instance inst fd event c in
      Does ctl_add fd event c (registered inst) status (registered inst') × IsValid inst'
unfolding epoll_add_to_instance epoll_set_first_entry epoll_push_back_entry registered
add-IsValid inst fd event c valid small = elim valid.counted [
  | inl (z, e) ↦ (
    ground arith,
    record {
      counted = ground (arith);
      small = ground (arith);
      has_block = λ l. absurd (ground (arith, l));
    },
  )
  | inr more ↦
      let kept = setup-kept inst.tssx_count inst.entries more in
      let count = length-append {0} inst.entries (new_entry fd event c ∷ []) in
      let block : (inst.tssx_count == 1) || inst.is_set_up ≡ true =
        elim (Bool-cases (inst.tssx_count == 1)) [
          | inl t ↦ rw t refl
          | inr t ↦ rw t (valid.has_block (ground (arith, t, more)))
        ] in
      (
        ground (arith, kept),
        record {
          counted = ground (arith, kept, count);
          small = ground (arith, kept);
          has_block = λ l. ground (arith, block, more);
        },
      )
]

module _ (inst : EpollInstance) (fd : ℕ) (event : EpollEvent) (c : Connection)
    (count : inst.tssx_count ≡ suc (length inst.entries)) (small : inst.tssx_count < 2 ^ 62)
    (has_block : 1 < inst.tssx_count → inst.is_set_up ≡ true) where
  all : registered inst ≡ inst.first ∷ inst.entries
  unfolding registered
  all = ground arith

  some_there : inst.tssx_count == 0 ≡ false
  some_there = ground arith

  -- An entry is there, or the instance is left as it was.
  update-cases :
      (found : Option (List EpollEntry))
      → update_found fd event inst.entries ≡ found
      → let (status, inst') = update_entry inst fd event in
        Changed
          (update_found fd event (inst.first ∷ inst.entries))
          status
          (inst.first ∷ inst.entries)
          (registered inst')
        × IsValid inst'
  unfolding update_entry registered update_found
  update-cases none e = elim (Bool-cases (inst.first.fd == fd)) [
    | inl t ↦
        let same : fd == inst.first.fd ≡ true = ground arith in
        rw (t, same, some_there)
          ((refl, refl), record { counted = inr count; small = small; has_block = has_block })
    | inr t ↦
        let apart : fd == inst.first.fd ≡ false = ground arith in
        rw (t, e, apart, some_there)
          ((refl, refl), record { counted = inr count; small = small; has_block = has_block })
  ]
  update-cases (some changed) e = elim (Bool-cases (inst.first.fd == fd)) [
    | inl t ↦
        let same : fd == inst.first.fd ≡ true = ground arith in
        rw (t, same, some_there)
          ((refl, refl), record { counted = inr count; small = small; has_block = has_block })
    | inr t ↦
        let apart : fd == inst.first.fd ≡ false = ground arith in
        let same = length-update_found fd event inst.entries changed e in
        rw (t, e, apart, some_there)
          (
            (refl, refl),
            record {
              counted = inr (omega (arith, count, same));
              small = small;
              has_block = has_block;
            },
          )
  ]

  abbrev less : ℕ
  less = sub_size inst.tssx_count 1

  less_lem : less ≡ length inst.entries
  less_lem = omega (arith, count)

  -- The last entry takes the place of the first.
  erase-first :
      (entries : List EpollEntry)
      → inst.entries ≡ entries
      → inst.first.fd == fd ≡ true
      → let (status, inst') = epoll_erase_first_from_instance inst in
        ((status ≡ success) × Perm (registered inst') inst.entries) × IsValid inst'
  unfolding epoll_erase_first_from_instance registered
  erase-first [] e t =
      let only : ltb 1 inst.tssx_count ≡ false = ground (arith, ap length e) in
      let gone : less ≡ 0 = omega (arith, less_lem, ap length e) in
      rw (e, only, gone)
        (
          (refl, Perm.refl _),
          record {
            counted = inl (refl, refl);
            small = omega arith;
            has_block = λ l. absurd (omega (arith, l));
          },
        )
  erase-first (entry ∷ entries) e t =
      let more : ltb 1 inst.tssx_count ≡ true = ground (arith, ap length e) in
      let left : less == 0 ≡ false = ground (arith, less_lem, ap length e) in
      let same = length-split_last entry entries in
      rw (e, more, left)
        (
          (refl, split_last-Perm entry entries),
          record {
            counted = inr (omega (arith, less_lem, ap length e, same));
            small = omega (arith, less_lem);
            has_block = λ l. has_block (omega (arith, l, less_lem, count));
          },
        )

  erase-cases :
      (found : Option (List EpollEntry))
      → erase_found fd inst.entries ≡ found
      → let (status, inst') = erase_entry inst fd in
        Erased
          (erase_found fd (inst.first ∷ inst.entries))
          status
          (inst.first ∷ inst.entries)
          (registered inst')
        × IsValid inst'
  unfolding erase_entry registered erase_found
  erase-cases none e = elim (Bool-cases (inst.first.fd == fd)) [
    | inl t ↦
        let same : fd == inst.first.fd ≡ true = ground arith in
        rw (t, same) (erase-first inst.entries refl t)
    | inr t ↦
        let apart : fd == inst.first.fd ≡ false = ground arith in
        rw (t, e, apart, some_there)
          ((refl, refl), record { counted = inr count; small = small; has_block = has_block })
  ]
  erase-cases (some left) e = elim (Bool-cases (inst.first.fd == fd)) [
    | inl t ↦
        let same : fd == inst.first.fd ≡ true = ground arith in
        rw (t, same) (erase-first inst.entries refl t)
    | inr t ↦
        let apart : fd == inst.first.fd ≡ false = ground arith in
        let shorter = length-erase_found fd inst.entries left e in
        let rest : less == 0 ≡ false = ground (arith, less_lem, shorter) in
        rw (t, e, apart, rest)
          (
            (refl, Perm.refl _),
            record {
              counted = inr (omega (arith, less_lem, shorter));
              small = omega (arith, less_lem);
              has_block = λ l. has_block (omega (arith, l, less_lem, count));
            },
          )
  ]

-- The asserts of a call on a connected descriptor. ADD has none; the others need a descriptor, and,
-- for one that is not the first, the vector set up.
abbrev pub Asserts : EpollInstance → EpollOperation → ℕ → Type 0
Asserts inst operation fd =
    (operation ≡ ctl_add)
    ⊎ ((0 < inst.tssx_count) × ((fd ≡ inst.first.fd) ⊎ (inst.is_set_up ≡ true)))

update-runs :
    (inst : EpollInstance) (fd : ℕ) (event : EpollEvent)
    → (fd ≡ inst.first.fd) ⊎ (inst.is_set_up ≡ true)
    → epoll_update_instance inst fd event ≡ some (update_entry inst fd event)
unfolding epoll_update_instance
update-runs inst fd event (inl e) =
    let t : fd == inst.first.fd ≡ true = ground (arith, e) in rw (epoll_update_instance, t) refl
update-runs inst fd event (inr e) =
    let t : (fd == inst.first.fd) || inst.is_set_up ≡ true = ground (arith, e) in
    rw (epoll_update_instance, t) refl

erase-runs :
    (inst : EpollInstance) (fd : ℕ)
    → inst.tssx_count ≡ suc (length inst.entries)
    → (fd ≡ inst.first.fd) ⊎ (inst.is_set_up ≡ true)
    → epoll_erase_from_instance inst fd ≡ some (erase_entry inst fd)
unfolding epoll_erase_from_instance erase_asserts
erase-runs inst fd count there =
    let full : ltb 1 inst.tssx_count && (length inst.entries == 0) ≡ false =
      ground (arith, count) in
    let t : erase_asserts inst fd ≡ true = elim (Bool-cases (fd == inst.first.fd)) [
      | inl e ↦ rw (erase_asserts, e, full) refl
      | inr e ↦ elim there [
        | inl f ↦ absurd (ground (arith, e, f))
        | inr f ↦ rw (erase_asserts, e) f
      ]
    ] in
    rw (epoll_erase_from_instance, t) refl

-- On an instance that counts its descriptors, an operation of `epoll_ctl` on a connected descriptor whose
-- asserts hold does to the descriptors, the first of them and the vector's as one list, what it does to
-- a list: ADD puts a new one at the end and succeeds; MOD renews the first entry of the descriptor and
-- DEL takes it away, the others left in some order, and both fail and leave the list as it was where
-- there is none; any other operation fails and changes nothing. The instance counts its descriptors
-- again. The count needs room for one more.
pub control_lem :
    (inst : EpollInstance) (operation : EpollOperation) (fd : ℕ) (event : EpollEvent)
    (c : Connection)
    → IsValid inst
    → Asserts inst operation fd
    → inst.tssx_count + 1 < 2 ^ 62
    → (r : EpollStatus × EpollInstance) × (epoll_tssx_control_operation inst operation fd event c
        ≡ some r)
      × Does operation fd event c (registered inst) r.0 (registered r.1)
      × IsValid r.1
unfolding epoll_tssx_control_operation
control_lem inst ctl_add fd event c valid there small =
    let (does, valid') = add-IsValid inst fd event c valid small in (_, refl, does, valid')
control_lem inst ctl_mod fd event c valid (inl e) small =
    absurd (let f : ctl_mod ≡ ctl_add = e in cc)
control_lem inst ctl_mod fd event c valid (inr (there, at)) small =
    let (all, count) = registered-more inst valid there in
    let (changed, valid') =
      update-cases inst fd event c count valid.small valid.has_block
        (update_found fd event inst.entries) refl in
    (
      update_entry inst fd event,
      update-runs inst fd event at,
      subst
          (λ l.
            Does ctl_mod fd event c l (update_entry inst fd event).0
              (registered (update_entry inst fd event).1))
          (sym all)
          (renew-Does fd event c (inst.first ∷ inst.entries) _ _ _
            (update_found_lem fd event (inst.first ∷ inst.entries)) changed),
      valid',
    )
control_lem inst ctl_del fd event c valid (inl e) small =
    absurd (let f : ctl_del ≡ ctl_add = e in cc)
control_lem inst ctl_del fd event c valid (inr (there, at)) small =
    let (all, count) = registered-more inst valid there in
    let (erased, valid') =
      erase-cases inst fd event c count valid.small valid.has_block (erase_found fd inst.entries)
        refl in
    (
      erase_entry inst fd,
      erase-runs inst fd count at,
      subst
          (λ l.
            Does ctl_del fd event c l (erase_entry inst fd).0 (registered (erase_entry inst fd).1))
          (sym all)
          (take-Does fd event c (inst.first ∷ inst.entries) _ _ _
            (erase_found_lem fd (inst.first ∷ inst.entries)) erased),
      valid',
    )
control_lem inst ctl_other fd event c valid there small = (_, refl, (refl, refl), valid)
