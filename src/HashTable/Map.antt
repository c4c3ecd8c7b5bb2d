-- ===== src/HashTable/Map.antt =====
-- The table of source/tssx/hashtable.c against a finite map from keys to connections.
use tssx.Base.{
  ℕ, ◌<◌, ◌≡◌, ◌≢◌, refl, sym, ap, ◌∙◌, subst, Bool, true, false, Bool-cases, inl, inr, Option,
  Option-cases, none, some, List, [], ◌∷◌, replicate, ◌==◌, if◌then◌else◌, ltb, mul_size, arith,
}
use tssx.HashTable.{
  Chain, HashTable, ht_minimum_capacity, ht_hash, chain_at, find_node, update_node, ht_allocate,
  ht_rehash, ht_setup, ht_create_if_necessary, ht_resize, insert_node, ht_insert,
}
use tssx.HashTable.Lookup.{update_node-find}
use tssx.HashTable.Chains.{Distinct, update-Distinct, update-none, update-there}
use tssx.HashTable.Arrays.{view, updated, IsPlaced, set-IsPlaced}
use tssx.HashTable.Growth.{empty-IsPlaced, ht_rehash-IsPlaced}

module _ {ℓ} {A : Type ℓ} where
  -- An array, or none, that shows a map.
  abbrev pub Shows : ℕ → Option (List (Chain A)) → (ℕ → Option A) → Type ℓ
  Shows capacity o f = elim o [
    | none ↦ (key : ℕ) → f key ≡ none
    | some nodes ↦ IsPlaced capacity nodes × ((key : ℕ) → view capacity nodes key ≡ f key)
  ]

  abbrev pub Holds : HashTable A → (ℕ → Option A) → Type ℓ
  Holds table f = Shows table.capacity table.nodes f

  pub ht_resize-Holds :
      (table : HashTable A) (f : ℕ → Option A) → Holds table f → Holds (ht_resize table) f
  unfolding ht_resize ht_allocate
  ht_resize-Holds table f h = elim (Bool-cases (ltb (mul_size table.size 2) ht_minimum_capacity)) [
    | inl t ↦ rw t h
    | inr t ↦ elim (Option-cases table.nodes) [
      | inl n ↦
          let same : ht_resize table ≡ table = simp (ht_resize, t, n) refl in
          subst (λ u. Holds u f) (sym same) h
      | inr (old, n) ↦
          let wide = mul_size table.size 2 in
          let (placed, seen) : Shows table.capacity (some old) f =
            subst (λ o. Shows table.capacity o f) n h in
          let pos : 0 < wide = ground arith in
          let (placed', seen') = ht_rehash-IsPlaced table.capacity wide old pos placed in
          let new : ht_resize table ≡ record (ht_allocate table wide) {
            nodes = some (ht_rehash wide old (replicate wide []));
          } =
            simp (ht_resize, t, n) refl in
          subst (λ u. Holds u f) (sym new) (placed', λ key. seen' key ∙ seen key)
    ]
  ]

  -- A table that has an array keeps one.
  ht_resize-made : (table : HashTable A) → table.nodes ≢ none → (ht_resize table).nodes ≢ none
  unfolding ht_resize
  ht_resize-made table made = elim (Bool-cases (ltb (mul_size table.size 2) ht_minimum_capacity)) [
    | inl t ↦ rw t made
    | inr t ↦ elim (Option-cases table.nodes) [
      | inl n ↦ absurd (made n)
      | inr (old, n) ↦
          let wide = mul_size table.size 2 in
          let new : ht_resize table ≡ record (ht_allocate table wide) {
            nodes = some (ht_rehash wide old (replicate wide []));
          } =
            simp (ht_resize, t, n) refl in
          λ e.
            let q : some (ht_rehash wide old (replicate wide [])) ≡ none =
              ap (λ u. u.nodes) (sym new) ∙ e in
            absurd cc
    ]
  ]

  ht_create_if_necessary-Holds :
      (table : HashTable A) (f : ℕ → Option A)
      → Holds table f
      → Holds (ht_create_if_necessary table) f × ((ht_create_if_necessary table).nodes ≢ none)
  unfolding ht_create_if_necessary ht_setup ht_allocate
  ht_create_if_necessary-Holds table f h = elim (Option-cases table.nodes) [
    | inl n ↦
        let bare : (key : ℕ) → f key ≡ none = subst (λ o. Shows table.capacity o f) n h in
        let (placed, seen) = empty-IsPlaced {A = A} 8 (omega arith) in
        let new : ht_create_if_necessary table ≡ ht_setup table 0 =
          simp (ht_create_if_necessary, n) refl in
        subst (λ u. Holds u f × (u.nodes ≢ none)) (sym new)
          ((placed, λ key. seen key ∙ sym (bare key)), λ e. absurd cc)
    | inr (nodes, n) ↦
        let new : ht_create_if_necessary table ≡ table = simp (ht_create_if_necessary, n) refl in
        subst (λ u. Holds u f × (u.nodes ≢ none)) (sym new)
          (h, λ e. let q : some nodes ≡ none = sym n ∙ e in absurd cc)
  ]

  -- What a key has.
  abbrev pub is_bound : Option A → Bool
  is_bound o = elim o [ none ↦ false | some _ ↦ true ]

  abbrev pub is_free : Option A → Bool
  is_free o = elim o [ none ↦ true | some _ ↦ false ]

  insert_node-Holds :
      (table : HashTable A) (nodes : List (Chain A)) (f : ℕ → Option A) (key : ℕ) (c : A)
      → IsPlaced table.capacity nodes
      → ((key : ℕ) → view table.capacity nodes key ≡ f key)
      → ((insert_node table nodes key c).0 ≡ is_free (f key))
        × Holds (insert_node table nodes key c).1 (updated key (some c) f)
  unfolding insert_node find_node
  insert_node-Holds table nodes f key c p seen =
      let old = chain_at nodes (ht_hash table.capacity key) in
      let d : Distinct old = p.distinct (ht_hash table.capacity key) in
      elim (Option-cases (update_node key c old)) [
        | inl n ↦
            let bare : find_node key old ≡ none = update-none key c old n in
            let at : key == key ≡ true = ground arith in
            let chain : Chain A = record { key = key; connection = c } ∷ old in
            let found : find_node key chain ≡ some c = rw (find_node, at) refl in
            let (placed, seen') =
              set-IsPlaced table.capacity nodes p key (some c) chain (bare, d) found
                (λ other a. let g : key == other ≡ false = ground arith in rw g refl) in
            let free : f key ≡ none = sym (seen key) ∙ bare in
            rw (insert_node, n, free)
              (
                refl,
                (
                  placed,
                  λ other. seen' other ∙ ap (λ o. if key == other then some c else o) (seen other),
                ),
              )
        | inr (chain, n) ↦
            let (here, there) = update_node-find key c old chain n in
            let (placed, seen') =
              set-IsPlaced table.capacity nodes p key (some c) chain
                (update-Distinct key c old chain n d) here there in
            elim (Option-cases (f key)) [
              | inl free ↦ absurd (update-there key c old chain n (seen key ∙ free))
              | inr (_, bound) ↦
                  rw (insert_node, n, bound)
                    (
                      refl,
                      (
                        placed,
                        λ other.
                            seen' other ∙ ap (λ o. if key == other then some c else o) (seen other),
                      ),
                    )
            ]
      ]

  pub ht_insert-Holds :
      (table : HashTable A) (f : ℕ → Option A) (key : ℕ) (c : A)
      → Holds table f
      → ((ht_insert table key c).0 ≡ is_free (f key))
        × Holds (ht_insert table key c).1 (updated key (some c) f)
  unfolding ht_insert
  ht_insert-Holds table f key c h =
      let made = ht_create_if_necessary table in
      let wide = if made.size == made.threshold then ht_resize made else made in
      let (held, there) = ht_create_if_necessary-Holds table f h in
      let (held', there') : Holds wide f × (wide.nodes ≢ none) =
        elim (Bool-cases (made.size == made.threshold)) [
          | inl t ↦ rw t (ht_resize-Holds made f held, ht_resize-made made there)
          | inr t ↦ rw t (held, there)
        ] in
      elim (Option-cases wide.nodes) [
        | inl n ↦ absurd (there' n)
        | inr (nodes, n) ↦
            let (placed, seen) : Shows wide.capacity (some nodes) f =
              subst (λ o. Shows wide.capacity o f) n held' in
            let new : ht_insert table key c ≡ insert_node wide nodes key c =
              simp (ht_insert, n) refl in
            subst (λ r. (r.0 ≡ is_free (f key)) × Holds r.1 (updated key (some c) f)) (sym new)
              (insert_node-Holds wide nodes f key c placed seen)
      ]
