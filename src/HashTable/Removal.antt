-- ===== src/HashTable/Removal.antt =====
-- The removals and the questions of source/tssx/hashtable.c against a finite map.
use tssx.Base.{
  ℕ, ◌≡◌, refl, sym, ap, ◌∙◌, subst, true, false, Bool-cases, inl, inr, Option, Option-cases, none,
  some, set, ◌==◌, if◌then◌else◌, sub_size, ◌/◌, arith,
}
use tssx.HashTable.{
  HashTable, ht_minimum_capacity, ht_hash, chain_at, remove_node, ht_allocate, ht_resize, ht_get,
  ht_contains, ht_remove, ht_clear,
}
use tssx.HashTable.Chains.{remove_node-find, remove-Distinct, remove-none}
use tssx.HashTable.Arrays.{view, updated, set-IsPlaced}
use tssx.HashTable.Growth.{empty-IsPlaced}
use tssx.HashTable.Map.{Shows, Holds, is_bound, ht_resize-Holds}

module _ {ℓ} {A : Type ℓ} where
  pub ht_remove-Holds :
      (table : HashTable A) (f : ℕ → Option A) (key : ℕ)
      → Holds table f
      → ((ht_remove table key).0 ≡ is_bound (f key))
        × Holds (ht_remove table key).1 (updated key none f)
  unfolding ht_remove
  ht_remove-Holds table f key h = elim (Option-cases table.nodes) [
    | inl n ↦
        let bare : (key : ℕ) → f key ≡ none = subst (λ o. Shows table.capacity o f) n h in
        let gone : (other : ℕ) → updated key none f other ≡ none = λ other.
          elim (Bool-cases (key == other)) [ inl t ↦ rw t refl | inr t ↦ rw t (bare other) ] in
        let new : ht_remove table key ≡ (false, table) = simp (ht_remove, n) refl in
        subst (λ r. (r.0 ≡ is_bound (f key)) × Holds r.1 (updated key none f)) (sym new)
          (
            rw (bare key) refl,
            subst (λ o. Shows table.capacity o (updated key none f)) (sym n) gone,
          )
    | inr (nodes, n) ↦
        let (placed, seen) : Shows table.capacity (some nodes) f =
          subst (λ o. Shows table.capacity o f) n h in
        let index = ht_hash table.capacity key in
        let old = chain_at nodes index in
        elim (Option-cases (remove_node key old)) [
          | inl r ↦
              let bare : f key ≡ none = sym (seen key) ∙ remove-none key old r in
              let same : (other : ℕ) → f other ≡ updated key none f other = λ other.
                elim (Bool-cases (key == other)) [
                  | inl t ↦ let q : key ≡ other = ground arith in rw t (ap f (sym q) ∙ bare)
                  | inr t ↦ rw t refl
                ] in
              let new : ht_remove table key ≡ (false, table) = simp (ht_remove, n, r) refl in
              subst (λ r. (r.0 ≡ is_bound (f key)) × Holds r.1 (updated key none f)) (sym new)
                (
                  rw bare refl,
                  subst (λ o. Shows table.capacity o (updated key none f)) (sym n)
                      (placed, λ other. seen other ∙ same other),
                )
          | inr (chain, r) ↦
              let d = placed.distinct index in
              let (there, gone, others) = remove_node-find key old chain d r in
              let (placed', seen') =
                set-IsPlaced table.capacity nodes placed key none chain
                  (remove-Distinct key old chain r d) gone others in
              let smaller = record table {
                nodes = some (set nodes index chain);
                size = sub_size table.size 1;
              } in
              let held : Holds smaller (updated key none f) = (
                placed',
                λ other. seen' other ∙ ap (λ o. if key == other then none else o) (seen other),
              ) in
              let last =
                if smaller.size == smaller.threshold / 4 then ht_resize smaller else smaller in
              let held' : Holds last (updated key none f) =
                elim (Bool-cases (smaller.size == smaller.threshold / 4)) [
                  | inl t ↦ rw t (ht_resize-Holds smaller (updated key none f) held)
                  | inr t ↦ rw t held
                ] in
              let new : ht_remove table key ≡ (true, last) = simp (ht_remove, n, r) refl in
              elim (Option-cases (f key)) [
                | inl free ↦ absurd (there (seen key ∙ free))
                | inr (_, bound) ↦
                    subst (λ r. (r.0 ≡ is_bound (f key)) × Holds r.1 (updated key none f)) (sym new)
                      (rw bound refl, held')
              ]
        ]
  ]

  pub ht_clear-Holds :
      (table : HashTable A) (f : ℕ → Option A) → Holds table f → Holds (ht_clear table) (λ _. none)
  unfolding ht_clear ht_allocate
  ht_clear-Holds table f h = elim (Option-cases table.nodes) [
    | inl n ↦
        let new : ht_clear table ≡ table = simp (ht_clear, n) refl in
        subst (λ u. Holds u (λ _. none)) (sym new)
          (subst (λ o. Shows table.capacity o (λ _. none)) (sym n) (λ _. refl))
    | inr (nodes, n) ↦
        let new : ht_clear table ≡ record (ht_allocate table ht_minimum_capacity) { size = 0 } =
          simp (ht_clear, n) refl in
        subst (λ u. Holds u (λ _. none)) (sym new) (empty-IsPlaced {A = A} 8 (omega arith))
  ]

  pub ht_get-Holds :
      (table : HashTable A) (f : ℕ → Option A) (key : ℕ)
      → Holds table f
      → (ht_get table key ≡ f key) × (ht_contains table key ≡ is_bound (f key))
  unfolding ht_get ht_contains
  ht_get-Holds table f key h = elim (Option-cases table.nodes) [
    | inl n ↦
        let bare : (key : ℕ) → f key ≡ none = subst (λ o. Shows table.capacity o f) n h in
        (simp (ht_get, n, bare key) refl, simp (ht_contains, n, bare key) refl)
    | inr (nodes, n) ↦
        let (placed, seen) : Shows table.capacity (some nodes) f =
          subst (λ o. Shows table.capacity o f) n h in
        let got : ht_get table key ≡ view table.capacity nodes key = simp (ht_get, n) refl in
        let has : ht_contains table key ≡ is_bound (view table.capacity nodes key) =
          simp (ht_contains, n) refl in
        (got ∙ seen key, has ∙ ap is_bound (seen key))
  ]
