-- ===== src/HashTable/Growth.antt =====
-- How source/tssx/hashtable.c moves its nodes into an array of another width.
use tssx.Base.{
  ℕ, zero, suc, ◌<◌, ◌≡◌, ◌≢◌, refl, sym, ap, ◌∙◌, subst, ◌⊎◌, true, false, Bool-cases, inl, inr,
  Option, Option-cases, none, some, List, [], ◌∷◌, set, replicate, ◌==◌, length-replicate, arith,
}
use tssx.HashTable.{Chain, ht_hash, chain_at, find_node, rehash_chain, ht_rehash}
use tssx.HashTable.Chains.{Distinct}
use tssx.HashTable.Arrays.{view, IsPlaced, set-IsPlaced}

module _ {ℓ} {A : Type ℓ} where
  -- A value, or another where there is none.
  abbrev filled : Option A → Option A → Option A
  filled o other = elim o [ none ↦ other | some c ↦ some c ]

  -- A chain moved into an array that has none of its keys.
  rehash_chain-view :
      (capacity : ℕ) (chain : Chain A) (nodes : List (Chain A))
      → IsPlaced capacity nodes
      → Distinct chain
      → ((key : ℕ) → find_node key chain ≢ none → view capacity nodes key ≡ none)
      → IsPlaced capacity (rehash_chain capacity chain nodes)
        × ((key : ℕ)
            → view capacity (rehash_chain capacity chain nodes) key
              ≡ filled (find_node key chain) (view capacity nodes key))
  unfolding rehash_chain find_node
  rehash_chain-view capacity [] nodes p d free = (p, λ key. refl)
  rehash_chain-view capacity (node ∷ chain) nodes p (fresh, d) free =
      let old = chain_at nodes (ht_hash capacity node.key) in
      let self : node.key == node.key ≡ true = ground arith in
      let found : find_node node.key (node ∷ old) ≡ some node.connection =
        rw (find_node, self) refl in
      let there : find_node node.key (node ∷ chain) ≢ none =
        λ e. let q : some node.connection ≡ none = rw self at e in absurd cc in
      let others : (other : ℕ)
          → other ≢ node.key
          → find_node other (node ∷ old) ≡ find_node other old =
        λ other n. let f : node.key == other ≡ false = ground arith in rw f refl in
      let (placed, seen) =
        set-IsPlaced capacity nodes p node.key (some node.connection) (node ∷ old)
          (free node.key there, p.distinct (ht_hash capacity node.key)) found others in
      let nodes' = set nodes (ht_hash capacity node.key) (node ∷ old) in
      let free' : (key : ℕ) → find_node key chain ≢ none → view capacity nodes' key ≡ none =
        λ key h. elim (Bool-cases (node.key == key)) [
          | inl t ↦
              let same : node.key ≡ key = ground arith in
              absurd (h (ap (λ k. find_node k chain) (sym same) ∙ fresh))
          | inr t ↦ seen key ∙ rw t (free key (λ e. h (rw t at e)))
        ] in
      let (placed', seen') = rehash_chain-view capacity chain nodes' placed d free' in
      (
        placed',
        λ key. seen' key ∙ elim (Bool-cases (node.key == key)) [
          | inl t ↦
              let same : node.key ≡ key = ground arith in
              let gone : find_node key chain ≡ none =
                ap (λ k. find_node k chain) (sym same) ∙ fresh in
              let now : view capacity nodes' key ≡ some node.connection = seen key ∙ rw t refl in
              rw (gone, t) now
          | inr t ↦
              let now : view capacity nodes' key ≡ view capacity nodes key = seen key ∙ rw t refl in
              rw t (ap (filled (find_node key chain)) now)
        ],
      )

  -- The first chain that has the key.
  abbrev find_all : ℕ → List (Chain A) → Option A
  find_all key [] = none
  find_all key (chain ∷ old) = filled (find_node key chain) (find_all key old)

  -- No key stands twice in the array.
  abbrev Apart : List (Chain A) → Type ℓ
  Apart [] = Unit
  Apart (chain ∷ old) =
      Distinct chain
      × ((key : ℕ) → find_node key chain ≢ none → find_all key old ≡ none)
      × Apart old

  ht_rehash-view :
      (capacity : ℕ) (old nodes : List (Chain A))
      → IsPlaced capacity nodes
      → Apart old
      → ((key : ℕ) → find_all key old ≢ none → view capacity nodes key ≡ none)
      → IsPlaced capacity (ht_rehash capacity old nodes)
        × ((key : ℕ)
            → view capacity (ht_rehash capacity old nodes) key
              ≡ filled (find_all key old) (view capacity nodes key))
  unfolding ht_rehash
  ht_rehash-view capacity [] nodes p a free = (p, λ key. refl)
  ht_rehash-view capacity (chain ∷ old) nodes p (d, single, a) free =
      let (placed, seen) = rehash_chain-view capacity chain nodes p d (λ key h. free key (λ e.
        elim (Option-cases (find_node key chain)) [
          | inl n ↦ h n
          | inr (c, n) ↦ let q : some c ≡ none = rw n at e in absurd cc
        ])) in
      let nodes' = rehash_chain capacity chain nodes in
      let free' : (key : ℕ) → find_all key old ≢ none → view capacity nodes' key ≡ none = λ key h.
        elim (Option-cases (find_node key chain)) [
          | inl n ↦
              let now : view capacity nodes' key ≡ view capacity nodes key = seen key ∙ rw n refl in
              now ∙ free key (λ e. h (rw n at e))
          | inr (c, n) ↦
              absurd (h (single key (λ e. let q : some c ≡ none = sym n ∙ e in absurd cc)))
        ] in
      let (placed', seen') = ht_rehash-view capacity old nodes' placed a free' in
      (
        placed',
        λ key. seen' key ∙ elim (Option-cases (find_node key chain)) [
          | inl n ↦
              let now : view capacity nodes' key ≡ view capacity nodes key = seen key ∙ rw n refl in
              rw n (ap (filled (find_all key old)) now)
          | inr (c, n) ↦
              let now : view capacity nodes' key ≡ some c = seen key ∙ rw n refl in
              let gone : find_all key old ≡ none =
                single key (λ e. let q : some c ≡ none = sym n ∙ e in absurd cc) in
              rw (gone, n) now
        ],
      )

  -- Where the first chain with a key is.
  find_all-cases :
      (key : ℕ) (old : List (Chain A))
      → ((find_all key old ≡ none) × ((i : ℕ) → find_node key (chain_at old i) ≡ none))
        ⊎ ((i : ℕ) × (find_all key old ≡ find_node key (chain_at old i))
            × (find_node key (chain_at old i) ≢ none))
  unfolding find_node
  find_all-cases key [] = inl (refl, λ i. refl)
  find_all-cases key (chain ∷ old) = elim (Option-cases (find_node key chain)) [
    | inl n ↦ elim (find_all-cases key old) [
      | inl (e, all) ↦ inl (rw n e, elim [ zero ↦ n | suc i ↦ all i ])
      | inr (i, e, h) ↦ inr (suc i, rw n e, h)
    ]
    | inr (c, n) ↦ inr (0, rw n refl, λ e. let q : some c ≡ none = sym n ∙ e in absurd cc)
  ]

  -- Where a key stands in one chain only, the array is apart.
  single-Apart :
      (old : List (Chain A))
      → ((i : ℕ) → Distinct (chain_at old i))
      → ((key i j : ℕ)
          → find_node key (chain_at old i) ≢ none
          → find_node key (chain_at old j) ≢ none
          → i ≡ j)
      → Apart old
  single-Apart [] d one = tt
  single-Apart (chain ∷ old) d one = (
    d 0,
    λ key h. elim (find_all-cases key old) [
      | inl (e, _) ↦ e
      | inr (i, _, h') ↦ let q : 0 ≡ suc i = one key 0 (suc i) h h' in absurd (ground arith)
    ],
    single-Apart old (λ i. d (suc i))
        (λ key i j h h'. let q : suc i ≡ suc j = one key (suc i) (suc j) h h' in omega (arith, q)),
  )

  chain_at-replicate : (n i : ℕ) → chain_at {A = A} (replicate n []) i ≡ []
  chain_at-replicate zero i = refl
  chain_at-replicate (suc n) zero = refl
  chain_at-replicate (suc n) (suc i) = chain_at-replicate n i

  -- A new array has no keys.
  pub empty-IsPlaced :
      (capacity : ℕ)
      → 0 < capacity
      → IsPlaced {A = A} capacity (replicate capacity [])
        × ((key : ℕ) → view {A = A} capacity (replicate capacity []) key ≡ none)
  unfolding find_node
  empty-IsPlaced capacity pos = (
    record {
      width = length-replicate capacity [];
      pos = pos;
      distinct = λ i. subst Distinct (sym (chain_at-replicate capacity i)) tt;
      home = λ i key h. absurd (h (ap (find_node key) (chain_at-replicate capacity i)));
    },
    λ key. ap (find_node key) (chain_at-replicate capacity (ht_hash capacity key)),
  )

  -- The array of another width has the same keys.
  pub ht_rehash-IsPlaced :
      (capacity wide : ℕ) (old : List (Chain A))
      → 0 < wide
      → IsPlaced capacity old
      → IsPlaced wide (ht_rehash wide old (replicate wide []))
        × ((key : ℕ)
            → view wide (ht_rehash wide old (replicate wide [])) key ≡ view capacity old key)
  ht_rehash-IsPlaced capacity wide old pos p =
      let (placed, bare) = empty-IsPlaced wide pos in
      let apart : Apart old =
        single-Apart old p.distinct (λ key i j h h'. sym (p.home i key h) ∙ p.home j key h') in
      let (placed', seen) =
        ht_rehash-view wide old (replicate wide []) placed apart (λ key _. bare key) in
      (
        placed',
        λ key. seen key ∙ elim (find_all-cases key old) [
          | inl (e, all) ↦ rw e (bare key ∙ sym (all (ht_hash capacity key)))
          | inr (i, e, h) ↦
              let found : view capacity old key ≡ find_all key old =
                ap (λ j. find_node key (chain_at old j)) (p.home i key h) ∙ sym e in
              elim (Option-cases (find_all key old)) [
                | inl n ↦ absurd (h (sym e ∙ n))
                | inr (c, n) ↦ rw n (sym (found ∙ n))
              ]
        ],
      )
