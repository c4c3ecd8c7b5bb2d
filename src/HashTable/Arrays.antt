-- ===== src/HashTable/Arrays.antt =====
-- The array of chains of source/tssx/hashtable.c as a map, and its growth.
use native.Mathlib.Nat.{mod-lt}
use tssx.Base.{
  ℕ, ◌+◌, ◌*◌, ◌%◌, ◌<◌, ◌≡◌, ◌≢◌, refl, sym, ap, ◌∙◌, subst, false, Bool-cases, inl, inr, Option,
  none, some, List, [], length, set, ◌==◌, if◌then◌else◌, length-set, get_elem?-set,
  get_elem?-set_other, arith,
}
use tssx.HashTable.{Chain, ht_hash, chain_at, find_node}
use tssx.HashTable.Chains.{Distinct}

pub hash-lt : (capacity key : ℕ) → 0 < capacity → ht_hash capacity key < capacity
unfolding ht_hash
hash-lt capacity key pos = mod-lt ((69 * key + 99) % 123) pos

module _ {ℓ} {A : Type ℓ} where
  chain_at-set :
      (nodes : List (Chain A)) (i j : ℕ) (chain : Chain A)
      → i < length nodes
      → chain_at (set nodes i chain) j ≡ (if i == j then chain else chain_at nodes j)
  chain_at-set nodes i j chain l = elim (Bool-cases (i == j)) [
    | inl t ↦
        let e : i ≡ j = ground arith in
        rw t (
          ap (λ k. chain_at (set nodes i chain) k) (sym e)
          ∙ ap (λ o. elim o [ none ↦ [] | some chain ↦ chain ]) (get_elem?-set nodes i chain l))
    | inr t ↦
        let apart : j ≢ i = λ e. ground arith in
        rw t (
          ap (λ o. elim o [ none ↦ [] | some chain ↦ chain ])
            (get_elem?-set_other nodes i j chain apart))
  ]

  -- What the array says of a key.
  abbrev pub view : ℕ → List (Chain A) → ℕ → Option A
  view capacity nodes key = find_node key (chain_at nodes (ht_hash capacity key))

  -- A map in which one key is given another value, or none.
  abbrev pub updated : ℕ → Option A → (ℕ → Option A) → ℕ → Option A
  updated key value f other = if key == other then value else f other

  -- Each key stands at most once, and in the chain of its hash.
  pub record IsPlaced (capacity : ℕ) (nodes : List (Chain A)) : Type ℓ where
    pub width : length nodes ≡ capacity
    pub pos : 0 < capacity
    pub distinct : (i : ℕ) → Distinct (chain_at nodes i)
    pub home : (i key : ℕ) → find_node key (chain_at nodes i) ≢ none → ht_hash capacity key ≡ i

  module _ (capacity : ℕ) (nodes : List (Chain A)) (p : IsPlaced capacity nodes) (key : ℕ)
      (value : Option A) (chain : Chain A) (d : Distinct chain)
      (found : find_node key chain ≡ value)
      (others : (other : ℕ)
        → other ≢ key
        → find_node other chain ≡ find_node other (chain_at nodes (ht_hash capacity key))) where
    abbrev index : ℕ
    index = ht_hash capacity key

    at :
        (j : ℕ)
        → chain_at (set nodes index chain) j ≡ (if index == j then chain else chain_at nodes j)
    at j =
        let l = hash-lt capacity key p.pos in
        chain_at-set nodes index j chain (omega (arith, l, p.width))

    Distinct-at : (j : ℕ) → Distinct (chain_at (set nodes index chain) j)
    Distinct-at j = elim (Bool-cases (index == j)) [
      | inl t ↦ subst Distinct (sym (at j ∙ rw t refl)) d
      | inr t ↦ subst Distinct (sym (at j ∙ rw t refl)) (p.distinct j)
    ]

    home_at :
        (j k : ℕ) → find_node k (chain_at (set nodes index chain) j) ≢ none → ht_hash capacity k ≡ j
    home_at j k there = elim (Bool-cases (index == j)) [
      | inl t ↦
          let e : index ≡ j = ground arith in
          elim (Bool-cases (k == key)) [
            | inl y ↦ let same : k ≡ key = ground arith in ap (ht_hash capacity) same ∙ e
            | inr n ↦
                let apart : k ≢ key = λ q. ground arith in
                let old : find_node k (chain_at nodes index) ≢ none =
                  λ q. there (ap (find_node k) (at j ∙ rw t refl) ∙ others k apart ∙ q) in
                p.home index k old ∙ e
          ]
      | inr t ↦ p.home j k (λ q. there (ap (find_node k) (at j ∙ rw t refl) ∙ q))
    ]

    view_at :
        (other : ℕ)
        → view capacity (set nodes index chain) other
          ≡ updated key value (view capacity nodes) other
    view_at other = elim (Bool-cases (index == ht_hash capacity other)) [
      | inl t ↦
          let e : index ≡ ht_hash capacity other = ground arith in
          let here : chain_at (set nodes index chain) (ht_hash capacity other) ≡ chain =
            at (ht_hash capacity other) ∙ rw t refl in
          ap (find_node other) here ∙ elim (Bool-cases (key == other)) [
            | inl y ↦
                let same : other ≡ key = ground arith in
                rw y (ap (λ k. find_node k chain) same ∙ found)
            | inr n ↦
                let apart : other ≢ key = λ q. ground arith in
                rw n (others other apart ∙ ap (λ i. find_node other (chain_at nodes i)) e)
          ]
      | inr t ↦
          let h = ht_hash capacity other in
          let apart : key ≢ other =
            λ same. let e : index ≡ h = ap (ht_hash capacity) same in ground arith in
          let n : key == other ≡ false = ground arith in
          let there : chain_at (set nodes index chain) h ≡ chain_at nodes h = at h ∙ rw t refl in
          ap (find_node other) there ∙ rw n refl
    ]

    -- An array in which the chain of a key has been replaced.
    pub set-IsPlaced :
        IsPlaced capacity (set nodes index chain)
        × ((other : ℕ)
            → view capacity (set nodes index chain) other
              ≡ updated key value (view capacity nodes) other)
    set-IsPlaced = (
      record {
        width = length-set nodes index chain ∙ p.width;
        pos = p.pos;
        distinct = Distinct-at;
        home = home_at;
      },
      view_at,
    )
