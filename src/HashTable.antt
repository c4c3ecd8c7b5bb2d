-- ===== src/HashTable.antt =====
-- The table of connections by key of source/tssx/hashtable.c: an array of chains. A key is a natural
-- number, small enough for the arithmetic of the hash in an `int`, and `malloc` answers.
pub mod Lookup
pub mod Chains
pub mod Arrays
pub mod Growth
pub mod Map
pub mod Removal
pub mod Refinement
mod Tests
use tssx.Base.{
  ℕ, ◌+◌, ◌-◌, ◌*◌, ◌/◌, ◌%◌, Bool, true, false, Option, none, some, List, [], ◌∷◌, get_elem?, set,
  replicate, ltb, ◌==◌, if◌then◌else◌, add_size, sub_size, mul_size,
}

-- `struct Node`, and the nodes of a chain from the first.
pub record Node {ℓ} (A : Type ℓ) : Type ℓ where
  pub key : ℕ
  pub connection : A

abbrev pub Chain {ℓ} : Type ℓ → Type ℓ
Chain A = List (Node A)

-- `nodes` is none for HT_UNINITIALIZED.
pub record HashTable {ℓ} (A : Type ℓ) : Type ℓ where
  pub size : ℕ
  pub threshold : ℕ
  pub capacity : ℕ
  pub nodes : Option (List (Chain A))

abbrev pub ht_minimum_capacity : ℕ
ht_minimum_capacity = 8

abbrev pub ht_load_factor : ℕ
ht_load_factor = 5

unfoldable pub ht_hash : ℕ → ℕ → ℕ
ht_hash capacity key = (69 * key + 99) % 123 % capacity

module _ {ℓ} {A : Type ℓ} where
  abbrev pub chain_at : List (Chain A) → ℕ → Chain A
  chain_at nodes index = elim (get_elem? nodes index) [ none ↦ [] | some chain ↦ chain ]

  unfoldable pub ht_allocate : HashTable A → ℕ → HashTable A
  ht_allocate table capacity = record table {
    nodes = some (replicate capacity []);
    capacity = capacity;
    threshold = mul_size capacity ht_load_factor;
  }

  unfoldable pub ht_setup : HashTable A → ℕ → HashTable A
  ht_setup table capacity =
      let wide = if ltb capacity ht_minimum_capacity then ht_minimum_capacity else capacity in
      record (ht_allocate table wide) { size = 0 }

  unfoldable pub ht_create_if_necessary : HashTable A → HashTable A
  ht_create_if_necessary table = elim table.nodes [ none ↦ ht_setup table 0 | some _ ↦ table ]

  -- The loop over a chain in `_ht_rehash`: each node goes to the front of its new chain.
  unfoldable pub rehash_chain : ℕ → Chain A → List (Chain A) → List (Chain A)
  rehash_chain capacity [] nodes = nodes
  rehash_chain capacity (node ∷ chain) nodes =
      let index = ht_hash capacity node.key in
      rehash_chain capacity chain (set nodes index (node ∷ chain_at nodes index))

  unfoldable pub ht_rehash : ℕ → List (Chain A) → List (Chain A) → List (Chain A)
  ht_rehash capacity [] nodes = nodes
  ht_rehash capacity (chain ∷ old) nodes =
      ht_rehash capacity old (rehash_chain capacity chain nodes)

  unfoldable pub ht_resize : HashTable A → HashTable A
  ht_resize table =
      let new_capacity = mul_size table.size 2 in
      if ltb new_capacity ht_minimum_capacity then table else elim table.nodes [
        | none ↦ table
        | some old ↦ record (ht_allocate table new_capacity) {
          nodes = some (ht_rehash new_capacity old (replicate new_capacity []));
        }
      ]

  -- The loops over a chain of `ht_get`, `ht_insert` and `ht_remove`.
  unfoldable pub find_node : ℕ → Chain A → Option A
  find_node key [] = none
  find_node key (node ∷ chain) =
      let rest = find_node key chain in if node.key == key then some node.connection else rest

  unfoldable pub update_node : ℕ → A → Chain A → Option (Chain A)
  update_node key connection [] = none
  update_node key connection (node ∷ chain) =
      let rest = update_node key connection chain in
      if node.key == key
      then some (record node { connection = connection } ∷ chain)
      else elim rest [ none ↦ none | some chain' ↦ some (node ∷ chain') ]

  unfoldable pub remove_node : ℕ → Chain A → Option (Chain A)
  remove_node key [] = none
  remove_node key (node ∷ chain) =
      let rest = remove_node key chain in
      if node.key == key
      then some chain
      else elim rest [ none ↦ none | some chain' ↦ some (node ∷ chain') ]

  -- `ht_insert` behind the resize; true is HT_INSERTED.
  unfoldable pub insert_node : HashTable A → List (Chain A) → ℕ → A → Bool × HashTable A
  insert_node table nodes key connection =
      let index = ht_hash table.capacity key in
      elim (update_node key connection (chain_at nodes index)) [
        | some chain ↦ (false, record table { nodes = some (set nodes index chain) })
        | none ↦
            let node : Node A = record { key = key; connection = connection } in
            (
              true,
              record table {
                nodes = some (set nodes index (node ∷ chain_at nodes index));
                size = add_size table.size 1;
              },
            )
      ]

  unfoldable pub ht_insert : HashTable A → ℕ → A → Bool × HashTable A
  ht_insert table key connection =
      let made = ht_create_if_necessary table in
      let wide = if made.size == made.threshold then ht_resize made else made in
      elim wide.nodes [ none ↦ (false, wide) | some nodes ↦ insert_node wide nodes key connection ]

  unfoldable pub ht_get : HashTable A → ℕ → Option A
  ht_get table key = elim table.nodes [
    | none ↦ none
    | some nodes ↦ find_node key (chain_at nodes (ht_hash table.capacity key))
  ]

  unfoldable pub ht_contains : HashTable A → ℕ → Bool
  ht_contains table key = elim table.nodes [
    | none ↦ false
    | some nodes ↦ elim (find_node key (chain_at nodes (ht_hash table.capacity key))) [
      | none ↦ false
      | some _ ↦ true
    ]
  ]

  -- HT_NOT_FOUND is false, HT_OK is true.
  unfoldable pub ht_remove : HashTable A → ℕ → Bool × HashTable A
  ht_remove table key = elim table.nodes [
    | none ↦ (false, table)
    | some nodes ↦
        let index = ht_hash table.capacity key in
        elim (remove_node key (chain_at nodes index)) [
          | none ↦ (false, table)
          | some chain ↦
              let smaller = record table {
                nodes = some (set nodes index chain);
                size = sub_size table.size 1;
              } in
              (true, if smaller.size == smaller.threshold / 4 then ht_resize smaller else smaller)
        ]
  ]

  unfoldable pub ht_clear : HashTable A → HashTable A
  ht_clear table = elim table.nodes [
    | none ↦ table
    | some _ ↦ record (ht_allocate table ht_minimum_capacity) { size = 0 }
  ]

  unfoldable pub ht_is_empty : HashTable A → Bool
  ht_is_empty table = table.size == 0
