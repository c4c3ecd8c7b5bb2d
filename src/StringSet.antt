-- ===== src/StringSet.antt =====
-- The set of strings of source/tssx/string-set.c: an array of chains. A string is its characters, which
-- are ASCII and not zero, and the address that it stands at; `malloc` answers, for a node with an address.
pub mod Lookup
mod Tests
use Prim.Native.Nat.{bit_xor}
use tssx.Base.{
  ℕ, ◌+◌, ◌*◌, ◌/◌, ◌%◌, ◌^◌, Bool, true, false, Option, none, some, List, [], ◌∷◌, get_elem?, set,
  replicate, ltb, ◌==◌, ◌&&◌, if◌then◌else◌, add_size, sub_size, mul_size, size_modulus,
}

pub record String : Type 0 where
  pub address : ℕ
  pub characters : List ℕ

-- `struct Node`: `key` stands inside of it. A chain is its nodes from the first.
pub record Node : Type 0 where
  pub key : String

abbrev pub Chain : Type 0
Chain = List Node

-- `nodes` is none for SS_UNINITIALIZED.
pub record StringSet : Type 0 where
  pub size : ℕ
  pub threshold : ℕ
  pub capacity : ℕ
  pub nodes : Option (List Chain)

abbrev pub ss_minimum_capacity : ℕ
ss_minimum_capacity = 8

abbrev pub ss_load_factor : ℕ
ss_load_factor = 5

-- `strcmp` finds no difference.
unfoldable pub ss_equals : List ℕ → List ℕ → Bool
ss_equals [] [] = true
ss_equals [] (d ∷ second) = false
ss_equals (c ∷ first) [] = false
ss_equals (c ∷ first) (d ∷ second) = c == d && ss_equals first second

-- The loop of `_ss_hash`.
unfoldable pub hash_from : ℕ → List ℕ → ℕ
hash_from hash [] = hash
hash_from hash (c ∷ characters) =
    hash_from (bit_xor ((hash * 32 % size_modulus + hash) % size_modulus) c) characters

unfoldable pub ss_hash : ℕ → List ℕ → ℕ
ss_hash capacity characters = hash_from 5381 characters % capacity

abbrev pub chain_at : List Chain → ℕ → Chain
chain_at nodes index = elim (get_elem? nodes index) [ none ↦ [] | some chain ↦ chain ]

unfoldable pub ss_allocate : StringSet → ℕ → StringSet
ss_allocate strings capacity = record strings {
  nodes = some (replicate capacity []);
  capacity = capacity;
  threshold = mul_size capacity ss_load_factor;
}

unfoldable pub ss_setup : StringSet → ℕ → StringSet
ss_setup strings capacity =
    let wide = if ltb capacity ss_minimum_capacity then ss_minimum_capacity else capacity in
    record (ss_allocate strings wide) { size = 0 }

unfoldable pub ss_create_if_necessary : StringSet → StringSet
ss_create_if_necessary strings = elim strings.nodes [ none ↦ ss_setup strings 0 | some _ ↦ strings ]

-- The loop over a chain in `_ss_rehash`: each node goes to the front of its new chain.
unfoldable pub rehash_chain : ℕ → Chain → List Chain → List Chain
rehash_chain capacity [] nodes = nodes
rehash_chain capacity (node ∷ chain) nodes =
    let index = ss_hash capacity node.key.characters in
    rehash_chain capacity chain (set nodes index (node ∷ chain_at nodes index))

unfoldable pub ss_rehash : ℕ → List Chain → List Chain → List Chain
ss_rehash capacity [] nodes = nodes
ss_rehash capacity (chain ∷ old) nodes = ss_rehash capacity old (rehash_chain capacity chain nodes)

unfoldable pub ss_resize : StringSet → StringSet
ss_resize strings =
    let new_capacity = mul_size strings.size 2 in
    if ltb new_capacity ss_minimum_capacity then strings else elim strings.nodes [
      | none ↦ strings
      | some old ↦ record (ss_allocate strings new_capacity) {
        nodes = some (ss_rehash new_capacity old (replicate new_capacity []));
      }
    ]

-- The loops over a chain of `ss_contains` and `ss_insert`.
unfoldable pub chain_contains : List ℕ → Chain → Bool
chain_contains characters [] = false
chain_contains characters (node ∷ chain) =
    let rest = chain_contains characters chain in
    if ss_equals node.key.characters characters then true else rest

-- The loop of `ss_remove`, which compares addresses.
unfoldable pub remove_node : ℕ → Chain → Option Chain
remove_node address [] = none
remove_node address (node ∷ chain) =
    let rest = remove_node address chain in
    if node.key.address == address
    then some chain
    else elim rest [ none ↦ none | some chain' ↦ some (node ∷ chain') ]

-- `ss_insert` behind the resize, with the address of the key in the new node; true is SS_INSERTED.
unfoldable pub insert_string : StringSet → List Chain → String → ℕ → Bool × StringSet
insert_string strings nodes key node_key =
    let index = ss_hash strings.capacity key.characters in
    let chain = chain_at nodes index in
    if chain_contains key.characters chain
    then (false, strings)
    else (let node : Node = record {
      key = record { address = node_key; characters = key.characters };
    } in
        (
          true,
          record strings {
            nodes = some (set nodes index (node ∷ chain));
            size = add_size strings.size 1;
          },
        ))

unfoldable pub ss_insert : StringSet → String → ℕ → Bool × StringSet
ss_insert strings key node_key =
    let made = ss_create_if_necessary strings in
    let wide = if made.size == made.threshold then ss_resize made else made in
    elim wide.nodes [ none ↦ (false, wide) | some nodes ↦ insert_string wide nodes key node_key ]

unfoldable pub ss_contains : StringSet → List ℕ → Bool
ss_contains strings characters = elim strings.nodes [
  | none ↦ false
  | some nodes ↦ chain_contains characters (chain_at nodes (ss_hash strings.capacity characters))
]

-- SS_NOT_FOUND is false, SS_OK is true.
unfoldable pub ss_remove : StringSet → String → Bool × StringSet
ss_remove strings key = elim strings.nodes [
  | none ↦ (false, strings)
  | some nodes ↦
      let index = ss_hash strings.capacity key.characters in
      elim (remove_node key.address (chain_at nodes index)) [
        | none ↦ (false, strings)
        | some chain ↦
            let smaller : StringSet = record strings {
              nodes = some (set nodes index chain);
              size = sub_size strings.size 1;
            } in
            (true, if smaller.size == smaller.threshold / 4 then ss_resize smaller else smaller)
      ]
]

unfoldable pub ss_clear : StringSet → StringSet
ss_clear strings = elim strings.nodes [
  | none ↦ strings
  | some _ ↦ record (ss_allocate strings ss_minimum_capacity) { size = 0 }
]

unfoldable pub ss_is_empty : StringSet → Bool
ss_is_empty strings = strings.size == 0

unfoldable pub ss_is_initialized : StringSet → Bool
ss_is_initialized strings = elim strings.nodes [ none ↦ false | some _ ↦ true ]
