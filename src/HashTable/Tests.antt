-- ===== src/HashTable/Tests.antt =====
-- The table of source/tssx/hashtable.c at small inputs.
use tssx.Base.{ℕ, ◌≡◌, refl, false, none, some, List, [], ◌∷◌}
use tssx.HashTable.{
  HashTable, insert_node, update_node, find_node, remove_node, rehash_chain, ht_hash, ht_get,
  ht_insert, ht_remove, ht_contains, ht_create_if_necessary, ht_setup, ht_allocate, ht_resize,
  ht_rehash,
}
use tssx.HashTable.Refinement.{
  Call, insert, remove, clear, get, contains, table_answers, map_answers, table_answers-map_answers,
}

program : Unit {0}
unfolding insert_node update_node find_node remove_node rehash_chain ht_hash ht_get ht_insert
    ht_remove ht_contains ht_create_if_necessary ht_setup ht_allocate ht_resize ht_rehash
program = tt

abbrev nothing : HashTable ℕ
nothing = record { size = 0; threshold = 0; capacity = 0; nodes = none }

-- 1 and 42 have the same hash.
abbrev pair : HashTable ℕ
pair = (ht_insert ((ht_insert nothing 1 10).1) 42 20).1

pair_get : ht_get pair 1 ≡ some 10
unfolding program
pair_get = refl

pair_removed : ht_contains ((ht_remove pair 42).1) 42 ≡ false
unfolding program
pair_removed = refl

-- Through the growth of the table and its shrinking.
abbrev mixed : List (Call ℕ)
mixed =
    insert 1 10 ∷ insert 42 20 ∷ insert 1 30 ∷ get 1 ∷ remove 42 ∷ contains 42 ∷ clear ∷ get 1 ∷ []

table_answers-map_answers_example : table_answers nothing mixed ≡ map_answers (λ _. none) mixed
table_answers-map_answers_example = table_answers-map_answers nothing mixed refl
