-- ===== src/StringSet/Tests.antt =====
-- The set of source/tssx/string-set.c at small inputs, and the theorem about it at such an input.
use tssx.Base.{ℕ, ◌≡◌, ◌≢◌, refl, true, false, none, some, List, [], ◌∷◌, arith}
use tssx.StringSet.{
  String, Chain, StringSet, insert_string, ss_contains, ss_remove, ss_insert, ss_hash, hash_from,
  ss_equals, chain_contains, ss_create_if_necessary, ss_setup, ss_allocate, ss_resize,
}
use tssx.StringSet.Lookup.{insert-remove}

abbrev nothing : StringSet
nothing = record { size = 0; threshold = 0; capacity = 0; nodes = none }

-- "/a", at two places.
abbrev path : String
path = record { address = 40; characters = 47 ∷ 97 ∷ [] }

abbrev two_paths : StringSet
two_paths =
    (ss_insert ((ss_insert nothing path 80).1) (record path { characters = 47 ∷ 98 ∷ [] }) 90).1

two_paths_contain : ss_contains two_paths (47 ∷ 97 ∷ []) ≡ true
unfolding insert_string ss_contains ss_insert ss_hash hash_from ss_equals chain_contains
    ss_create_if_necessary ss_setup ss_allocate ss_resize
two_paths_contain = refl

-- One chain of one node.
abbrev chain : Chain
chain = record { key = record { address = 80; characters = 47 ∷ 98 ∷ [] } } ∷ []

abbrev single : StringSet
single = record { size = 1; threshold = 5; capacity = 1; nodes = some (chain ∷ []) }

insert-remove_example :
    let new = (insert_string single (chain ∷ []) path 90).1 in
    (ss_contains new (47 ∷ 97 ∷ []) ≡ true)
    × ((other : List ℕ) → other ≢ 47 ∷ 97 ∷ [] → ss_contains new other ≡ ss_contains single other)
    × (ss_remove new path ≡ (false, new))
unfolding ss_hash hash_from
insert-remove_example =
    insert-remove single (chain ∷ []) refl refl (omega arith) path 90
      ((λ e. absurd (omega (arith, e))), tt) (λ e. absurd (omega (arith, e)))
