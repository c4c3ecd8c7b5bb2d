-- ===== src/ReverseMap/Tests.antt =====
-- The map of source/tssx/reverse-map.c at small inputs, and the theorems about it there.
use tssx.Base.{ℕ, ◌≡◌, refl, false, none, some, replicate, length-replicate, arith}
use tssx.ReverseMap.{
  ReverseMap, reverse_map_setup, reverse_map_destroy, reverse_map_lookup, reverse_map_insert,
  reverse_map_erase, reverse_map_is_empty,
}
use tssx.ReverseMap.Entries.{reverse_map_setup-lookup, reverse_map_insert-erase}

-- Whatever the map holds, it is not empty.
never_empty : reverse_map_is_empty (replicate 1024 0) ≡ false
unfolding reverse_map_is_empty
never_empty = refl

-- A stale key of socket 300 is still there behind the set-up.
reverse_map_setup-lookup_example :
    (reverse_map_lookup (reverse_map_setup (replicate 1024 7)) 300 ≡ some 7)
    × (reverse_map_lookup (reverse_map_destroy (replicate 1024 7)) 300 ≡ some 7)
unfolding reverse_map_lookup
reverse_map_setup-lookup_example =
    reverse_map_setup-lookup (replicate 1024 7) 300 (length-replicate {A = ℕ} 1024 7) (omega arith)

reverse_map_insert-erase_example :
    (inserted : ReverseMap) × (erased : ReverseMap) × (reverse_map_insert (replicate 1024 0) 5 9
      ≡ some inserted)
    × (reverse_map_lookup inserted 5 ≡ some 9)
    × ((other : ℕ) → reverse_map_insert inserted 5 other ≡ none)
    × (reverse_map_erase inserted 5 ≡ some erased)
    × (reverse_map_erase erased 5 ≡ none)
    × ((i : ℕ) → reverse_map_lookup erased i ≡ reverse_map_lookup (replicate 1024 0) i)
unfolding reverse_map_lookup
reverse_map_insert-erase_example =
    reverse_map_insert-erase (replicate 1024 0) 5 9 refl (omega arith)
      (λ e. absurd (omega (arith, e)))
