-- ===== src/FreeList/Tests.antt =====
-- The free list of source/tssx/free-list.c at small inputs.
use tssx.Base.{ℕ, ◌≡◌, refl, none, some, false, [], ◌∷◌, arith}
use tssx.Vector.{Block, vector_is_empty}
use tssx.Vector.Inv.{Holds}
use tssx.FreeList.{
  FreeList, popped, invalid_read, free_list_push, free_list_pop, free_list_is_empty,
}
use tssx.FreeList.Stack.{push-pop, free_list_pop-freed}

abbrev block : Block ℕ
block = record { address = 80; slots = some 5 ∷ none ∷ none ∷ none ∷ []; overruns = [] }

-- The key 5, with room for four.
abbrev five : FreeList
five = record { size = 1; capacity = 4; element_size = 4; block = some block }

abbrev five-Holds : Holds five (5 ∷ [])
five-Holds = record {
  block = block;
  initialized = refl;
  width = refl;
  size = refl;
  fits = omega arith;
  elements = refl;
  room = omega arith;
  sized = omega arith;
}

five_is_left : free_list_is_empty five ≡ false
unfolding free_list_is_empty vector_is_empty
five_is_left = refl

push-pop_example :
    (list' list'' : FreeList) × (free_list_push five 6 (some 96) ≡ some list')
    × Holds list' (5 ∷ 6 ∷ [])
    × (free_list_pop list' none ≡ popped 6 list'')
    × Holds list'' (5 ∷ [])
push-pop_example = push-pop five (5 ∷ []) 6 96 none five-Holds (omega arith) (omega arith)

free_list_pop-freed_example :
    free_list_pop five (some 96)
    ≡ invalid_read
        (record {
          size = 0;
          capacity = 2;
          element_size = 4;
          block = some (record { address = 96; slots = none ∷ none ∷ []; overruns = [] });
        })
        (record { address = 80; index = 0 })
free_list_pop-freed_example =
    free_list_pop-freed five 5 96 five-Holds (omega arith)
      (λ e. let e' : 96 ≡ 80 = e in absurd (omega (arith, e')))
