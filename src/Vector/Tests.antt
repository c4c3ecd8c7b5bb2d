-- ===== src/Vector/Tests.antt =====
-- The vector of include/tssx/vector.h run on small inputs, and the theorems about it at such inputs.
use tssx.Base.{ℕ, ◌≡◌, refl, false, none, some, [], ◌∷◌, blit, arith}
use tssx.Vector.{
  Vector, success, error, copy_guarded, insert_guarded, assign_guarded, erase_guarded,
  pop_back_guarded, get_guarded, vector_setup, vector_destroy, vector_is_initialized, vector_copy,
  vector_copy_assign, vector_move, vector_swap, vector_move_assign, replace_block,
  vector_reallocate, vector_adjust_capacity, vector_should_grow, vector_should_shrink, put_element,
  grow_if_full, push_grown, vector_push_back, vector_move_right, insert_grown, vector_insert,
  vector_push_front, vector_assign, vector_pop_back, vector_move_left, vector_erase,
  vector_pop_front, finish_resize, vector_resize, vector_clear, vector_reserve,
  vector_shrink_to_fit, vector_get, vector_front, vector_back, read_through,
}
use tssx.Vector.Inv.{Holds}
use tssx.Vector.Lifecycle.{vector_push_back-loses, vector_push_back-overruns}

-- What a run of the vector computes with.
program : Unit {0}
unfolding copy_guarded insert_guarded assign_guarded erase_guarded pop_back_guarded get_guarded
    vector_setup vector_destroy vector_is_initialized vector_copy vector_copy_assign vector_move
    vector_swap vector_move_assign replace_block vector_reallocate vector_adjust_capacity
    vector_should_grow vector_should_shrink put_element grow_if_full push_grown vector_push_back
    vector_move_right insert_grown vector_insert vector_push_front vector_assign vector_pop_back
    vector_move_left vector_erase vector_pop_front finish_resize vector_resize vector_clear
    vector_reserve vector_shrink_to_fit vector_get vector_front vector_back read_through blit
program = tt

-- 5 and 6, with no room left.
abbrev pair : Vector ℕ
pair = record {
  size = 2;
  capacity = 2;
  element_size = 4;
  block = some (record { address = 80; slots = some 5 ∷ some 6 ∷ []; overruns = [] });
}

pair-Holds : Holds pair (5 ∷ 6 ∷ [])
pair-Holds = record {
  block = record { address = 80; slots = some 5 ∷ some 6 ∷ []; overruns = [] };
  initialized = refl;
  width = refl;
  size = refl;
  fits = omega arith;
  elements = refl;
  room = omega arith;
  sized = omega arith;
}

abbrev empty : Vector ℕ
empty = record pair {
  size = 0;
  block = some (record { address = 80; slots = none ∷ none ∷ []; overruns = [] });
}

empty-Holds : Holds empty []
empty-Holds = record {
  block = record { address = 80; slots = none ∷ none ∷ []; overruns = [] };
  initialized = refl;
  width = refl;
  size = refl;
  fits = omega arith;
  elements = refl;
  room = omega arith;
  sized = omega arith;
}

abbrev absent : Vector ℕ
absent = record pair { block = none }

absent-uninitialized : vector_is_initialized absent ≡ false
unfolding vector_is_initialized
absent-uninitialized = refl

push_pair : vector_push_back pair 7 (some 96) ≡ (
  success,
  record {
    size = 3;
    capacity = 4;
    element_size = 4;
    block =
        some (record { address = 96; slots = some 5 ∷ some 6 ∷ some 7 ∷ none ∷ []; overruns = [] });
  },
)
unfolding program
push_pair = refl

erase_pair :
    vector_erase pair 0 (some 96)
    ≡ some (
      success,
      record pair {
        size = 1;
        block = some (record { address = 80; slots = some 6 ∷ some 6 ∷ []; overruns = [] });
      },
    )
unfolding program
erase_pair = refl

back_pair : vector_back pair ≡ some (some (record { address = 80; index = 1 }))
unfolding program
back_pair = refl

vector_push_back-loses_example :
    ((vector_push_back pair 7 none).0 ≡ error) × ((vector_push_back pair 7 none).1.block ≡ none)
vector_push_back-loses_example =
    vector_push_back-loses pair (5 ∷ 6 ∷ []) 7 pair-Holds refl (omega arith)

vector_push_back-overruns_example :
    (copy : Vector ℕ) × (vector_copy absent empty (some 96) ≡ some (success, copy))
    × (vector_push_back copy 7 none ≡ (
      success,
      record {
        size = 1;
        capacity = 0;
        element_size = 4;
        block = some (record { address = 96; slots = []; overruns = (0, 7) ∷ [] });
      },
    ))
vector_push_back-overruns_example =
    vector_push_back-overruns absent empty 7 96 none empty-Holds absent-uninitialized
