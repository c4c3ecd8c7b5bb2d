-- ===== src/Vector.antt =====
-- The growing array of include/tssx/vector.h. Elements of `element_size` bytes are the slots of an
-- allocated block; `none` is a slot into which no element has been copied. `malloc` and `calloc` are
-- the environment's: a call that allocates takes the answer, an address or none. A result of
-- none is a failed `assert` on an argument. Those of `_vector_should_grow` and `_vector_move_right`, that
-- the size is within the capacity and that there is room, are left out: they hold of a vector that
-- `Holds` its elements.
pub mod Inv
pub mod Edits
pub mod Refine
pub mod Lifecycle
pub mod Lookup
mod Tests
use tssx.Base.{
  ℕ, ◌+◌, ◌-◌, ◌*◌, ◌/◌, Bool, true, false, not, Option, none, some, List, [], ◌∷◌, length,
  get_elem?, set, take, drop, slice, blit, replicate, ltb, leb, ◌==◌, max, if◌then◌else◌, add_size,
  sub_size, mul_size,
}

-- VECTOR_SUCCESS and VECTOR_ERROR
pub data Status : Type 0 where
  success error : Status

pub record Block {ℓ} (A : Type ℓ) : Type ℓ where
  pub address : ℕ
  pub slots : List (Option A)
  -- The elements written past the slots, each with its index.
  pub overruns : List (ℕ × A)

-- `struct Vector`; no block is `VECTOR_UNINITIALIZED`.
pub record Vector {ℓ} (A : Type ℓ) : Type ℓ where
  pub size : ℕ
  pub capacity : ℕ
  pub element_size : ℕ
  pub block : Option (Block A)

-- The answer of `malloc`.
abbrev pub Answer : Type 0
Answer = Option ℕ

abbrev pub minimum_capacity : ℕ
minimum_capacity = 2

abbrev pub growth_factor : ℕ
growth_factor = 2

-- (1 / 4), in the integers of C.
abbrev pub shrink_threshold : ℕ
shrink_threshold = 1 / 4

module _ {ℓ} {A : Type ℓ} where
  abbrev pub slots : Vector A → List (Option A)
  slots v = elim v.block [ none ↦ [] | some b ↦ b.slots ]

  -- A change of the slots where they stand.
  abbrev pub with_slots : Vector A → List (Option A) → Vector A
  with_slots v new = record v {
    block = elim v.block [ none ↦ none | some b ↦ some (record b { slots = new }) ];
  }

  abbrev pub new_block : ℕ → List (Option A) → Answer → Option (Block A)
  new_block capacity old none = none
  new_block capacity old (some address) =
      some
        (record { address = address; slots = blit (replicate capacity none) 0 old; overruns = [] })

  unfoldable pub vector_setup : Vector A → ℕ → ℕ → Answer → Status × Vector A
  vector_setup v capacity element_size answer =
      let wide = max minimum_capacity capacity in
      (
        elim answer [ none ↦ error | some _ ↦ success ],
        record {
          size = 0;
          capacity = wide;
          element_size = element_size;
          block = new_block wide [] answer;
        },
      )

  unfoldable pub vector_destroy : Vector A → Status × Vector A
  vector_destroy v = (success, record v { block = none })

  unfoldable pub vector_is_initialized : Vector A → Bool
  vector_is_initialized v = elim v.block [ none ↦ false | some _ ↦ true ]

  unfoldable pub vector_byte_size : Vector A → ℕ
  vector_byte_size v = mul_size v.size v.element_size

  unfoldable pub vector_free_space : Vector A → ℕ
  vector_free_space v = sub_size v.capacity v.size

  unfoldable pub vector_is_empty : Vector A → Bool
  vector_is_empty v = v.size == 0

  -- `vector_copy` behind its asserts: the destination is overwritten; the source's first `size`
  -- elements are copied.
  unfoldable pub copy_guarded : Vector A → Vector A → Answer → Status × Vector A
  copy_guarded destination source answer =
      if vector_is_initialized destination
      then (error, destination)
      else if not (vector_is_initialized source)
      then (error, destination)
      else (let wide = mul_size source.size 2 in
          (
            elim answer [ none ↦ error | some _ ↦ success ],
            record {
              size = source.size;
              capacity = wide;
              element_size = source.element_size;
              block = new_block wide (take source.size (slots source)) answer;
            },
          ))

  unfoldable pub vector_copy : Vector A → Vector A → Answer → Option (Status × Vector A)
  vector_copy destination source answer =
      if vector_is_initialized source
      then if vector_is_initialized destination
        then none
        else some (copy_guarded destination source answer)
      else none

  unfoldable pub vector_copy_assign : Vector A → Vector A → Answer → Option (Status × Vector A)
  vector_copy_assign destination source answer =
      if vector_is_initialized source
      then if vector_is_initialized destination
        then vector_copy ((vector_destroy destination).1) source answer
        else none
      else none

  -- The destination, then the source.
  unfoldable pub vector_move : Vector A → Vector A → Status × Vector A × Vector A
  vector_move destination source = (success, source, record source { block = none })

  unfoldable pub vector_swap : Vector A → Vector A → Option (Status × Vector A × Vector A)
  vector_swap destination source =
      if vector_is_initialized source
      then if vector_is_initialized destination then some (success, source, destination) else none
      else none

  unfoldable pub vector_move_assign : Vector A → Vector A → Option (Status × Vector A × Vector A)
  vector_move_assign destination source = elim (vector_swap destination source) [
    | none ↦ none
    | some (_, destination', source') ↦
        let (status, gone) = vector_destroy source' in some (status, destination', gone)
  ]

  -- `_vector_reallocate` once the new capacity is settled. Where `malloc` fails, `data` is NULL.
  unfoldable pub replace_block : Vector A → ℕ → Answer → Status × Vector A
  replace_block v new_capacity none = (error, record v { block = none })
  replace_block v new_capacity (some address) = (
    success,
    record v {
      capacity = new_capacity;
      block = new_block new_capacity (take v.size (slots v)) (some address);
    },
  )

  unfoldable pub vector_reallocate : Vector A → ℕ → Answer → Status × Vector A
  vector_reallocate v new_capacity answer =
      if ltb new_capacity minimum_capacity
      then if ltb minimum_capacity v.capacity
        then replace_block v minimum_capacity answer
        else (success, v)
      else replace_block v new_capacity answer

  unfoldable pub vector_adjust_capacity : Vector A → Answer → Status × Vector A
  vector_adjust_capacity v = vector_reallocate v (max 1 (mul_size v.size growth_factor))

  unfoldable pub vector_should_grow : Vector A → Bool
  vector_should_grow v = v.size == v.capacity

  unfoldable pub vector_should_shrink : Vector A → Bool
  vector_should_shrink v = v.size == mul_size v.capacity shrink_threshold

  -- `_vector_assign`, and the copies of `vector_push_back` and `vector_insert`. Nothing checks that the
  -- slot is in the block.
  unfoldable pub put_element : Vector A → ℕ → A → Vector A
  put_element v index element =
      if ltb index (length (slots v))
      then with_slots v (set (slots v) index (some element))
      else record v {
        block = elim v.block [
          | none ↦ none
          | some b ↦ some (record b { overruns = (index, element) ∷ b.overruns })
        ];
      }

  -- The growth with which `vector_push_back` and `vector_insert` begin.
  unfoldable pub grow_if_full : Vector A → Answer → Status × Vector A
  grow_if_full v answer =
      if vector_should_grow v then vector_adjust_capacity v answer else (success, v)

  -- `vector_push_back` behind the growth.
  unfoldable pub push_grown : A → Status × Vector A → Status × Vector A
  push_grown element (error, v) = (error, v)
  push_grown element (success, v) =
      let v' = put_element v v.size element in (success, record v' { size = add_size v'.size 1 })

  unfoldable pub vector_push_back : Vector A → A → Answer → Status × Vector A
  vector_push_back v element answer = push_grown element (grow_if_full v answer)

  -- `_vector_move_right`: a `memmove` by one slot.
  unfoldable pub vector_move_right : Vector A → ℕ → Vector A
  vector_move_right v index =
      with_slots v
        (blit (slots v) (add_size index 1) (slice index (sub_size v.size index) (slots v)))

  -- `vector_insert` behind the growth.
  unfoldable pub insert_grown : ℕ → A → Status × Vector A → Status × Vector A
  insert_grown index element (error, v) = (error, v)
  insert_grown index element (success, v) =
      let v' = put_element (vector_move_right v index) index element in
      (success, record v' { size = add_size v'.size 1 })

  -- `vector_insert` behind its assert on the index.
  unfoldable pub insert_guarded : Vector A → ℕ → A → Answer → Status × Vector A
  insert_guarded v index element answer =
      if v.element_size == 0
      then (error, v)
      else if ltb v.size index
      then (error, v)
      else insert_grown index element (grow_if_full v answer)

  unfoldable pub vector_insert : Vector A → ℕ → A → Answer → Option (Status × Vector A)
  vector_insert v index element answer =
      if leb index v.size then some (insert_guarded v index element answer) else none

  unfoldable pub vector_push_front : Vector A → A → Answer → Option (Status × Vector A)
  vector_push_front v = vector_insert v 0

  -- `vector_assign` behind its assert on the index.
  unfoldable pub assign_guarded : Vector A → ℕ → A → Status × Vector A
  assign_guarded v index element =
      if v.element_size == 0
      then (error, v)
      else if leb v.size index
      then (error, v)
      else (success, put_element v index element)

  unfoldable pub vector_assign : Vector A → ℕ → A → Option (Status × Vector A)
  vector_assign v index element =
      if ltb index v.size then some (assign_guarded v index element) else none

  -- `vector_pop_back` behind its assert. What the adjustment returns is not looked at.
  unfoldable pub pop_back_guarded : Vector A → Answer → Status × Vector A
  pop_back_guarded v answer =
      if v.element_size == 0
      then (error, v)
      else (let v₁ = record v { size = sub_size v.size 1 } in
          (success, if vector_should_shrink v₁ then (vector_adjust_capacity v₁ answer).1 else v₁))

  unfoldable pub vector_pop_back : Vector A → Answer → Option (Status × Vector A)
  vector_pop_back v answer = if ltb 0 v.size then some (pop_back_guarded v answer) else none

  -- `_vector_move_left`
  unfoldable pub vector_move_left : Vector A → ℕ → Vector A
  vector_move_left v index = with_slots v (
      blit (slots v) index
        (slice (add_size index 1) (sub_size (sub_size v.size index) 1) (slots v)))

  -- `vector_erase` behind its assert on the index.
  unfoldable pub erase_guarded : Vector A → ℕ → Answer → Status × Vector A
  erase_guarded v index answer =
      if v.element_size == 0
      then (error, v)
      else if leb v.size index
      then (error, v)
      else (let v₁ = vector_move_left v index in
          let v₂ = record v₁ { size = sub_size v₁.size 1 } in
          (
            success,
            if v₂.size == v₂.capacity / 4 then (vector_adjust_capacity v₂ answer).1 else v₂,
          ))

  unfoldable pub vector_erase : Vector A → ℕ → Answer → Option (Status × Vector A)
  vector_erase v index answer =
      if ltb index v.size then some (erase_guarded v index answer) else none

  unfoldable pub vector_pop_front : Vector A → Answer → Option (Status × Vector A)
  vector_pop_front v = vector_erase v 0

  -- The end of `vector_resize`.
  unfoldable pub finish_resize : ℕ → Status × Vector A → Status × Vector A
  finish_resize new_size (error, v) = (error, v)
  finish_resize new_size (success, v) = (success, record v { size = new_size })

  unfoldable pub vector_resize : Vector A → ℕ → Answer → Status × Vector A
  vector_resize v new_size answer =
      if leb new_size (mul_size v.capacity shrink_threshold)
      then finish_resize new_size (
          vector_reallocate (record v { size = new_size }) (mul_size new_size growth_factor) answer)
      else if ltb v.capacity new_size
      then finish_resize new_size (vector_reallocate v (mul_size new_size growth_factor) answer)
      else finish_resize new_size (success, v)

  unfoldable pub vector_clear : Vector A → Answer → Status × Vector A
  vector_clear v = vector_resize v 0

  unfoldable pub vector_reserve : Vector A → ℕ → Answer → Status × Vector A
  vector_reserve v minimum answer =
      if ltb v.capacity minimum then vector_reallocate v minimum answer else (success, v)

  unfoldable pub vector_shrink_to_fit : Vector A → Answer → Status × Vector A
  vector_shrink_to_fit v = vector_reallocate v v.size

-- A pointer to an element: the block that it points into, and the slot.
pub record Pointer : Type 0 where
  pub address : ℕ
  pub index : ℕ

module _ {ℓ} {A : Type ℓ} where
  -- `_vector_offset`
  abbrev pub vector_offset : Vector A → ℕ → Option Pointer
  vector_offset v index = elim v.block [
    | none ↦ none
    | some b ↦ some (record { address = b.address; index = index })
  ]

  -- `vector_get` behind its assert on the index; none is NULL.
  unfoldable pub get_guarded : Vector A → ℕ → Option Pointer
  get_guarded v index =
      if v.element_size == 0 then none else if leb v.size index then none else vector_offset v index

  unfoldable pub vector_get : Vector A → ℕ → Option (Option Pointer)
  vector_get v index = if ltb index v.size then some (get_guarded v index) else none

  unfoldable pub vector_front : Vector A → Option (Option Pointer)
  vector_front v = vector_get v 0

  unfoldable pub vector_back : Vector A → Option (Option Pointer)
  vector_back v = vector_get v (sub_size v.size 1)

  -- What the pointer reads, where the vector's block is the memory it points into; `none` is a
  -- pointer into memory that has been freed, and a slot that holds nothing.
  unfoldable pub read_through : Vector A → Pointer → Option A
  read_through v p = elim v.block [
    | none ↦ none
    | some b ↦
        if b.address == p.address
        then elim (get_elem? b.slots p.index) [ none ↦ none | some slot ↦ slot ]
        else none
  ]
