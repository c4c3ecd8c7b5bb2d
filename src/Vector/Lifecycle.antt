-- ===== src/Vector/Lifecycle.antt =====
-- Setting up, copying, moving and swapping vectors of include/tssx/vector.h, and what is left where
-- `malloc` fails.
use tssx.Base.{
  ℕ, ◌^◌, ◌≤◌, ◌<◌, ◌≡◌, refl, sym, ap, ◌∙◌, Option, none, some, true, false, List, [], ◌∷◌, map,
  length, take, blit, replicate, length-blit, length-replicate, length-map, slice-blit_self, ltb,
  ◌==◌, max, mul_size, arith,
}
use tssx.Vector.{
  Vector, success, error, Answer, slots, new_block, copy_guarded, vector_setup, vector_copy,
  vector_copy_assign, vector_destroy, vector_move, vector_move_assign, vector_swap,
  vector_is_initialized, vector_push_back, push_grown, grow_if_full, vector_should_grow,
  vector_adjust_capacity, vector_reallocate, replace_block, put_element,
}
use tssx.Vector.Inv.{Holds}

module _ {ℓ} {A : Type ℓ} where
  -- A block of `n` slots whose front is the given elements.
  pub fresh-Holds :
      (xs : List A) (old : List (Option A)) (n address element_size size : ℕ)
      → old ≡ map some xs
      → size ≡ length xs
      → length xs ≤ n
      → 0 < n
      → 0 < element_size
      → Holds
          (record {
            size = size;
            capacity = n;
            element_size = element_size;
            block = new_block n old (some address);
          })
          xs
  fresh-Holds xs old n address element_size size e s l pos sized = record {
    block = record { address = address; slots = blit (replicate n none) 0 old; overruns = [] };
    initialized = refl;
    width = length-blit (replicate n none) 0 old ∙ length-replicate n none;
    size = s;
    fits = l;
    elements =
        ap (λ l. take (length xs) (blit (replicate n none) 0 l)) e
        ∙ ap (λ m. take m (blit (replicate n none) 0 (map some xs))) (sym (length-map some xs))
        ∙ slice-blit_self (replicate n none) 0 (map some xs)
            (omega (arith, length-map {ℓ, ℓ} some xs, length-replicate {ℓ} {A = Option A} n none));
    room = pos;
    sized = sized;
  }

  initialized_iff : (v : Vector A) (xs : List A) → Holds v xs → vector_is_initialized v ≡ true
  unfolding vector_is_initialized
  initialized_iff v xs h = ground (arith, h.initialized)

  front_of : (v : Vector A) (xs : List A) → Holds v xs → take v.size (slots v) ≡ map some xs
  front_of v xs h =
      ap (λ b. take v.size (elim b [ none ↦ [] | some b' ↦ b'.slots ])) h.initialized
      ∙ ap (λ n. take n h.block.slots) h.size
      ∙ h.elements

  -- `vector_setup` for elements of a positive size gives an empty vector if `calloc` answers, with
  -- room for two elements at least.
  vector_setup-Holds :
      (v : Vector A) (capacity element_size address : ℕ)
      → 0 < element_size
      → (v' : Vector A) × (vector_setup v capacity element_size (some address) ≡ (success, v'))
        × Holds v' []
        × (v'.capacity ≡ max 2 capacity)
  unfolding vector_setup
  vector_setup-Holds v capacity element_size address sized = (
    _,
    refl,
    fresh-Holds [] [] (max 2 capacity) address element_size 0 refl refl (omega arith) (omega arith)
        sized,
    refl,
  )

  destroyed : (v : Vector A) → vector_is_initialized ((vector_destroy v).1) ≡ false
  unfolding vector_is_initialized vector_destroy
  destroyed v = refl

  full_grows :
      (v : Vector A) (xs : List A)
      → Holds v xs
      → length xs ≡ v.capacity
      → length xs < 2 ^ 62
      → grow_if_full v none ≡ (error, record v { block = none })
  unfolding grow_if_full vector_should_grow vector_adjust_capacity vector_reallocate replace_block
  full_grows v xs h full small =
      let e : v.size == v.capacity ≡ true = ground (arith, h.size) in
      let wide : ltb (max 1 (mul_size v.size 2)) 2 ≡ false =
        let n : 2 ≤ max 1 (mul_size v.size 2) = omega (arith, h.size, h.room) in ground arith in
      rw (e, wide)

  -- `vector_copy` of a vector that holds at least one element into one that is not set up, and
  -- `vector_copy_assign` into one that is, give a vector of the same elements in a block of its own.
  pub vector_copy-Holds :
      (destination source : Vector A) (xs : List A) (address : ℕ)
      → Holds source xs
      → 0 < length xs
      → length xs < 2 ^ 62
      → (v' : Vector A) × Holds v' xs
        × (vector_is_initialized destination ≡ false
            → vector_copy destination source (some address) ≡ some (success, v'))
        × (vector_is_initialized destination ≡ true
            → vector_copy_assign destination source (some address) ≡ some (success, v'))
  unfolding vector_copy vector_copy_assign copy_guarded
  vector_copy-Holds destination source xs address h pos small =
      let copied = take source.size (slots source) in
      let i = initialized_iff source xs h in
      (
        record {
          size = source.size;
          capacity = mul_size source.size 2;
          element_size = source.element_size;
          block = new_block (mul_size source.size 2) copied (some address);
        },
        fresh-Holds xs copied (mul_size source.size 2) address source.element_size source.size
            (front_of source xs h) h.size (omega (arith, h.size)) (omega (arith, h.size)) h.sized,
        λ e. rw (e, i),
        λ e. rw (e, i, destroyed destination),
      )

  -- `vector_swap` and `vector_move_assign` of two vectors that are set up hand the elements of one to
  -- the other; `vector_move_assign` leaves its source without a block, and so does `vector_move`.
  pub vector_move-Holds :
      (destination source : Vector A) (xs ys : List A)
      → Holds destination xs
      → Holds source ys
      → (vector_swap destination source ≡ some (success, source, destination))
        × (vector_move_assign destination source
            ≡ some (success, source, record destination { block = none }))
        × (vector_move destination source ≡ (success, source, record source { block = none }))
  unfolding vector_swap vector_move_assign vector_move vector_destroy
  vector_move-Holds destination source xs ys h k =
      let d = initialized_iff destination xs h in
      let s = initialized_iff source ys k in
      (
        rw (s, d) refl,
        ap
            (λ o. elim o [
              | none ↦ none
              | some (_, v, w) ↦ some (success, v, record w { block = none })
            ])
            (let e : vector_swap destination source ≡ some (success, source, destination) =
                rw (s, d) refl in
              e),
        refl,
      )

  -- Where a full vector grows and `malloc` fails, `vector_push_back` returns VECTOR_ERROR and the
  -- vector has lost its block, and with it every element.
  pub vector_push_back-loses :
      (v : Vector A) (xs : List A) (x : A)
      → Holds v xs
      → length xs ≡ v.capacity
      → length xs < 2 ^ 62
      → (vector_push_back v x none).0 ≡ error × ((vector_push_back v x none).1.block ≡ none)
  unfolding vector_push_back push_grown
  vector_push_back-loses v xs x h full small =
      let e : grow_if_full v none ≡ (error, record v { block = none }) =
        full_grows v xs h full small in
      (ap (λ r. (push_grown x r).0) e, ap (λ r. (push_grown x r).1.block) e)

  -- `vector_copy` of an empty vector into one that is not set up succeeds with a block of no slots, and
  -- `vector_push_back` to the copy, whatever `malloc` would answer, does not grow it: it returns
  -- VECTOR_SUCCESS, and the element has been written past the end of that block, at index 0.
  pub vector_push_back-overruns :
      (destination source : Vector A) (x : A) (address : ℕ) (answer : Answer)
      → Holds source []
      → vector_is_initialized destination ≡ false
      → (copy : Vector A) × (vector_copy destination source (some address) ≡ some (success, copy))
        × (vector_push_back copy x answer ≡ (
          success,
          record {
            size = 1;
            capacity = 0;
            element_size = source.element_size;
            block = some (record { address = address; slots = []; overruns = (0, x) ∷ [] });
          },
        ))
  unfolding vector_copy copy_guarded vector_push_back grow_if_full vector_should_grow
      vector_adjust_capacity vector_reallocate push_grown put_element blit
  vector_push_back-overruns destination source x address answer h e = (
    record {
      size = 0;
      capacity = 0;
      element_size = source.element_size;
      block = some (record { address = address; slots = []; overruns = [] });
    },
    rw (e, initialized_iff source [] h, h.size) refl,
    refl,
  )
