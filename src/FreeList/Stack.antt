-- ===== src/FreeList/Stack.antt =====
-- The free list of source/tssx/free-list.c as a stack.
use tssx.Base.{
  ℕ, blit, ◌+◌, ◌-◌, ◌^◌, ◌<◌, ◌≡◌, ◌≢◌, refl, sym, ap, ◌∙◌, subst, Option-cases, none, some, true,
  false, inl, inr, List, [], ◌∷◌, ◌++◌, length, take, get_elem?, ◌==◌, ltb, sub_size, mul_size,
  arith, length-append, take_append, get_elem?-append,
}
use tssx.Vector.{
  Block, success, Answer, Pointer, vector_pop_back, vector_back, vector_get, get_guarded,
  pop_back_guarded, vector_should_shrink, vector_adjust_capacity, vector_reallocate, replace_block,
  read_through,
}
use tssx.Vector.Inv.{Holds}
use tssx.Vector.Edits.{pop_room}
use tssx.Vector.Lookup.{read_at, vector_back_lem}
use tssx.Vector.Refine.{perform-Edits, push_back, perform, apply}
use tssx.FreeList.{
  FreeList, Popped, popped, invalid_read, read_popped, or_terminate, free_list_push, free_list_pop,
}

module _ (list : FreeList) (xs : List ℕ) (h : Holds list xs) (small : length xs < 2 ^ 62) where
  -- The pointer to the last key.
  last_key :
      (x : ℕ)
      → get_elem? xs (length xs - 1) ≡ some x
      → 0 < length xs
      → (p : Pointer) × (vector_back list ≡ some (some p)) × (read_through list p ≡ some x)
  unfolding read_at
  last_key x e pos =
      let (o, back, reads) = vector_back_lem list xs h x small pos e in
      elim (Option-cases o) [
        | inl n ↦
            let q : read_at list o ≡ none = ap (read_at list) n in
            absurd (let r = sym q ∙ reads in cc)
        | inr (p, n) ↦ (p, back ∙ ap some n, sym (ap (read_at list) n) ∙ reads)
      ]

  -- A pop that leaves a key behind frees nothing.
  free_list_pop_lem :
      (x : ℕ) (answer : Answer)
      → get_elem? xs (length xs - 1) ≡ some x
      → 1 < length xs
      → (list' : FreeList) × (free_list_pop list answer ≡ popped x list')
        × Holds list' (take (length xs - 1) xs)
  unfolding free_list_pop vector_pop_back pop_back_guarded vector_should_shrink or_terminate
      read_through read_popped
  free_list_pop_lem x answer e more =
      let (p, back, reads) = last_key x e (omega arith) in
      let sized : list.element_size == 0 ≡ false = ground (arith, h.sized) in
      let some_left : ltb 0 list.size ≡ true = ground (arith, h.size) in
      let kept : sub_size list.size 1 == mul_size list.capacity 0 ≡ false =
        let n : 0 < sub_size list.size 1 = omega (arith, h.size) in ground arith in
      let popped_list : vector_pop_back list answer
          ≡ some (success, record list { size = sub_size list.size 1 }) =
        rw (vector_pop_back, some_left, pop_back_guarded, sized, vector_should_shrink, kept) refl in
      (
        record list { size = sub_size list.size 1 },
        rw (free_list_pop, back, popped_list, or_terminate, read_popped)
            (ap
              (λ o. elim o [
                | none ↦ invalid_read (record list { size = sub_size list.size 1 }) p
                | some key ↦ popped key (record list { size = sub_size list.size 1 })
              ])
              reads),
        pop_room list xs h (omega arith) small,
      )

-- A key pushed on a list that is not empty is the next key popped, whether or not `malloc` answers the
-- pop, and the pop leaves the list that there was.
pub push-pop :
    (list : FreeList) (xs : List ℕ) (x address : ℕ) (answer : Answer)
    → Holds list xs
    → 0 < length xs
    → length xs + 1 < 2 ^ 62
    → (list' list'' : FreeList) × (free_list_push list x (some address) ≡ some list')
      × Holds list' (xs ++ (x ∷ []))
      × (free_list_pop list' answer ≡ popped x list'')
      × Holds list'' xs
unfolding free_list_push or_terminate perform apply
push-pop list xs x address answer h pos small =
    let (list', ran, h') = perform-Edits list xs h (omega arith) address (push_back x) in
    let n : length (xs ++ (x ∷ [])) ≡ length xs + 1 = length-append xs (x ∷ []) in
    let at_end : get_elem? (xs ++ (x ∷ [])) (length (xs ++ (x ∷ [])) - 1) ≡ some x =
      let last : length (xs ++ (x ∷ [])) - 1 ≡ length xs = omega (arith, n) in
      ap (get_elem? (xs ++ (x ∷ []))) last ∙ get_elem?-append xs x in
    let rest : take (length (xs ++ (x ∷ [])) - 1) (xs ++ (x ∷ [])) ≡ xs =
      let last : length (xs ++ (x ∷ [])) - 1 ≡ length xs = omega (arith, n) in
      ap (λ m. take m (xs ++ (x ∷ []))) last ∙ take_append xs (x ∷ []) in
    let (list'', run, h'') =
      free_list_pop_lem list' (xs ++ (x ∷ [])) h' (omega (arith, n)) x answer at_end
        (omega (arith, n)) in
    (
      list',
      list'',
      ap (λ o. elim o [ none ↦ none | some r ↦ or_terminate r ]) ran,
      h',
      run,
      subst (Holds list'') rest h'',
    )

free_list_pop-read :
    (list list' : FreeList) (p : Pointer) (answer : Answer)
    → vector_back list ≡ some (some p)
    → vector_pop_back list answer ≡ some (success, list')
    → free_list_pop list answer ≡ read_popped p list'
unfolding free_list_pop or_terminate
free_list_pop-read list list' p answer back pop = rw (free_list_pop, back, pop, or_terminate) refl

-- The read of a pop that has emptied the list.
emptied : FreeList → ℕ → Block ℕ → Popped
emptied list address b =
    invalid_read
      (record list {
        size = 0;
        capacity = 2;
        block = some (record { address = address; slots = none ∷ none ∷ []; overruns = [] });
      })
      (record { address = b.address; index = 0 })

pop_only :
    (capacity element_size address : ℕ) (b : Block ℕ)
    → element_size == 0 ≡ false
    → 2 < capacity
    → address ≢ b.address
    → let list : FreeList = record {
      size = 1;
      capacity = capacity;
      element_size = element_size;
      block = some b;
    } in
      free_list_pop list (some address) ≡ emptied list address b
unfolding free_list_pop or_terminate vector_back vector_get get_guarded vector_pop_back
    pop_back_guarded vector_should_shrink vector_adjust_capacity vector_reallocate replace_block
    read_through read_popped emptied blit
pop_only capacity element_size address b sized wide fresh =
    let list : FreeList = record {
      size = 1;
      capacity = capacity;
      element_size = element_size;
      block = some b;
    } in
    let empty : 0 == mul_size capacity 0 ≡ true = ground arith in
    let more : ltb 2 capacity ≡ true = ground arith in
    let other : address == b.address ≡ false = ground arith in
    let back : vector_back list ≡ some (some (record { address = b.address; index = 0 })) =
      rw (vector_back, vector_get, get_guarded, sized) refl in
    let popped_list : vector_pop_back list (some address)
        ≡ some (
          success,
          record list {
            size = 0;
            capacity = 2;
            block = some (record { address = address; slots = none ∷ none ∷ []; overruns = [] });
          },
        ) =
      rw
        (
          vector_pop_back, pop_back_guarded, sized, vector_should_shrink, empty,
          vector_adjust_capacity, vector_reallocate, more,
        )
        refl in
    free_list_pop-read list _ _ (some address) back popped_list ∙ rw (read_popped, other) refl

-- Where the last key of a vector with more room than two is popped and `malloc` answers with another
-- address, `vector_pop_back` moves the vector to a new block of two slots and frees the old one, and
-- the key is then read at the front of the block that was freed.
pub free_list_pop-freed :
    (list : FreeList) (x address : ℕ)
    → (h : Holds list (x ∷ [])) → 2 < list.capacity
    → address ≢ h.block.address
    → free_list_pop list (some address)
      ≡ invalid_read
          (record list {
            size = 0;
            capacity = 2;
            block = some (record { address = address; slots = none ∷ none ∷ []; overruns = [] });
          })
          (record { address = h.block.address; index = 0 })
unfolding emptied
free_list_pop-freed list x address h wide fresh =
    let known : list ≡ record list { size = 1; block = some h.block } =
      ap (λ n. record list { size = n }) h.size
      ∙ ap (λ b. record list { size = 1; block = b }) h.initialized in
    ap (λ l. free_list_pop l (some address)) known
    ∙ pop_only list.capacity list.element_size address h.block (ground (arith, h.sized)) wide fresh
