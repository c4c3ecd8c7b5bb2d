-- ===== src/Vector/Refine.antt =====
-- The calls of include/tssx/vector.h as edits of a list, while `malloc` answers.
use tssx.Base.{
  ℕ, suc, ◌-◌, ◌/◌, ◌^◌, ◌<◌, ◌≡◌, refl, sym, ap, ◌∙◌, subst, ◌≤◌, Option, none, length-blit,
  length-append, length-take, length-drop, inl, inr, some, true, false, List, [], ◌∷◌, ◌++◌, length,
  set, take, drop, slice, blit, ltb, leb, ◌==◌, if◌then◌else◌, Bool-cases, add_size, sub_size,
  mul_size, arith,
}
use tssx.Vector.{
  Vector, Status, success, Answer, slots, with_slots, insert_guarded, assign_guarded, erase_guarded,
  pop_back_guarded, vector_push_back, vector_insert, vector_assign, vector_pop_back, vector_erase,
  vector_clear, vector_resize, vector_reserve, vector_shrink_to_fit, vector_should_shrink,
  put_element, push_grown, insert_grown, finish_resize, vector_move_right, vector_move_left,
  vector_pop_front, vector_push_front, shrink_threshold,
}
use tssx.Vector.Inv.{Holds, vector_reallocate-Holds, grow_if_full-Holds}
use tssx.Vector.Edits.{
  slots_width, edited, push_room, insert_room, erase_room, pop_room, emptied-Holds, assign_room,
  adjust-Holds,
}

pub data Edit {ℓ} (A : Type ℓ) : Type ℓ where
  push_back : A → Edit A
  push_front : A → Edit A
  insert : ℕ → A → Edit A
  assign : ℕ → A → Edit A
  pop_back : Edit A
  pop_front : Edit A
  erase : ℕ → Edit A
  clear : Edit A
  reserve : ℕ → Edit A
  shrink_to_fit : Edit A

module _ {ℓ} {A : Type ℓ} where
  -- What an edit does to a list; none for an index out of range.
  insert_at : ℕ → A → List A → Option (List A)
  insert_at i x xs = if leb i (length xs) then some (take i xs ++ (x ∷ drop i xs)) else none

  erase_at : ℕ → List A → Option (List A)
  erase_at i xs = if ltb i (length xs) then some (take i xs ++ drop (suc i) xs) else none

  unfoldable pub apply : Edit A → List A → Option (List A)
  unfolding insert_at erase_at
  apply (push_back x) xs = some (xs ++ (x ∷ []))
  apply (push_front x) xs = insert_at 0 x xs
  apply (insert i x) xs = insert_at i x xs
  apply (assign i x) xs = if ltb i (length xs) then some (set xs i x) else none
  apply pop_back xs = if ltb 0 (length xs) then some (take (length xs - 1) xs) else none
  apply pop_front xs = erase_at 0 xs
  apply (erase i) xs = erase_at i xs
  apply clear xs = some []
  apply (reserve n) xs = some xs
  apply shrink_to_fit xs = some xs

  unfoldable pub perform : Edit A → Vector A → Answer → Option (Status × Vector A)
  perform (push_back x) v answer = some (vector_push_back v x answer)
  perform (push_front x) v answer = vector_push_front v x answer
  perform (insert i x) v answer = vector_insert v i x answer
  perform (assign i x) v answer = vector_assign v i x
  perform pop_back v answer = vector_pop_back v answer
  perform pop_front v answer = vector_pop_front v answer
  perform (erase i) v answer = vector_erase v i answer
  perform clear v answer = some (vector_clear v answer)
  perform (reserve n) v answer = some (vector_reserve v n answer)
  perform shrink_to_fit v answer = some (vector_shrink_to_fit v answer)

  -- The call returns VECTOR_SUCCESS and holds the edited list, or fails an assert where the list has no
  -- such edit.
  abbrev pub Edits : Option (Status × Vector A) → Option (List A) → Type ℓ
  Edits call none = call ≡ none
  Edits call (some ys) = (v' : Vector A) × (call ≡ some (success, v')) × Holds v' ys

module _ {ℓ} {A : Type ℓ} (v : Vector A) (xs : List A) (h : Holds v xs) (small : length xs < 2 ^ 62)
    (address : ℕ) where
  sized : v.element_size == 0 ≡ false
  sized = ground (arith, h.sized)

  -- The call was seen to leave `v'`, and the edit to give `ys`.
  returns :
      {call : Option (Status × Vector A)} {spec : Option (List A)} {v' : Vector A} {ys : List A}
      → Holds v' ys
      → call ≡ some (success, v')
      → spec ≡ some ys
      → Edits call spec
  returns {call} k p q = subst (Edits call) (sym q) (_, p, k)

  aborts :
      {call : Option (Status × Vector A)} {spec : Option (List A)}
      → call ≡ none
      → spec ≡ none
      → Edits call spec
  aborts {call} p q = subst (Edits call) (sym q) p

  -- A slot of the block.
  put_element_inside :
      (v' : Vector A) (i : ℕ) (x : A)
      → i < length (slots v')
      → put_element v' i x ≡ with_slots v' (set (slots v') i (some x))
  unfolding put_element
  put_element_inside v' i x l = let e : ltb i (length (slots v')) ≡ true = ground arith in rw e refl

  push_back-Edits :
      (x : A) → Edits (some (vector_push_back v x (some address))) (some (xs ++ (x ∷ [])))
  unfolding vector_push_back push_grown
  push_back-Edits x =
      let (v', run, h', room) = grow_if_full-Holds v xs h address small in
      let inside = put_element_inside v' v'.size x (omega (arith, slots_width v' xs h', h'.size)) in
      returns (push_room v' xs h' x small room)
        (ap (λ r. some (push_grown x r)) run
          ∙ ap (λ w. some (success, record w { size = add_size w.size 1 })) inside)
        refl

  -- The write of `vector_insert` goes to the slots that its move has left.
  insert_grown-success :
      (v' : Vector A) (i : ℕ) (x : A)
      → Holds v' xs
      → i < length (slots v')
      → insert_grown i x (success, v') ≡ (
        success,
        edited v'
            (set
              (blit (slots v') (add_size i 1) (slice i (sub_size v'.size i) (slots v')))
              i
              (some x))
            (add_size v'.size 1),
      )
  unfolding insert_grown vector_move_right
  insert_grown-success v' i x k l =
      let moved = blit (slots v') (add_size i 1) (slice i (sub_size v'.size i) (slots v')) in
      let same : slots (vector_move_right v' i) ≡ moved = ground (arith, k.initialized) in
      let inside : i < length (slots (vector_move_right v' i)) = omega (
        arith,
        l,
        ap length same,
        length-blit (slots v') (add_size i 1) (slice i (sub_size v'.size i) (slots v')),
      ) in
      ap (λ w. (success, record w { size = add_size w.size 1 }))
        (put_element_inside (vector_move_right v' i) i x inside)
      ∙ ground (arith, k.initialized)

  insert-Edits : (i : ℕ) (x : A) → Edits (vector_insert v i x (some address)) (insert_at i x xs)
  unfolding vector_insert insert_guarded insert_at
  insert-Edits i x = elim (Bool-cases (leb i (length xs))) [
    | inl e ↦
        let e' : leb i v.size ≡ true = ap (leb i) h.size ∙ e in
        let past : ltb v.size i ≡ false = ground (arith, e') in
        let (v', run, h', room) = grow_if_full-Holds v xs h address small in
        let p : vector_insert v i x (some address) ≡ some (insert_grown i x (success, v')) =
          rw (e', sized, past) (ap (λ r. some (insert_grown i x r)) run) in
        let inside : i < length (slots v') =
          let l : i ≤ length xs = ground (arith, e) in
          omega (arith, l, slots_width v' xs h', room) in
        returns (insert_room v' xs h' i x (ground arith) small room)
          (p ∙ ap some (insert_grown-success v' i x h' inside)) (rw e refl)
    | inr e ↦
        let e' : leb i v.size ≡ false = ap (leb i) h.size ∙ e in aborts (rw e' refl) (rw e refl)
  ]

  erase-Edits : (i : ℕ) → Edits (vector_erase v i (some address)) (erase_at i xs)
  unfolding vector_erase erase_guarded erase_at vector_move_left
  erase-Edits i = elim (Bool-cases (ltb i (length xs))) [
    | inl e ↦
        let e' : ltb i v.size ≡ true = ap (ltb i) h.size ∙ e in
        let past : leb v.size i ≡ false = ground (arith, e') in
        let l : i < length xs = ground arith in
        let v₁ = vector_move_left v i in
        let v₂ = record v₁ { size = sub_size v₁.size 1 } in
        let h' = erase_room v xs h i l small in
        let n : length (take i xs ++ drop (suc i) xs) < 2 ^ 62 = omega (
          arith,
          length-append {ℓ} (take i xs) (drop (suc i) xs),
          length-take i xs,
          length-drop (suc i) xs,
        ) in
        returns (adjust-Holds v₂ _ h' (v₂.size == v₂.capacity / 4) address n)
          (rw (e', sized, past) refl) (rw e refl)
    | inr e ↦
        let e' : ltb i v.size ≡ false = ap (ltb i) h.size ∙ e in aborts (rw e' refl) (rw e refl)
  ]

  pop_back-Edits :
      Edits
        (vector_pop_back v (some address))
        (if ltb 0 (length xs) then some (take (length xs - 1) xs) else none)
  unfolding vector_pop_back pop_back_guarded
  pop_back-Edits = elim (Bool-cases (ltb 0 (length xs))) [
    | inl e ↦
        let e' : ltb 0 v.size ≡ true = ap (ltb 0) h.size ∙ e in
        let v₁ = record v { size = sub_size v.size 1 } in
        let h' = pop_room v xs h (ground arith) small in
        let n : length (take (length xs - 1) xs) < 2 ^ 62 =
          omega (arith, length-take (length xs - 1) xs) in
        returns (adjust-Holds v₁ _ h' (vector_should_shrink v₁) address n) (rw (e', sized) refl)
          (rw e refl)
    | inr e ↦
        let e' : ltb 0 v.size ≡ false = ap (ltb 0) h.size ∙ e in aborts (rw e' refl) (rw e refl)
  ]

  clear-Edits : Edits (some (vector_clear v (some address))) (some [])
  unfolding vector_clear vector_resize finish_resize
  clear-Edits =
      let h' : Holds (record v { size = 0 }) [] = emptied-Holds v xs h in
      let (v', run, k) =
        vector_reallocate-Holds (record v { size = 0 }) [] h' 0 address (omega arith) in
      let e : leb 0 (mul_size v.capacity shrink_threshold) ≡ true = ground arith in
      let p : vector_clear v (some address) ≡ finish_resize 0 (success, v') =
        rw e (ap (finish_resize 0) run) in
      returns (emptied-Holds v' [] k) (ap some p) refl

  reserve-Edits : (n : ℕ) → Edits (some (vector_reserve v n (some address))) (some xs)
  unfolding vector_reserve
  reserve-Edits n = elim (Bool-cases (ltb v.capacity n)) [
    | inl e ↦
        let (v', run, k) = vector_reallocate-Holds v xs h n address (ground (arith, h.fits)) in
        let p : vector_reserve v n (some address) ≡ (success, v') = rw e run in
        returns k (ap some p) refl
    | inr e ↦ returns h (rw e refl) refl
  ]

  shrink_to_fit-Edits : Edits (some (vector_shrink_to_fit v (some address))) (some xs)
  unfolding vector_shrink_to_fit
  shrink_to_fit-Edits =
      let (v', run, k) = vector_reallocate-Holds v xs h v.size address (omega (arith, h.size)) in
      returns k (ap some run) refl

  assign-Edits :
      (i : ℕ) (x : A)
      → Edits (vector_assign v i x) (if ltb i (length xs) then some (set xs i x) else none)
  unfolding vector_assign assign_guarded
  assign-Edits i x = elim (Bool-cases (ltb i (length xs))) [
    | inl e ↦
        let e' : ltb i v.size ≡ true = ap (ltb i) h.size ∙ e in
        let past : leb v.size i ≡ false = ground (arith, e') in
        let l : i < length xs = ground arith in
        let inside = put_element_inside v i x (omega (arith, slots_width v xs h, h.fits)) in
        returns (assign_room v xs h i x) (rw (e', sized, past) (ap (λ w. some (success, w)) inside))
          (rw e refl)
    | inr e ↦
        let e' : ltb i v.size ≡ false = ap (ltb i) h.size ∙ e in aborts (rw e' refl) (rw e refl)
  ]

  pub perform-Edits : (e : Edit A) → Edits (perform e v (some address)) (apply e xs)
  unfolding perform apply vector_push_front vector_pop_front
  perform-Edits (push_back x) = push_back-Edits x
  perform-Edits (push_front x) = insert-Edits 0 x
  perform-Edits (insert i x) = insert-Edits i x
  perform-Edits (assign i x) = assign-Edits i x
  perform-Edits pop_back = pop_back-Edits
  perform-Edits pop_front = erase-Edits 0
  perform-Edits (erase i) = erase-Edits i
  perform-Edits clear = clear-Edits
  perform-Edits (reserve n) = reserve-Edits n
  perform-Edits shrink_to_fit = shrink_to_fit-Edits
