-- ===== src/Vector/Edits.antt =====
-- The calls of include/tssx/vector.h that change the elements, against the list of the elements.
use tssx.Base.{
  ℕ, suc, ◌+◌, ◌-◌, ◌^◌, ◌≤◌, ◌<◌, ◌≡◌, refl, sym, ap, ◌∙◌, subst, Bool, Option, none, some, true,
  false, List, [], ◌∷◌, ◌++◌, map, map-append, length, set, take, drop, slice, blit, length-set,
  length-blit, length-take, length-drop, length-append, length-map, take-set, take-set_inside,
  map-set, map-take, map-drop, take-insert, take-blit_end, drop-take, take-take, max, if◌then◌else◌,
  add_size, sub_size, mul_size, arith,
}
use tssx.Vector.{Vector, slots, with_slots, vector_adjust_capacity}
use tssx.Vector.Inv.{Holds, vector_reallocate-Holds}

module _ {ℓ} {A : Type ℓ} where
  -- A vector with new slots and a new size.
  abbrev pub edited : Vector A → List (Option A) → ℕ → Vector A
  edited v new n = record (with_slots v new) { size = n }

  -- New slots whose front is the new list.
  edited-Holds :
      (v : Vector A) (xs ys : List A) (new : List (Option A)) (n : ℕ)
      → Holds v xs
      → length new ≡ v.capacity
      → n ≡ length ys
      → length ys ≤ v.capacity
      → take (length ys) new ≡ map some ys
      → Holds (edited v new n) ys
  edited-Holds v xs ys new n h wide e fits front = record {
    block = record { address = h.block.address; slots = new; overruns = h.block.overruns };
    initialized =
        ap (λ b. elim b [ none ↦ none | some b' ↦ some (record b' { slots = new }) ]) h.initialized;
    width = wide;
    size = e;
    fits = fits;
    elements = front;
    room = h.room;
    sized = h.sized;
  }

module _ {ℓ} {A : Type ℓ} (v : Vector A) (xs : List A) (h : Holds v xs) where
  slots_eq : slots v ≡ h.block.slots
  slots_eq = ap (λ b. elim b [ none ↦ [] | some b' ↦ b'.slots ]) h.initialized

  pub slots_width : length (slots v) ≡ v.capacity
  slots_width = ap length slots_eq ∙ h.width

  front : take (length xs) (slots v) ≡ map some xs
  front = ap (take (length xs)) slots_eq ∙ h.elements

  -- The write behind the elements, where there is room.
  pub push_room :
      (x : A)
      → length xs < 2 ^ 62
      → length xs < v.capacity
      → Holds (edited v (set (slots v) v.size (some x)) (add_size v.size 1)) (xs ++ (x ∷ []))
  push_room x small room =
      let one : length (xs ++ (x ∷ [])) ≡ suc (length xs) =
        omega (arith, length-append {ℓ} xs (x ∷ [])) in
      edited-Holds v xs (xs ++ (x ∷ [])) (set (slots v) v.size (some x)) (add_size v.size 1) h
        (length-set (slots v) v.size (some x) ∙ slots_width) (omega (arith, h.size)) (omega arith)
        ((λ i. take (one i) (set (slots v) (h.size i) (some x)))
          ∙ take-set (length xs) (slots v) (some x) (omega (arith, slots_width))
          ∙ ap (λ l. l ++ (some x ∷ [])) front
          ∙ sym (map-append some xs (x ∷ [])))

  -- The elements from index `i` on, as the slots that hold them.
  tail_slots : (i : ℕ) → i ≤ length xs → slice i (length xs - i) (slots v) ≡ map some (drop i xs)
  tail_slots i l = sym (drop-take i (length xs) (slots v)) ∙ ap (drop i) front ∙ map-drop some i xs

  head_slots : (i : ℕ) → i ≤ length xs → take i (slots v) ≡ map some (take i xs)
  head_slots i l =
      sym (take-take i (length xs) (slots v) l) ∙ ap (take i) front ∙ map-take some i xs

  -- The elements moved on by one from an index, and one written there, where there is room.
  pub insert_room :
      (i : ℕ) (x : A)
      → i ≤ length xs
      → length xs < 2 ^ 62
      → length xs < v.capacity
      → Holds
          (edited v
            (set (blit (slots v) (add_size i 1) (slice i (sub_size v.size i) (slots v))) i (some x))
            (add_size v.size 1))
          (take i xs ++ (x ∷ drop i xs))
  insert_room i x l small room =
      let d = length-drop i xs in
      let count : length (take i xs ++ (x ∷ drop i xs)) ≡ suc (length xs) =
        omega (arith, length-append {ℓ} (take i xs) (x ∷ drop i xs), length-take i xs) in
      let zs = map some (drop i xs) in
      let zs_length : length zs ≡ length xs - i = length-map some (drop i xs) ∙ d in
      let at : add_size i 1 ≡ suc i = omega arith in
      let n : sub_size v.size i ≡ length xs - i = omega (arith, h.size) in
      let moved : set (blit (slots v) (add_size i 1) (slice i (sub_size v.size i) (slots v))) i
            (some x)
          ≡ set (blit (slots v) (suc i) zs) i (some x) =
        ap (λ m. set (blit (slots v) (add_size i 1) (slice i m (slots v))) i (some x)) n
        ∙ (λ k. set (blit (slots v) (at k) (tail_slots i l k)) i (some x)) in
      edited-Holds v xs (take i xs ++ (x ∷ drop i xs)) _ (add_size v.size 1) h
        (length-set _ i (some x) ∙ length-blit (slots v) _ _ ∙ slots_width) (omega (arith, h.size))
        (omega arith)
        ((λ k. take (count k) (moved k))
          ∙ ap (λ m. take (suc m) (set (blit (slots v) (suc i) zs) i (some x)))
              (let e : length xs ≡ i + length zs = omega arith in e)
          ∙ take-insert i (slots v) zs (some x) (omega (arith, slots_width))
          ∙ ap (λ l. l ++ (some x ∷ zs)) (head_slots i l)
          ∙ sym (map-append some (take i xs) (x ∷ drop i xs)))

  -- The elements behind an index moved back by one over it.
  pub erase_room :
      (i : ℕ)
      → i < length xs
      → length xs < 2 ^ 62
      → Holds
          (edited v
            (blit (slots v) i (slice (add_size i 1) (sub_size (sub_size v.size i) 1) (slots v)))
            (sub_size v.size 1))
          (take i xs ++ drop (suc i) xs)
  erase_room i l small =
      let d = length-drop (suc i) xs in
      let zs = map some (drop (suc i) xs) in
      let zs_length : length zs ≡ length xs - suc i = length-map some (drop (suc i) xs) ∙ d in
      let count : length (take i xs ++ drop (suc i) xs) ≡ i + length zs =
        omega (arith, length-append {ℓ} (take i xs) (drop (suc i) xs), length-take i xs) in
      let at : add_size i 1 ≡ suc i = omega arith in
      let n : sub_size (sub_size v.size i) 1 ≡ length xs - suc i = omega (arith, h.size) in
      let moved : blit (slots v) i (slice (add_size i 1) (sub_size (sub_size v.size i) 1) (slots v))
          ≡ blit (slots v) i zs =
        (λ k. blit (slots v) i (slice (at k) (n k) (slots v)))
        ∙ ap (blit (slots v) i) (tail_slots (suc i) l) in
      edited-Holds v xs (take i xs ++ drop (suc i) xs) _ (sub_size v.size 1) h
        (length-blit (slots v) i _ ∙ slots_width) (omega (arith, h.size)) (omega (arith, h.fits))
        ((λ k. take (count k) (moved k))
          ∙ take-blit_end i (slots v) zs (omega (arith, slots_width, h.fits))
          ∙ ap (λ l. l ++ zs) (head_slots i (omega arith))
          ∙ sym (map-append some (take i xs) (drop (suc i) xs)))

  -- One element less at the end.
  pub pop_room :
      0 < length xs
      → length xs < 2 ^ 62
      → Holds (record v { size = sub_size v.size 1 }) (take (length xs - 1) xs)
  pop_room pos small =
      let n : length (take (length xs - 1) xs) ≡ length xs - 1 =
        omega (arith, length-take (length xs - 1) xs) in
      record {
        block = h.block;
        initialized = h.initialized;
        width = h.width;
        size = omega (arith, h.size);
        fits = omega (arith, h.fits);
        elements =
            ap (λ m. take m h.block.slots) n
            ∙ sym (take-take (length xs - 1) (length xs) h.block.slots (omega arith))
            ∙ ap (take (length xs - 1)) h.elements
            ∙ map-take some (length xs - 1) xs;
        room = h.room;
        sized = h.sized;
      }

  pub emptied-Holds : Holds (record v { size = 0 }) []
  emptied-Holds = record {
    block = h.block;
    initialized = h.initialized;
    width = h.width;
    size = refl;
    fits = omega arith;
    elements = refl;
    room = h.room;
    sized = h.sized;
  }

  -- One element replaced.
  pub assign_room :
      (i : ℕ) (x : A) → Holds (edited v (set (slots v) i (some x)) v.size) (set xs i x)
  assign_room i x =
      let n = length-set xs i x in
      edited-Holds v xs (set xs i x) (set (slots v) i (some x)) v.size h
        (length-set (slots v) i (some x) ∙ slots_width) (h.size ∙ sym n) (omega (arith, h.fits))
        (ap (λ m. take m (set (slots v) i (some x))) n
          ∙ take-set_inside (length xs) i (slots v) (some x)
          ∙ ap (λ l. set l i (some x)) front
          ∙ map-set some xs i x)

  -- A capacity adjusted to the size, or left as it is.
  pub adjust-Holds :
      (test : Bool) (address : ℕ)
      → length xs < 2 ^ 62
      → Holds (if test then (vector_adjust_capacity v (some address)).1 else v) xs
  unfolding vector_adjust_capacity
  adjust-Holds false address small = h
  adjust-Holds true address small =
      let (v', run, h') =
        vector_reallocate-Holds v xs h (max 1 (mul_size v.size 2)) address
          (omega (arith, h.size)) in
      subst (λ r. Holds r xs) (sym (ap (λ r. r.1) run)) h'
