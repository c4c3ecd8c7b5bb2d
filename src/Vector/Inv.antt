-- ===== src/Vector/Inv.antt =====
-- What a vector of include/tssx/vector.h holds, and the blocks of memory behind it.
use mathlib.Core.List.{map}
use tssx.Base.{
  ℕ, ◌+◌, ◌^◌, ◌≤◌, ◌<◌, ◌≡◌, refl, sym, ap, ◌∙◌, inl, inr, Option, none, some, false, List, [],
  length, take, blit, replicate, length-blit, length-replicate, slice-blit_self, length-map, ltb,
  ◌==◌, max, Bool-cases, mul_size, arith,
}
use tssx.Vector.{
  Vector, Block, success, slots, new_block, replace_block, minimum_capacity, grow_if_full,
  vector_should_grow, vector_reallocate, vector_adjust_capacity,
}

-- The vector `v` has a block for `capacity` elements, and its first `size` slots are the elements
-- of `xs`.
pub record Holds {ℓ} {A : Type ℓ} (v : Vector A) (xs : List A) : Type ℓ where
  pub block : Block A
  pub initialized : v.block ≡ some block
  pub width : length block.slots ≡ v.capacity
  pub size : v.size ≡ length xs
  pub fits : length xs ≤ v.capacity
  pub elements : take (length xs) block.slots ≡ map some xs
  pub room : 0 < v.capacity
  pub sized : 0 < v.element_size

module _ {ℓ} {A : Type ℓ} (v : Vector A) (xs : List A) (h : Holds v xs) where
  -- What is copied to a new block.
  copied : take v.size (slots v) ≡ map some xs
  copied =
      ap (λ b. take v.size (elim b [ none ↦ [] | some b' ↦ b'.slots ])) h.initialized
      ∙ ap (λ n. take n h.block.slots) h.size
      ∙ h.elements

  slots-block : slots v ≡ h.block.slots
  slots-block = ap (λ b. elim b [ none ↦ [] | some b' ↦ b'.slots ]) h.initialized

  -- A fresh block holds the elements of the old one.
  pub replace_block-Holds :
      (n address : ℕ)
      → length xs ≤ n
      → 0 < n
      → (v' : Vector A) × (replace_block v n (some address) ≡ (success, v'))
        × Holds v' xs
        × (v'.capacity ≡ n)
  unfolding replace_block
  replace_block-Holds n address l pos = (
    record v { capacity = n; block = new_block n (take v.size (slots v)) (some address) },
    refl,
    record {
      block = record {
        address = address;
        slots = blit (replicate n none) 0 (take v.size (slots v));
        overruns = [];
      };
      initialized = refl;
      width = length-blit (replicate n none) 0 (take v.size (slots v)) ∙ length-replicate n none;
      size = h.size;
      fits = l;
      elements =
          ap (λ l. take (length xs) (blit (replicate n none) 0 l)) copied
          ∙ ap (λ m. take m (blit (replicate n none) 0 (map some xs))) (sym (length-map some xs))
          ∙ slice-blit_self (replicate n none) 0 (map some xs) (
              omega (arith, length-map {ℓ, ℓ} some xs, length-replicate {ℓ} {A = Option A} n none));
      room = pos;
      sized = h.sized;
    },
    refl,
  )

  -- `_vector_reallocate` to a capacity that the elements fit into keeps them.
  pub vector_reallocate-Holds :
      (n address : ℕ)
      → length xs ≤ n
      → (v' : Vector A) × (vector_reallocate v n (some address) ≡ (success, v')) × Holds v' xs
  unfolding vector_reallocate
  vector_reallocate-Holds n address l = elim (Bool-cases (ltb n minimum_capacity)) [
    | inr e ↦
        let (v', run, h', _) = replace_block-Holds n address l (ground arith) in (v', rw e run, h')
    | inl e ↦ elim (Bool-cases (ltb minimum_capacity v.capacity)) [
      | inl f ↦
          let (v', run, h', _) = replace_block-Holds 2 address (ground arith) (omega arith) in
          (v', rw (e, f) run, h')
      | inr f ↦ (v, rw (e, f), h)
    ]
  ]

  -- Growing makes room for one more element, unless there is room.
  pub grow_if_full-Holds :
      (address : ℕ)
      → length xs < 2 ^ 62
      → (v' : Vector A) × (grow_if_full v (some address) ≡ (success, v'))
        × Holds v' xs
        × (length xs < v'.capacity)
  unfolding grow_if_full vector_should_grow vector_adjust_capacity vector_reallocate
  grow_if_full-Holds address small = elim (Bool-cases (v.size == v.capacity)) [
    | inl e ↦
        let full : length xs ≡ v.capacity = ground (arith, h.size) in
        let pos : 0 < length xs = omega (arith, h.room) in
        let wide : max 1 (mul_size v.size 2) ≡ length xs + length xs = omega (arith, h.size) in
        let more : ltb (max 1 (mul_size v.size 2)) 2 ≡ false = ground arith in
        let (v', run, h', c) =
          replace_block-Holds (max 1 (mul_size v.size 2)) address (omega arith) (omega arith) in
        (v', rw (e, more) run, h', omega arith)
    | inr e ↦ (v, rw e, h, ground (arith, h.fits, h.size))
  ]
