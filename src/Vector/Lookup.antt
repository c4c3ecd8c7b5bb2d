-- ===== src/Vector/Lookup.antt =====
-- The pointers that include/tssx/vector.h hands out, and what they read.
use tssx.Base.{
  ℕ, ◌-◌, ◌^◌, ◌<◌, ◌≤◌, ◌≡◌, refl, ap, ◌∙◌, Option, none, some, true, false, List, length,
  get_elem?, leb, ltb, ◌==◌, sub_size, arith, get_elem?-front,
}
use tssx.Vector.{Vector, Pointer, get_guarded, vector_get, vector_back, read_through, vector_offset}
use tssx.Vector.Inv.{Holds}

module _ {ℓ} {A : Type ℓ} where
  -- What a pointer into the vector reads; no pointer reads nothing.
  unfoldable pub read_at : Vector A → Option Pointer → Option A
  read_at v none = none
  read_at v (some p) = read_through v p

module _ {ℓ} {A : Type ℓ} (v : Vector A) (xs : List A) (h : Holds v xs) where
  sized : v.element_size == 0 ≡ false
  sized = ground (arith, h.sized)

  offset_reads : (i : ℕ) (x : A) → get_elem? xs i ≡ some x → read_at v (vector_offset v i) ≡ some x
  unfolding read_at read_through
  offset_reads i x e =
      let p : read_at v (vector_offset v i)
          ≡ elim (get_elem? h.block.slots i) [ none ↦ none | some slot ↦ slot ] =
        ground (arith, h.initialized) in
      p
      ∙ ap (λ o. elim o [ none ↦ none | some slot ↦ slot ])
          (get_elem?-front some (length xs) h.block.slots xs i x h.elements e)

  -- `vector_get` of an index in range gives a pointer that reads the element, and of any other index
  -- fails an `assert`.
  pub vector_get_lem :
      (i : ℕ)
      → ((x : A)
          → get_elem? xs i ≡ some x
          → i < length xs
          → (o : Option Pointer) × (vector_get v i ≡ some o) × (read_at v o ≡ some x))
        × (length xs ≤ i → vector_get v i ≡ none)
  unfolding vector_get get_guarded
  vector_get_lem i = (
    λ x q l.
        let e : ltb i v.size ≡ true = ground (arith, h.size) in
        let past : leb v.size i ≡ false = ground (arith, e) in
        (_, rw (e, sized, past) refl, offset_reads i x q),
    λ l. let e : ltb i v.size ≡ false = ground (arith, h.size) in rw e refl,
  )

  -- `vector_back` of a vector with elements.
  pub vector_back_lem :
      (x : A)
      → length xs < 2 ^ 62
      → 0 < length xs
      → get_elem? xs (length xs - 1) ≡ some x
      → (o : Option Pointer) × (vector_back v ≡ some o) × (read_at v o ≡ some x)
  unfolding vector_back
  vector_back_lem x small pos q =
      let e : sub_size v.size 1 ≡ length xs - 1 = ground (arith, h.size) in
      let (o, back, reads) = (vector_get_lem (length xs - 1)).0 x q (omega arith) in
      (o, ap (vector_get v) e ∙ back, reads)
