-- ===== src/Buffer/Ring.antt =====
-- The bytes that a ring of memory holds: `used` bytes from index `start` on, going round at `capacity`.
-- One copy into the memory behind them appends to them, one copy out of their start takes from them.
use tssx.Base.{
  ℕ, ◌+◌, ◌-◌, ◌≤◌, ◌<◌, ◌≡◌, refl, sym, ap, ◌∙◌, inl, inr, List, ◌++◌, append-nil, append_assoc,
  length, slice, blit, slice-add, length-slice, slice-blit_self, slice-blit_behind,
  slice-blit_before, length-append, ltb, leb, if◌then◌else◌, Bool-cases, arith,
}

-- An index below twice the capacity, brought back into the ring.
abbrev pub wrap : ℕ → ℕ → ℕ
wrap capacity i = if ltb i capacity then i else i - capacity

unfoldable pub window : List ℕ → ℕ → ℕ → ℕ → List ℕ
window memory capacity start used =
    if leb (start + used) capacity
    then slice start used memory
    else slice start (capacity - start) memory ++ slice 0 (start + used - capacity) memory

slice_eq : {i j n m : ℕ} (memory : List ℕ) → i ≡ j → n ≡ m → slice i n memory ≡ slice j m memory
slice_eq memory p q = λ k. slice (p k) (q k) memory

slice_cut :
    (memory : List ℕ) (i n j m k : ℕ)
    → j ≡ i + n
    → k ≡ n + m
    → slice i k memory ≡ slice i n memory ++ slice j m memory
slice_cut memory i n j m k p q =
    slice_eq {i = i} memory refl q
    ∙ slice-add i n m memory
    ∙ ap (λ l. slice i n memory ++ l) (slice_eq {n = m} memory (sym p) refl)

module _ (memory : List ℕ) (capacity start used : ℕ) where
  pub window_straight :
      start + used ≤ capacity → window memory capacity start used ≡ slice start used memory
  unfolding window
  window_straight h = elim (Bool-cases (leb (start + used) capacity)) [
    | inl e ↦ rw e
    | inr e ↦ absurd (ground arith)
  ]

  pub window_round :
      capacity ≤ start + used
      → start ≤ capacity
      → window memory capacity start used
        ≡ slice start (capacity - start) memory ++ slice 0 (start + used - capacity) memory
  unfolding window
  window_round h l = elim (Bool-cases (leb (start + used) capacity)) [
    | inl e ↦
        let t : start + used ≡ capacity = ground arith in
        rw e (
          slice_eq memory refl (omega arith)
          ∙ sym (append-nil _)
          ∙ ap (λ l. slice start (capacity - start) memory ++ l)
              (slice_eq {i = 0} {n = 0} memory refl (omega arith)))
    | inr e ↦ rw e
  ]

  pub length-window :
      length memory ≡ capacity
      → start ≤ capacity
      → used ≤ capacity
      → length (window memory capacity start used) ≡ used
  length-window size l u = elim (Bool-cases (leb (start + used) capacity)) [
    | inl e ↦ rw (window_straight (ground arith)) (length-slice start used memory (ground arith))
    | inr e ↦
        let q : capacity ≤ start + used = ground arith in
        rw (window_round q l) (
          omega (
            arith,
            length-append {0} (slice start (capacity - start) memory)
                (slice 0 (start + used - capacity) memory),
            length-slice {0} start (capacity - start) memory (omega arith),
            length-slice {0} 0 (start + used - capacity) memory (omega arith),
          ))
  ]

-- A copy to the index behind the bytes, up to the end of the memory at most, appends to them.
pub window-blit :
    (memory : List ℕ) (capacity start used at : ℕ) (more : List ℕ)
    → length memory ≡ capacity
    → start < capacity
    → used + length more ≤ capacity
    → at ≡ wrap capacity (start + used)
    → at + length more ≤ capacity
    → window (blit memory at more) capacity start (used + length more)
      ≡ window memory capacity start used ++ more
window-blit memory capacity start used at more size l room e fits =
    elim (Bool-cases (ltb (start + used) capacity)) [
      | inl t ↦
          let p : at ≡ start + used = ground arith in
          rw (
            window_straight (blit memory at more) capacity start (used + length more) (omega arith),
            window_straight memory capacity start used (omega arith),
            slice_cut (blit memory at more) start used at (length more) (used + length more) p refl,
            slice-blit_before memory start used at more (omega arith),
            slice-blit_self memory at more (omega arith),
          )
      | inr t ↦
          let p : at ≡ start + used - capacity = ground arith in
          let q : capacity ≤ start + used = ground arith in
          rw
            (
              window_round (blit memory at more) capacity start (used + length more) (omega arith)
                  (omega arith),
              window_round memory capacity start used q (omega arith),
              slice-blit_behind memory start (capacity - start) at more (omega arith),
              slice_cut (blit memory at more) 0 (start + used - capacity) at (length more)
                  (start + (used + length more) - capacity) (omega arith) (omega arith),
              slice-blit_before memory 0 (start + used - capacity) at more (omega arith),
              slice-blit_self memory at more (omega arith),
            )
            (sym (
              append_assoc (slice start (capacity - start) memory)
                (slice 0 (start + used - capacity) memory) more))
    ]

-- A copy out of the start of the bytes, up to the end of the memory at most, takes them off.
pub window_split :
    (memory : List ℕ) (capacity start used n : ℕ)
    → start < capacity
    → used ≤ capacity
    → n ≤ used
    → start + n ≤ capacity
    → window memory capacity start used
      ≡ slice start n memory ++ window memory capacity (wrap capacity (start + n)) (used - n)
window_split memory capacity start used n l u h fits =
    elim (Bool-cases (ltb (start + n) capacity)) [
      | inl t ↦
          let i : start + n < capacity = ground arith in
          elim (Bool-cases (leb (start + used) capacity)) [
            | inl e ↦
                let q : start + used ≤ capacity = ground arith in
                rw
                  (
                    t,
                    window_straight memory capacity start used q,
                    window_straight memory capacity (start + n) (used - n) (omega arith),
                  )
                  (slice_cut memory start n (start + n) (used - n) used refl (omega arith))
            | inr e ↦
                let q : capacity ≤ start + used = ground arith in
                rw
                  (
                    t,
                    window_round memory capacity start used q (omega arith),
                    window_round memory capacity (start + n) (used - n) (omega arith) (omega arith),
                    slice_cut memory start n (start + n) (capacity - (start + n)) (capacity - start)
                        refl (omega arith),
                  )
                  (append_assoc (slice start n memory)
                      (slice (start + n) (capacity - (start + n)) memory)
                      (slice 0 (start + used - capacity) memory)
                    ∙ ap
                        (λ l.
                          slice start n memory
                          ++ (slice (start + n) (capacity - (start + n)) memory ++ l))
                        (slice_eq {i = 0} memory refl (
                          let r : start + used - capacity ≡ start + n + (used - n) - capacity =
                            omega arith in
                          r)))
          ]
      | inr t ↦
          let q : start + n ≡ capacity = ground arith in
          rw
            (
              t,
              window_round memory capacity start used (omega arith) (omega arith),
              window_straight memory capacity (start + n - capacity) (used - n) (omega arith),
            )
            (λ k. slice start (n_eq q k) memory ++ slice (zero_eq q k) (rest_eq q k) memory)
    ]
  where
    n_eq : start + n ≡ capacity → capacity - start ≡ n
    n_eq q = omega arith

    zero_eq : start + n ≡ capacity → ◌≡◌ {A = ℕ} 0 (start + n - capacity)
    zero_eq q = omega arith

    rest_eq : start + n ≡ capacity → start + used - capacity ≡ used - n
    rest_eq q = omega arith
