-- ===== src/Base/Lists.antt =====
-- Lists measured and indexed by native numbers, under the library's names, and blocks of memory:
-- `slice` is what a copy out of a block reads, `blit` what a copy into a block leaves.
use Prim.Native.Nat.{ℕ, zero, suc, ◌+◌, ◌-◌, ◌≤◌, min}
use mathlib.Core.Path.{◌≡◌, refl, ap, sym, ◌∙◌}
use mathlib.Core.List.{List, [], ◌∷◌, ◌++◌}
use mathlib.Core.Option.{Option, none, some}
use native.Mathlib.Omega.{arith}
use native.Mathlib.Decide.{dec_le}

module _ {ℓ} {A : Type ℓ} where
  abbrev pub length : List A → ℕ
  length [] = 0
  length (x ∷ xs) = suc (length xs)

  abbrev pub get_elem? : List A → ℕ → Option A
  get_elem? [] i = none
  get_elem? (x ∷ xs) zero = some x
  get_elem? (x ∷ xs) (suc i) = get_elem? xs i

  abbrev pub get_or : List A → ℕ → A → A
  get_or [] i d = d
  get_or (x ∷ xs) zero d = x
  get_or (x ∷ xs) (suc i) d = get_or xs i d

  -- A write out of bounds changes nothing.
  abbrev pub set : List A → ℕ → A → List A
  set [] i v = []
  set (x ∷ xs) zero v = v ∷ xs
  set (x ∷ xs) (suc i) v = x ∷ set xs i v

  abbrev pub take : ℕ → List A → List A
  take zero xs = []
  take (suc n) [] = []
  take (suc n) (x ∷ xs) = x ∷ take n xs

  abbrev pub drop : ℕ → List A → List A
  drop zero xs = xs
  drop (suc n) [] = []
  drop (suc n) (x ∷ xs) = drop n xs

  abbrev pub replicate : ℕ → A → List A
  replicate zero a = []
  replicate (suc n) a = a ∷ replicate n a

module _ {ℓ} {A : Type ℓ} where
  -- `memcpy` of `n` elements that start at index `i` of the block `xs`.
  abbrev pub slice : ℕ → ℕ → List A → List A
  slice i n xs = take n (drop i xs)

  -- `memcpy` of `ys` to index `i` of the block `xs`.
  unfoldable pub blit : List A → ℕ → List A → List A
  blit [] i ys = []
  blit (x ∷ xs) (suc i) ys = x ∷ blit xs i ys
  blit (x ∷ xs) zero [] = x ∷ xs
  blit (x ∷ xs) zero (y ∷ ys) = y ∷ blit xs zero ys

  pub length-append : (xs ys : List A) → length (xs ++ ys) ≡ length xs + length ys
  length-append [] ys = omega arith
  length-append (x ∷ xs) ys = omega (arith, length-append xs ys)

  pub length-set : (xs : List A) (i : ℕ) (v : A) → length (set xs i v) ≡ length xs
  length-set [] i v = refl
  length-set (x ∷ xs) zero v = refl
  length-set (x ∷ xs) (suc i) v = ap suc (length-set xs i v)

  pub length-replicate : (n : ℕ) (a : A) → length (replicate n a) ≡ n
  length-replicate zero a = refl
  length-replicate (suc n) a = ap suc (length-replicate n a)

  pub length-take : (n : ℕ) (xs : List A) → length (take n xs) ≡ min n (length xs)
  length-take zero xs = omega arith
  length-take (suc n) [] = omega arith
  length-take (suc n) (x ∷ xs) = omega (arith, length-take n xs)

  pub length-drop : (n : ℕ) (xs : List A) → length (drop n xs) ≡ length xs - n
  length-drop zero xs = omega arith
  length-drop (suc n) [] = omega arith
  length-drop (suc n) (x ∷ xs) = omega (arith, length-drop n xs)

  pub length-blit : (xs : List A) (i : ℕ) (ys : List A) → length (blit xs i ys) ≡ length xs
  unfolding blit
  length-blit [] i ys = refl
  length-blit (x ∷ xs) (suc i) ys = ap suc (length-blit xs i ys)
  length-blit (x ∷ xs) zero [] = refl
  length-blit (x ∷ xs) zero (y ∷ ys) = ap suc (length-blit xs zero ys)

  pub take_all : (n : ℕ) (xs : List A) → length xs ≤ n → take n xs ≡ xs
  take_all zero [] h = refl
  take_all zero (x ∷ xs) h = absurd (omega arith)
  take_all (suc n) [] h = refl
  take_all (suc n) (x ∷ xs) h = ap (λ l. x ∷ l) (take_all n xs (omega arith))

  pub take-add : (n m : ℕ) (xs : List A) → take (n + m) xs ≡ take n xs ++ take m (drop n xs)
  take-add zero m xs = rw (ap (λ k. take k xs) (let e : zero + m ≡ m = omega arith in e))
  take-add (suc n) m [] = rw (take_all (suc n + m) [] (omega arith), take_all m [] (omega arith))
  take-add (suc n) m (x ∷ xs) =
      ap (λ k. take k (x ∷ xs)) (let e : suc n + m ≡ suc (n + m) = omega arith in e)
      ∙ ap (λ l. x ∷ l) (take-add n m xs)

  pub drop-nil : (n : ℕ) → drop {A = A} n [] ≡ []
  drop-nil zero = refl
  drop-nil (suc n) = refl

  pub drop-drop : (n m : ℕ) (xs : List A) → drop m (drop n xs) ≡ drop (n + m) xs
  drop-drop zero m xs = ap (λ k. drop k xs) (omega arith)
  drop-drop (suc n) m [] = drop-nil m ∙ sym (drop-nil (suc n + m))
  drop-drop (suc n) m (x ∷ xs) =
      drop-drop n m xs
      ∙ ap (λ k. drop k (x ∷ xs)) (let e : suc (n + m) ≡ suc n + m = omega arith in e)

  -- A slice is split at any point inside it.
  pub slice-add :
      (i n m : ℕ) (xs : List A) → slice i (n + m) xs ≡ slice i n xs ++ slice (i + n) m xs
  slice-add i n m xs =
      take-add n m (drop i xs) ∙ ap (λ l. slice i n xs ++ take m l) (drop-drop i n xs)

  pub length-slice : (i n : ℕ) (xs : List A) → i + n ≤ length xs → length (slice i n xs) ≡ n
  length-slice i n xs h = omega (arith, length-take n (drop i xs), length-drop i xs)

  pub take-take : (n m : ℕ) (xs : List A) → n ≤ m → take n (take m xs) ≡ take n xs
  take-take zero m xs h = refl
  take-take (suc n) zero xs h = absurd (omega arith)
  take-take (suc n) (suc m) [] h = refl
  take-take (suc n) (suc m) (x ∷ xs) h = ap (λ l. x ∷ l) (take-take n m xs (omega arith))

  -- What `blit` wrote is read back.
  pub slice-blit_self :
      (xs : List A) (i : ℕ) (ys : List A)
      → i + length ys ≤ length xs
      → slice i (length ys) (blit xs i ys) ≡ ys
  unfolding blit
  slice-blit_self [] zero [] h = refl
  slice-blit_self [] (suc i) [] h = refl
  slice-blit_self [] i (y ∷ ys) h = absurd (omega arith)
  slice-blit_self (x ∷ xs) (suc i) ys h = slice-blit_self xs i ys (omega arith)
  slice-blit_self (x ∷ xs) zero [] h = refl
  slice-blit_self (x ∷ xs) zero (y ∷ ys) h =
      ap (λ l. y ∷ l) (slice-blit_self xs zero ys (omega arith))

  take-blit :
      (n : ℕ) (xs : List A) (i : ℕ) (ys : List A) → n ≤ i → take n (blit xs i ys) ≡ take n xs
  unfolding blit
  take-blit zero xs i ys h = refl
  take-blit (suc n) [] i ys h = refl
  take-blit (suc n) (x ∷ xs) zero ys h = absurd (omega arith)
  take-blit (suc n) (x ∷ xs) (suc i) ys h = ap (λ l. x ∷ l) (take-blit n xs i ys (omega arith))

  drop-blit :
      (n : ℕ) (xs : List A) (i : ℕ) (ys : List A)
      → i + length ys ≤ n
      → drop n (blit xs i ys) ≡ drop n xs
  unfolding blit
  drop-blit n [] i ys h = refl
  drop-blit n (x ∷ xs) zero [] h = refl
  drop-blit zero (x ∷ xs) (suc i) ys h = absurd (omega arith)
  drop-blit (suc n) (x ∷ xs) (suc i) ys h = drop-blit n xs i ys (omega arith)
  drop-blit zero (x ∷ xs) zero (y ∷ ys) h = absurd (omega arith)
  drop-blit (suc n) (x ∷ xs) zero (y ∷ ys) h = drop-blit n xs zero ys (omega arith)

  -- A slice behind what `blit` wrote is as it was.
  pub slice-blit_behind :
      (xs : List A) (i n j : ℕ) (ys : List A)
      → j + length ys ≤ i
      → slice i n (blit xs j ys) ≡ slice i n xs
  slice-blit_behind xs i n j ys h = ap (take n) (drop-blit i xs j ys h)

  -- A slice before what `blit` wrote is as it was.
  pub slice-blit_before :
      (xs : List A) (i n j : ℕ) (ys : List A) → i + n ≤ j → slice i n (blit xs j ys) ≡ slice i n xs
  unfolding blit
  slice-blit_before xs zero n j ys h = take-blit n xs j ys (omega arith)
  slice-blit_before [] (suc i) n j ys h = refl
  slice-blit_before (x ∷ xs) (suc i) n zero ys h = absurd (omega arith)
  slice-blit_before (x ∷ xs) (suc i) n (suc j) ys h = slice-blit_before xs i n j ys (omega arith)

  pub take_append : (xs ys : List A) → take (length xs) (xs ++ ys) ≡ xs
  take_append [] ys = refl
  take_append (x ∷ xs) ys = ap (λ l. x ∷ l) (take_append xs ys)

  pub drop_append : (xs ys : List A) → drop (length xs) (xs ++ ys) ≡ ys
  drop_append [] ys = refl
  drop_append (x ∷ xs) ys = drop_append xs ys

  pub drop_all : (n : ℕ) (xs : List A) → length xs ≤ n → drop n xs ≡ []
  drop_all zero [] h = refl
  drop_all zero (x ∷ xs) h = absurd (omega arith)
  drop_all (suc n) [] h = refl
  drop_all (suc n) (x ∷ xs) h = drop_all n xs (omega arith)

  pub take-min : (n : ℕ) (xs : List A) → take (min (length xs) n) xs ≡ take n xs
  take-min n xs = elim (dec_le n (length xs)) [
    | yes p ↦ ap (λ k. take k xs) (omega arith)
    | no p ↦
        ap (λ k. take k xs) (omega arith)
        ∙ take_all (length xs) xs (omega arith)
        ∙ sym (take_all n xs (omega arith))
  ]

  pub drop-min : (n : ℕ) (xs : List A) → drop (min (length xs) n) xs ≡ drop n xs
  drop-min n xs = elim (dec_le n (length xs)) [
    | yes p ↦ ap (λ k. drop k xs) (omega arith)
    | no p ↦
        ap (λ k. drop k xs) (omega arith)
        ∙ drop_all (length xs) xs (omega arith)
        ∙ sym (drop_all n xs (omega arith))
  ]
