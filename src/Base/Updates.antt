-- ===== src/Base/Updates.antt =====
-- Writes and copies into a list, read back from the front.
use Prim.Native.Nat.{ℕ, zero, suc, ◌+◌, ◌-◌, ◌≤◌, ◌<◌}
use mathlib.Core.Path.{◌≡◌, refl, ap, sym, ◌∙◌}
use mathlib.Core.List.{List, [], ◌∷◌, ◌++◌, map}
use mathlib.Core.Logic.{◌≢◌}
use native.Mathlib.Omega.{arith}
use mathlib.Core.Option.{none, some}
use tssx.Base.Lists.{get_elem?, length, set, take, drop, blit, slice-blit_self}

module _ {ℓ} {A : Type ℓ} where
  pub length-map {κ} : {B : Type κ} (f : A → B) (xs : List A) → length (map f xs) ≡ length xs
  length-map f [] = refl
  length-map f (x ∷ xs) = ap suc (length-map f xs)

  pub map-take {κ} :
      {B : Type κ} (f : A → B) (n : ℕ) (xs : List A) → take n (map f xs) ≡ map f (take n xs)
  map-take f zero xs = refl
  map-take f (suc n) [] = refl
  map-take f (suc n) (x ∷ xs) = ap (λ l. f x ∷ l) (map-take f n xs)

  pub map-drop {κ} :
      {B : Type κ} (f : A → B) (n : ℕ) (xs : List A) → drop n (map f xs) ≡ map f (drop n xs)
  map-drop f zero xs = refl
  map-drop f (suc n) [] = refl
  map-drop f (suc n) (x ∷ xs) = map-drop f n xs

  -- A write behind the first `n` elements makes them one more.
  pub take-set :
      (n : ℕ) (ys : List A) (v : A)
      → n < length ys
      → take (suc n) (set ys n v) ≡ take n ys ++ (v ∷ [])
  take-set n [] v h = absurd (omega arith)
  take-set zero (y ∷ ys) v h = refl
  take-set (suc n) (y ∷ ys) v h = ap (λ l. y ∷ l) (take-set n ys v (omega arith))

  pub take-set_inside : (n i : ℕ) (ys : List A) (v : A) → take n (set ys i v) ≡ set (take n ys) i v
  take-set_inside zero i ys v = refl
  take-set_inside (suc n) i [] v = refl
  take-set_inside (suc n) zero (y ∷ ys) v = refl
  take-set_inside (suc n) (suc i) (y ∷ ys) v = ap (λ l. y ∷ l) (take-set_inside n i ys v)

  pub map-set {κ} :
      {B : Type κ} (f : A → B) (xs : List A) (i : ℕ) (v : A)
      → set (map f xs) i (f v) ≡ map f (set xs i v)
  map-set f [] i v = refl
  map-set f (x ∷ xs) zero v = refl
  map-set f (x ∷ xs) (suc i) v = ap (λ l. f x ∷ l) (map-set f xs i v)

  -- What a copy to index `i` leaves in front of its end.
  pub take-blit_end :
      (i : ℕ) (ys zs : List A)
      → i + length zs ≤ length ys
      → take (i + length zs) (blit ys i zs) ≡ take i ys ++ zs
  unfolding blit
  take-blit_end zero ys zs h =
      ap (λ n. take n (blit ys 0 zs)) (let e : 0 + length zs ≡ length zs = omega arith in e)
      ∙ slice-blit_self ys 0 zs (omega arith)
  take-blit_end (suc i) [] zs h = absurd (omega arith)
  take-blit_end (suc i) (y ∷ ys) zs h =
      ap (λ n. take n (y ∷ blit ys i zs))
        (let e : suc i + length zs ≡ suc (i + length zs) = omega arith in e)
      ∙ ap (λ l. y ∷ l) (take-blit_end i ys zs (omega arith))

  -- What a copy to the slot behind index `i`, and then a write to `i`, leave.
  pub take-insert :
      (i : ℕ) (ys zs : List A) (v : A)
      → i + length zs < length ys
      → take (suc (i + length zs)) (set (blit ys (suc i) zs) i v) ≡ take i ys ++ (v ∷ zs)
  unfolding blit
  take-insert i [] zs v h = absurd (omega arith)
  take-insert zero (y ∷ ys) zs v h = ap (λ l. v ∷ l) (take-blit_end zero ys zs (omega arith))
  take-insert (suc i) (y ∷ ys) zs v h =
      ap (λ n. take n (y ∷ set (blit ys (suc i) zs) i v))
        (let e : suc (suc i + length zs) ≡ suc (suc (i + length zs)) = omega arith in e)
      ∙ ap (λ l. y ∷ l) (take-insert i ys zs v (omega arith))

  pub take-nil : (n : ℕ) → take {A = A} n [] ≡ []
  take-nil zero = refl
  take-nil (suc n) = refl

  pub drop-take : (i n : ℕ) (ys : List A) → drop i (take n ys) ≡ take (n - i) (drop i ys)
  drop-take zero n ys = ap (λ k. take k ys) (omega arith)
  drop-take (suc i) zero ys =
      ap (λ k. take k (drop (suc i) ys)) (let e : 0 ≡ 0 - suc i = omega arith in e)
  drop-take (suc i) (suc n) [] = sym (take-nil (suc n - suc i))
  drop-take (suc i) (suc n) (y ∷ ys) =
      drop-take i n ys
      ∙ ap (λ k. take k (drop i ys)) (let e : n - i ≡ suc n - suc i = omega arith in e)

  pub get_elem?-inside : (xs : List A) (i : ℕ) (x : A) → get_elem? xs i ≡ some x → i < length xs
  get_elem?-inside [] i x e = absurd (ground arith)
  get_elem?-inside (y ∷ xs) zero x e = omega arith
  get_elem?-inside (y ∷ xs) (suc i) x e = let l = get_elem?-inside xs i x e in omega arith

  pub get_elem?-outside : (xs : List A) (i : ℕ) → length xs ≤ i → get_elem? xs i ≡ none
  get_elem?-outside [] i l = refl
  get_elem?-outside (y ∷ xs) zero l = absurd (omega arith)
  get_elem?-outside (y ∷ xs) (suc i) l = get_elem?-outside xs i (omega arith)

  pub get_elem?-exists : (xs : List A) (i : ℕ) → i < length xs → (x : A) × (get_elem? xs i ≡ some x)
  get_elem?-exists [] i l = absurd (omega arith)
  get_elem?-exists (y ∷ xs) zero l = (y, refl)
  get_elem?-exists (y ∷ xs) (suc i) l = get_elem?-exists xs i (omega arith)

  pub get_elem?-append : (xs : List A) (v : A) → get_elem? (xs ++ (v ∷ [])) (length xs) ≡ some v
  get_elem?-append [] v = refl
  get_elem?-append (x ∷ xs) v = get_elem?-append xs v

  -- The element behind a prefix.
  pub get_elem?-middle :
      (xs : List A) (v : A) (ys : List A) → get_elem? (xs ++ (v ∷ ys)) (length xs) ≡ some v
  get_elem?-middle [] v ys = refl
  get_elem?-middle (x ∷ xs) v ys = get_elem?-middle xs v ys

  pub set-middle :
      (xs : List A) (v w : A) (ys : List A) → set (xs ++ (v ∷ ys)) (length xs) w ≡ xs ++ (w ∷ ys)
  set-middle [] v w ys = refl
  set-middle (x ∷ xs) v w ys = ap (λ l. x ∷ l) (set-middle xs v w ys)

  pub get_elem?-set :
      (xs : List A) (i : ℕ) (v : A) → i < length xs → get_elem? (set xs i v) i ≡ some v
  get_elem?-set [] i v l = absurd (omega arith)
  get_elem?-set (x ∷ xs) zero v l = refl
  get_elem?-set (x ∷ xs) (suc i) v l = get_elem?-set xs i v (omega arith)

  pub get_elem?-set_other :
      (xs : List A) (i j : ℕ) (v : A) → j ≢ i → get_elem? (set xs i v) j ≡ get_elem? xs j
  get_elem?-set_other [] i j v d = refl
  get_elem?-set_other (x ∷ xs) zero zero v d = absurd (d refl)
  get_elem?-set_other (x ∷ xs) zero (suc j) v d = refl
  get_elem?-set_other (x ∷ xs) (suc i) zero v d = refl
  get_elem?-set_other (x ∷ xs) (suc i) (suc j) v d =
      get_elem?-set_other xs i j v (λ e. d (ap suc e))

  take-inside :
      (n : ℕ) (ys : List A) (i : ℕ) (y : A)
      → get_elem? (take n ys) i ≡ some y
      → get_elem? ys i ≡ some y
  take-inside zero ys i y e = absurd (ground arith)
  take-inside (suc n) [] i y e = e
  take-inside (suc n) (z ∷ ys) zero y e = e
  take-inside (suc n) (z ∷ ys) (suc i) y e = take-inside n ys i y e

  map-inside {κ} :
      {B : Type κ} (f : A → B) (xs : List A) (i : ℕ) (x : A)
      → get_elem? xs i ≡ some x
      → get_elem? (map f xs) i ≡ some (f x)
  map-inside f [] i x e = absurd (ground arith)
  map-inside f (y ∷ xs) zero x e = ap (λ o. elim o [ none ↦ none | some z ↦ some (f z) ]) e
  map-inside f (y ∷ xs) (suc i) x e = map-inside f xs i x e

-- A list whose front is seen through `map` is read at its front.
pub get_elem?-front {ℓ κ} :
    {A : Type ℓ} {B : Type κ} (f : A → B) (n : ℕ) (ys : List B) (xs : List A) (i : ℕ) (x : A)
    → take n ys ≡ map f xs
    → get_elem? xs i ≡ some x
    → get_elem? ys i ≡ some (f x)
get_elem?-front f n ys xs i x e p =
    take-inside n ys i (f x) (ap (λ l. get_elem? l i) e ∙ map-inside f xs i x p)
