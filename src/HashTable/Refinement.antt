-- ===== src/HashTable/Refinement.antt =====
-- A run of calls of source/tssx/hashtable.c against the same run on a finite map.
use tssx.Base.{ℕ, ◌≡◌, refl, sym, ap, ◌∙◌, subst, Bool, Option, none, some, List, [], ◌∷◌}
use tssx.HashTable.{HashTable, ht_insert, ht_get, ht_contains, ht_remove, ht_clear}
use tssx.HashTable.Arrays.{updated}
use tssx.HashTable.Map.{Shows, Holds, is_bound, is_free, ht_insert-Holds}
use tssx.HashTable.Removal.{ht_remove-Holds, ht_clear-Holds, ht_get-Holds}

-- A call of the table's methods, and what it returns.
pub data Call {ℓ} (A : Type ℓ) : Type ℓ where
  insert : ℕ → A → Call A
  remove : ℕ → Call A
  clear : Call A
  get : ℕ → Call A
  contains : ℕ → Call A

pub data Answer {ℓ} (A : Type ℓ) : Type ℓ where
  flag : Bool → Answer A
  found : Option A → Answer A
  nothing : Answer A

module _ {ℓ} {A : Type ℓ} where
  unfoldable pub call_table : HashTable A → Call A → Answer A × HashTable A
  call_table table (insert key c) = let r = ht_insert table key c in (flag r.0, r.1)
  call_table table (remove key) = let r = ht_remove table key in (flag r.0, r.1)
  call_table table clear = (nothing, ht_clear table)
  call_table table (get key) = (found (ht_get table key), table)
  call_table table (contains key) = (flag (ht_contains table key), table)

  -- The same on a map.
  unfoldable pub call_map : (ℕ → Option A) → Call A → Answer A × (ℕ → Option A)
  call_map f (insert key c) = (flag (is_free (f key)), updated key (some c) f)
  call_map f (remove key) = (flag (is_bound (f key)), updated key none f)
  call_map f clear = (nothing, λ _. none)
  call_map f (get key) = (found (f key), f)
  call_map f (contains key) = (flag (is_bound (f key)), f)

  unfoldable pub table_answers : HashTable A → List (Call A) → List (Answer A)
  table_answers table [] = []
  table_answers table (call ∷ calls) =
      let r = call_table table call in r.0 ∷ table_answers r.1 calls

  unfoldable pub map_answers : (ℕ → Option A) → List (Call A) → List (Answer A)
  map_answers f [] = []
  map_answers f (call ∷ calls) = let r = call_map f call in r.0 ∷ map_answers r.1 calls

  call_table-Holds :
      (table : HashTable A) (f : ℕ → Option A) (call : Call A)
      → Holds table f
      → ((call_table table call).0 ≡ (call_map f call).0)
        × Holds (call_table table call).1 (call_map f call).1
  unfolding call_table call_map
  call_table-Holds table f (insert key c) h =
      let (e, held) = ht_insert-Holds table f key c h in (ap flag e, held)
  call_table-Holds table f (remove key) h =
      let (e, held) = ht_remove-Holds table f key h in (ap flag e, held)
  call_table-Holds table f clear h = (refl, ht_clear-Holds table f h)
  call_table-Holds table f (get key) h = (ap found (ht_get-Holds table f key h).0, h)
  call_table-Holds table f (contains key) h = (ap flag (ht_get-Holds table f key h).1, h)

  answers-Holds :
      (table : HashTable A) (f : ℕ → Option A) (calls : List (Call A))
      → Holds table f
      → table_answers table calls ≡ map_answers f calls
  unfolding table_answers map_answers
  answers-Holds table f [] h = refl
  answers-Holds table f (call ∷ calls) h =
      let (e, held) = call_table-Holds table f call h in
      ap (λ a. a ∷ table_answers (call_table table call).1 calls) e
      ∙ ap (λ rest. (call_map f call).0 ∷ rest)
          (answers-Holds (call_table table call).1 (call_map f call).1 calls held)

  -- Any run of ht_insert, ht_remove, ht_clear, ht_get and ht_contains on a table that has no array
  -- yet, through every growth and shrinking of it, returns what the same run on a finite map that
  -- starts empty returns: an insertion says whether the key was free, a removal whether it was bound.
  pub table_answers-map_answers :
      (table : HashTable A) (calls : List (Call A))
      → table.nodes ≡ none
      → table_answers table calls ≡ map_answers (λ _. none) calls
  table_answers-map_answers table calls e =
      answers-Holds table (λ _. none) calls
        (subst (λ o. Shows table.capacity o (λ _. none)) (sym e) (λ _. refl))
