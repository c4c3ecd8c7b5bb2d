-- ===== src/FreeList.antt =====
-- The list of free keys of source/tssx/free-list.c, a vector used as a stack. A result of none is
-- `terminate`.
pub mod Stack
mod Tests
use tssx.Base.{
  ℕ, ◌+◌, ◌-◌, ◌*◌, ◌^◌, ◌≤◌, ◌<◌, ◌≡◌, refl, sym, ap, ◌∙◌, Option, none, some, true, false, Bool,
  List, [], ◌∷◌, ◌++◌, length, take, ◌==◌, arith,
}
use tssx.Vector.{
  Vector, Status, success, error, Answer, Pointer, vector_setup, vector_destroy, vector_push_back,
  vector_pop_back, vector_back, vector_is_empty, read_through,
}

-- A key is an `int`; `sizeof(key_t)` is 4.
abbrev pub key_size : ℕ
key_size = 4

abbrev pub FreeList : Type 0
FreeList = Vector ℕ

-- `terminate` unless the call succeeded.
unfoldable pub or_terminate : Status × FreeList → Option FreeList
or_terminate (success, list) = some list
or_terminate (error, list) = none

unfoldable pub free_list_setup : FreeList → Answer → Option FreeList
free_list_setup list answer = or_terminate (vector_setup list 0 key_size answer)

unfoldable pub free_list_destroy : FreeList → Option FreeList
free_list_destroy list = or_terminate (vector_destroy list)

unfoldable pub free_list_push : FreeList → ℕ → Answer → Option FreeList
free_list_push list key answer = or_terminate (vector_push_back list key answer)

-- What a pop comes to: a key and the list, the end of the process in `terminate` or at an `assert`, or
-- a read through a pointer into memory that is not the list's any more.
pub data Popped : Type 0 where
  popped : ℕ → FreeList → Popped
  ended : Popped
  invalid_read : FreeList → Pointer → Popped

-- The key is read through the pointer after the pop.
unfoldable pub read_popped : Pointer → FreeList → Popped
read_popped pointer list = elim (read_through list pointer) [
  | none ↦ invalid_read list pointer
  | some key ↦ popped key list
]

unfoldable pub free_list_pop : FreeList → Answer → Popped
free_list_pop list answer = elim (vector_back list) [
  | none ↦ ended
  | some none ↦ ended
  | some (some pointer) ↦ elim (vector_pop_back list answer) [
    | none ↦ ended
    | some r ↦ elim (or_terminate r) [ none ↦ ended | some list' ↦ read_popped pointer list' ]
  ]
]

unfoldable pub free_list_is_empty : FreeList → Bool
free_list_is_empty list = vector_is_empty list
