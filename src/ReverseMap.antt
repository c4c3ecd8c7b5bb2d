-- ===== src/ReverseMap.antt =====
-- The map from sockets to keys of source/tssx/reverse-map.c: an array with a key for each socket, where 0
-- stands for none. A result of none is a failed `assert`, or an access beyond the array.
pub mod Entries
mod Tests
use tssx.Base.{
  ℕ, zero, suc, ◌/◌, Bool, true, false, not, Option, none, some, List, [], ◌∷◌, get_elem?, set,
  ◌==◌, if◌then◌else◌,
}

abbrev pub ReverseMap : Type 0
ReverseMap = List ℕ

-- INVALID_KEY
abbrev pub invalid_key : ℕ
invalid_key = 0

-- REVERSE_MAP_SIZE, which is FD_SETSIZE
abbrev pub reverse_map_size : ℕ
reverse_map_size = 1024

-- `sizeof(key_t)`
abbrev pub key_size : ℕ
key_size = 4

-- `memset` with INVALID_KEY over the bytes of so many keys.
unfoldable pub clear_keys : ℕ → ReverseMap → ReverseMap
clear_keys zero reverse = reverse
clear_keys (suc n) [] = []
clear_keys (suc n) (key ∷ reverse) = invalid_key ∷ clear_keys n reverse

-- The length that `memset` gets is a number of bytes.
unfoldable pub reverse_map_setup : ReverseMap → ReverseMap
reverse_map_setup reverse = clear_keys (reverse_map_size / key_size) reverse

unfoldable pub reverse_map_destroy : ReverseMap → ReverseMap
reverse_map_destroy reverse = clear_keys (reverse_map_size / key_size) reverse

unfoldable pub reverse_map_lookup : ReverseMap → ℕ → Option ℕ
reverse_map_lookup reverse socket_fd = get_elem? reverse socket_fd

unfoldable pub reverse_map_has_entry_for : ReverseMap → ℕ → Option Bool
reverse_map_has_entry_for reverse socket_fd = elim (get_elem? reverse socket_fd) [
  | none ↦ none
  | some key ↦ some (not (key == invalid_key))
]

unfoldable pub reverse_map_erase : ReverseMap → ℕ → Option ReverseMap
reverse_map_erase reverse socket_fd = elim (reverse_map_has_entry_for reverse socket_fd) [
  | none ↦ none
  | some there ↦ if there then some (set reverse socket_fd invalid_key) else none
]

unfoldable pub reverse_map_insert : ReverseMap → ℕ → ℕ → Option ReverseMap
reverse_map_insert reverse socket_fd key = elim (reverse_map_has_entry_for reverse socket_fd) [
  | none ↦ none
  | some there ↦ if there then none else some (set reverse socket_fd key)
]

unfoldable pub reverse_map_is_empty : ReverseMap → Bool
reverse_map_is_empty reverse = reverse_map_size == 0
