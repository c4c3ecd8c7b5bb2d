-- ===== src/Selective.antt =====
-- Which sockets use the library: source/tssx/selective.c. The paths of the variable USE_TSSX are put into a
-- set of strings, in which the address of a socket is then looked up. The answers of the system about a
-- socket are arguments, and `malloc` answers, with an address for each node.
mod Tests
use tssx.Base.{
  ℕ, zero, suc, ◌-◌, Bool, true, false, Option, none, some, List, [], ◌∷◌, take, ◌++◌, ◌==◌, ◌&&◌,
  if◌then◌else◌,
}
use tssx.StringSet.{StringSet, ss_insert, ss_contains, ss_is_initialized}

-- The loop of `_parse_tssx_variable` over the tokens, with the address of each and that of its node.
unfoldable pub insert_paths : List (List ℕ) → ℕ → (ℕ → ℕ) → StringSet → StringSet
insert_paths [] count node_key strings = strings
insert_paths (path ∷ paths) count node_key strings =
    insert_paths paths (suc count) node_key
      (ss_insert strings (record { address = count; characters = path }) (node_key count)).1

-- `strtok` gives the tokens of the variable.
unfoldable pub parse_tssx_variable :
    (List ℕ → List (List ℕ)) → List ℕ → (ℕ → ℕ) → StringSet → StringSet
parse_tssx_variable strtok variable node_key strings =
    insert_paths (strtok variable) 0 node_key strings

-- Where the variable is not there the set stays as it is.
unfoldable pub initialize_selective_set :
    (List ℕ → List (List ℕ)) → Option (List ℕ) → (ℕ → ℕ) → StringSet → StringSet
initialize_selective_set strtok none node_key strings = strings
initialize_selective_set strtok (some variable) node_key strings =
    parse_tssx_variable strtok variable node_key strings

-- The characters up to the first zero.
unfoldable pub c_string : List ℕ → List ℕ
c_string [] = []
c_string (c ∷ characters) = let rest = c_string characters in if c == 0 then [] else c ∷ rest

-- `offsetof(struct sockaddr_un, sun_path)`
abbrev pub path_offset : ℕ
path_offset = 2

-- With the path as the system leaves it, and the length of the whole address.
unfoldable pub in_selective_set : StringSet → List ℕ → ℕ → Bool
in_selective_set strings sun_path length =
    ss_contains strings (c_string (take (length - path_offset) sun_path))

-- SOCK_STREAM, another type, or the ERROR of `getsockopt`, which is -1.
pub data SocketType : Type 0 where
  stream other_type type_error : SocketType

-- The value as a number is not zero.
unfoldable pub is_stream_socket : SocketType → Bool
is_stream_socket stream = true
is_stream_socket other_type = false
is_stream_socket type_error = true

-- `&&` makes 1 of whatever is not zero.
unfoldable pub is_domain_and_stream_socket : Bool → SocketType → Bool
is_domain_and_stream_socket is_domain socket_type = is_domain && is_stream_socket socket_type

-- For a socket whose address the system gives.
unfoldable pub check_tssx_usage :
    (List ℕ → List (List ℕ))
    → Bool
    → SocketType
    → List ℕ
    → ℕ
    → Option (List ℕ)
    → (ℕ → ℕ)
    → StringSet
    → Bool × StringSet
check_tssx_usage strtok is_domain socket_type sun_path length variable node_key strings =
    if is_domain_and_stream_socket is_domain socket_type
    then (let ready =
          if ss_is_initialized strings
          then strings
          else initialize_selective_set strtok variable node_key strings in
        (in_selective_set ready sun_path length, ready))
    else (false, strings)
