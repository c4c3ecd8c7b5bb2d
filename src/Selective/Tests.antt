-- ===== src/Selective/Tests.antt =====
-- The selection of source/tssx/selective.c at small inputs.
use tssx.Base.{ℕ, ◌+◌, ◌≡◌, refl, true, none, some, List, [], ◌∷◌}
use tssx.StringSet.{
  StringSet, insert_string, ss_contains, ss_insert, ss_hash, hash_from, ss_equals, chain_contains,
  ss_create_if_necessary, ss_setup, ss_allocate, ss_resize, ss_is_initialized,
}
use tssx.Selective.{
  type_error, insert_paths, parse_tssx_variable, initialize_selective_set, c_string,
  in_selective_set, is_stream_socket, is_domain_and_stream_socket, check_tssx_usage,
}

abbrev nothing : StringSet
nothing = record { size = 0; threshold = 0; capacity = 0; nodes = none }

-- "/a" and "/b"
abbrev paths : List (List ℕ)
paths = (47 ∷ 97 ∷ []) ∷ (47 ∷ 98 ∷ []) ∷ []

-- A socket whose type the system does not give is taken for a stream socket.
unknown_type :
    (check_tssx_usage
      (λ _. paths)
      true
      type_error
      (47 ∷ 98 ∷ 0 ∷ [])
      4
      (some (47 ∷ 97 ∷ 32 ∷ 47 ∷ 98 ∷ []))
      (λ n. 80 + n)
      nothing).0
    ≡ true
unfolding check_tssx_usage is_domain_and_stream_socket is_stream_socket in_selective_set c_string
    initialize_selective_set parse_tssx_variable insert_paths insert_string ss_contains ss_insert
    ss_hash hash_from ss_equals chain_contains ss_create_if_necessary ss_setup ss_allocate ss_resize
    ss_is_initialized
unknown_type = refl
