-- ===== src/ReverseMap/Entries.antt =====
-- What source/tssx/reverse-map.c has for a socket behind each of its calls.
use tssx.Base.{
  ℕ, zero, suc, ◌<◌, ◌≡◌, ◌≢◌, refl, sym, ap, ◌∙◌, true, false, Bool-cases, inl, inr, not, none,
  some, [], ◌∷◌, length, get_elem?, set, length-set, get_elem?-set, get_elem?-set_other, ◌==◌, ltb,
  if◌then◌else◌, arith,
}
use tssx.ReverseMap.{
  ReverseMap, invalid_key, reverse_map_size, clear_keys, reverse_map_setup, reverse_map_destroy,
  reverse_map_lookup, reverse_map_has_entry_for, reverse_map_erase, reverse_map_insert,
}

clear_keys-get :
    (n : ℕ) (reverse : ReverseMap) (i : ℕ)
    → i < length reverse
    → get_elem? (clear_keys n reverse) i
      ≡ (if ltb i n then some invalid_key else get_elem? reverse i)
unfolding clear_keys
clear_keys-get zero reverse i l = let t : ltb i 0 ≡ false = ground arith in rw t refl
clear_keys-get (suc n) [] i l = absurd (omega arith)
clear_keys-get (suc n) (key ∷ reverse) zero l =
    let t : ltb 0 (suc n) ≡ true = ground arith in rw t refl
clear_keys-get (suc n) (key ∷ reverse) (suc i) l =
    let t : ltb (suc i) (suc n) ≡ ltb i n = ground arith in
    rw t (clear_keys-get n reverse i (omega arith))

-- The set-up of a map, and its end, take the keys of the sockets below 256 away, and leave every other
-- socket the key that stood there.
pub reverse_map_setup-lookup :
    (reverse : ReverseMap) (socket_fd : ℕ)
    → length reverse ≡ reverse_map_size
    → socket_fd < reverse_map_size
    → let found =
        if ltb socket_fd 256 then some invalid_key else reverse_map_lookup reverse socket_fd in
      (reverse_map_lookup (reverse_map_setup reverse) socket_fd ≡ found)
      × (reverse_map_lookup (reverse_map_destroy reverse) socket_fd ≡ found)
unfolding reverse_map_setup reverse_map_destroy reverse_map_lookup
reverse_map_setup-lookup reverse socket_fd width l =
    let e = clear_keys-get 256 reverse socket_fd (omega (arith, width, l)) in (e, e)

-- The two calls at a socket whose key is known.
calls_at :
    (reverse : ReverseMap) (socket_fd key : ℕ)
    → get_elem? reverse socket_fd ≡ some key
    → let there = not (key == invalid_key) in
      (reverse_map_erase reverse socket_fd
        ≡ (if there then some (set reverse socket_fd invalid_key) else none))
      × ((other : ℕ)
          → reverse_map_insert reverse socket_fd other
            ≡ (if there then none else some (set reverse socket_fd other)))
unfolding reverse_map_insert reverse_map_erase reverse_map_has_entry_for
calls_at reverse socket_fd key e =
    let has : reverse_map_has_entry_for reverse socket_fd ≡ some (not (key == invalid_key)) =
      ap (λ o. elim o [ none ↦ none | some key ↦ some (not (key == invalid_key)) ]) e in
    (
      ap
          (λ o. elim o [
            | none ↦ none
            | some there ↦ if there then some (set reverse socket_fd invalid_key) else none
          ])
          has,
      λ other.
          ap
            (λ o. elim o [
              | none ↦ none
              | some there ↦ if there then none else some (set reverse socket_fd other)
            ])
            has,
    )

-- At a socket without a key, an insertion of a key that is valid puts it there, and an erasure then takes
-- it away; neither touches the other sockets. A second insertion in between fails its `assert`, and so
-- does a second erasure behind it.
pub reverse_map_insert-erase :
    (reverse : ReverseMap) (socket_fd key : ℕ)
    → reverse_map_lookup reverse socket_fd ≡ some invalid_key
    → socket_fd < length reverse
    → key ≢ invalid_key
    → (inserted : ReverseMap) × (erased : ReverseMap) × (reverse_map_insert reverse socket_fd key
        ≡ some inserted)
      × (reverse_map_lookup inserted socket_fd ≡ some key)
      × ((other : ℕ) → reverse_map_insert inserted socket_fd other ≡ none)
      × (reverse_map_erase inserted socket_fd ≡ some erased)
      × (reverse_map_erase erased socket_fd ≡ none)
      × ((i : ℕ) → reverse_map_lookup erased i ≡ reverse_map_lookup reverse i)
unfolding reverse_map_lookup
reverse_map_insert-erase reverse socket_fd key free l valid =
    let inserted = set reverse socket_fd key in
    let erased = set inserted socket_fd invalid_key in
    let now = get_elem?-set reverse socket_fd key l in
    let inside : socket_fd < length inserted = omega (arith, length-set reverse socket_fd key) in
    let gone = get_elem?-set inserted socket_fd invalid_key inside in
    let there : not (key == invalid_key) ≡ true = ground arith in
    (
      inserted,
      erased,
      (calls_at reverse socket_fd invalid_key free).1 key,
      now,
      λ other. (calls_at inserted socket_fd key now).1 other ∙ rw there refl,
      (calls_at inserted socket_fd key now).0 ∙ rw there refl,
      (calls_at erased socket_fd invalid_key gone).0,
      λ i. elim (Bool-cases (i == socket_fd)) [
        | inl t ↦
            let e : i ≡ socket_fd = ground arith in
            ap (get_elem? erased) e ∙ gone ∙ sym free ∙ ap (get_elem? reverse) (sym e)
        | inr t ↦
            let apart : i ≢ socket_fd = λ e. ground arith in
            get_elem?-set_other inserted socket_fd i invalid_key apart
            ∙ get_elem?-set_other reverse socket_fd i key apart
      ],
    )
