-- ===== src/StringSet/Lookup.antt =====
-- What source/tssx/string-set.c finds and removes after an insertion.
use native.Mathlib.Nat.{mod-lt}
use tssx.Base.{
  ℕ, ◌<◌, ◌≡◌, ◌≢◌, refl, sym, ap, ◌∙◌, subst, true, false, Bool-cases, inl, inr, none, some, List,
  [], ◌∷◌, length, set, ◌==◌, get_elem?-set, get_elem?-set_other, add_size, arith,
}
use tssx.StringSet.{
  String, Node, Chain, StringSet, ss_equals, ss_hash, hash_from, chain_at, chain_contains,
  remove_node, insert_string, ss_contains, ss_remove,
}

-- `strcmp` is right.
equals_refl : (characters : List ℕ) → ss_equals characters characters ≡ true
unfolding ss_equals
equals_refl [] = refl
equals_refl (c ∷ characters) = let h = equals_refl characters in ground arith

equals_path : (first second : List ℕ) → ss_equals first second ≡ true → first ≡ second
unfolding ss_equals
equals_path [] [] e = refl
equals_path [] (d ∷ second) e = absurd cc
equals_path (c ∷ first) [] e = absurd cc
equals_path (c ∷ first) (d ∷ second) e =
    let head : c ≡ d = ground arith in
    let tail : ss_equals first second ≡ true = ground arith in
    let h = equals_path first second tail in ap (λ x. x ∷ first) head ∙ ap (λ xs. d ∷ xs) h

-- No node of the chain has its key at the address.
abbrev pub Apart : ℕ → Chain → Type 0
Apart address [] = Unit
Apart address (node ∷ chain) = (node.key.address ≢ address) × Apart address chain

remove-none : (address : ℕ) (chain : Chain) → Apart address chain → remove_node address chain ≡ none
unfolding remove_node
remove-none address [] apart = refl
remove-none address (node ∷ chain) (here, there) =
    let f : node.key.address == address ≡ false = ground arith in
    rw (remove_node, f, remove-none address chain there) refl

module _ (strings : StringSet) (nodes : List Chain) (e : strings.nodes ≡ some nodes)
    (width : length nodes ≡ strings.capacity) (pos : 0 < strings.capacity) (key : String)
    (node_key : ℕ) where
  abbrev index : ℕ
  index = ss_hash strings.capacity key.characters

  inside : index < length nodes
  unfolding ss_hash
  inside = subst (λ n. index < n) (sym width) (mod-lt (hash_from 5381 key.characters) pos)

  abbrev node : Node
  node = record { key = record { address = node_key; characters = key.characters } }

  abbrev new_nodes : List Chain
  new_nodes = set nodes index (node ∷ chain_at nodes index)

  here : chain_at new_nodes index ≡ node ∷ chain_at nodes index
  here =
      ap (λ o. elim o [ none ↦ [] | some chain ↦ chain ])
        (get_elem?-set nodes index (node ∷ chain_at nodes index) inside)

  -- The characters that are not the key's are found where they were.
  others :
      (other : List ℕ)
      → other ≢ key.characters
      → chain_contains other (chain_at new_nodes (ss_hash strings.capacity other))
        ≡ chain_contains other (chain_at nodes (ss_hash strings.capacity other))
  unfolding chain_contains
  others other d = elim (Bool-cases (ss_hash strings.capacity other == index)) [
    | inl t ↦
        let same : ss_hash strings.capacity other ≡ index = ground arith in
        let f : ss_equals key.characters other ≡ false =
          elim (Bool-cases (ss_equals key.characters other)) [
            | inl y ↦ absurd (d (sym (equals_path key.characters other y)))
            | inr n ↦ n
          ] in
        ap (λ i. chain_contains other (chain_at new_nodes i)) same
        ∙ ap (chain_contains other) here
        ∙ rw f (ap (λ i. chain_contains other (chain_at nodes i)) (sym same))
    | inr t ↦
        let apart : ss_hash strings.capacity other ≢ index = λ q. ground arith in
        ap (λ o. chain_contains other (elim o [ none ↦ [] | some chain ↦ chain ]))
          (get_elem?-set_other nodes index (ss_hash strings.capacity other)
            (node ∷ chain_at nodes index) apart)
  ]

  -- `ss_insert`, behind the growth of the set, whether the key is there already or not: the key is then
  -- found, and other strings as before. `ss_remove` by the pointer of a key that is none of the
  -- nodes' own fails, and leaves the set with the key.
  pub insert-remove :
      Apart key.address (chain_at nodes index)
      → node_key ≢ key.address
      → let new = (insert_string strings nodes key node_key).1 in
        (ss_contains new key.characters ≡ true)
        × ((other : List ℕ)
            → other ≢ key.characters
            → ss_contains new other ≡ ss_contains strings other)
        × (ss_remove new key ≡ (false, new))
  unfolding insert_string ss_contains ss_remove chain_contains
  insert-remove apart fresh =
      let Fine : StringSet → Type 0 = λ new.
        (ss_contains new key.characters ≡ true)
        × ((other : List ℕ)
            → other ≢ key.characters
            → ss_contains new other ≡ ss_contains strings other)
        × (ss_remove new key ≡ (false, new)) in
      elim (Bool-cases (chain_contains key.characters (chain_at nodes index))) [
        | inl y ↦
            let same : (insert_string strings nodes key node_key).1 ≡ strings =
              rw (insert_string, y) refl in
            subst Fine (sym same) (
              rw (ss_contains, e) y,
              λ other d. refl,
              (let missed = remove-none key.address (chain_at nodes index) apart in
                  simp (ss_remove, e, missed) refl),
            )
        | inr n ↦
            let new : StringSet = record strings {
              nodes = some new_nodes;
              size = add_size strings.size 1;
            } in
            let same : (insert_string strings nodes key node_key).1 ≡ new =
              rw (insert_string, n) refl in
            let found : chain_contains key.characters (node ∷ chain_at nodes index) ≡ true =
              rw (equals_refl key.characters) refl in
            let missed : remove_node key.address (chain_at new_nodes index) ≡ none =
              ap (remove_node key.address) here
              ∙ remove-none key.address (node ∷ chain_at nodes index) (fresh, apart) in
            subst Fine (sym same) (
              ap (chain_contains key.characters) here ∙ found,
              λ other d.
                  let old : ss_contains strings other
                      ≡ chain_contains other (chain_at nodes (ss_hash strings.capacity other)) =
                    rw (ss_contains, e) refl in
                  others other d ∙ sym old,
              rw (ss_remove, missed) refl,
            )
      ]
