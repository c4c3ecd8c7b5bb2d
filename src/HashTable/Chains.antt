-- ===== src/HashTable/Chains.antt =====
-- The chains of source/tssx/hashtable.c, in which no key stands twice.
use tssx.Base.{
  ℕ, ◌≡◌, ◌≢◌, refl, sym, ap, ◌∙◌, subst, false, Bool-cases, inl, inr, Option-cases, none, some,
  eq_of_some, [], ◌∷◌, ◌==◌, if◌then◌else◌, arith,
}
use tssx.HashTable.Lookup.{update_node-find}
use tssx.HashTable.{Chain, find_node, update_node, remove_node}

module _ {ℓ} {A : Type ℓ} where
  -- No key stands twice.
  abbrev pub Distinct : Chain A → Type ℓ
  Distinct [] = Unit
  Distinct (node ∷ chain) = (find_node node.key chain ≡ none) × Distinct chain

  -- A replaced node keeps which keys are there.
  pub update-Distinct :
      (key : ℕ) (c : A) (chain chain' : Chain A)
      → update_node key c chain ≡ some chain'
      → Distinct chain
      → Distinct chain'
  unfolding update_node find_node
  update-Distinct key c [] chain' e d = absurd (ground arith)
  update-Distinct key c (node ∷ chain) chain' e (fresh, d) = elim (Bool-cases (node.key == key)) [
    | inl t ↦
        let p : record node { connection = c } ∷ chain ≡ chain' = eq_of_some (rw t at e) in
        subst Distinct p (fresh, d)
    | inr t ↦ elim (Option-cases (update_node key c chain)) [
      | inl n ↦ let p : none ≡ some chain' = rw (update_node, t, n) at e in absurd cc
      | inr (rest, n) ↦
          let p : node ∷ rest ≡ chain' = eq_of_some (rw (update_node, t, n) at e) in
          let (_, others) = update_node-find key c chain rest n in
          let apart : node.key ≢ key = λ q. ground arith in
          subst Distinct p (others node.key apart ∙ fresh, update-Distinct key c chain rest n d)
    ]
  ]

  -- A replacement fails exactly where the key is not there.
  pub update-none :
      (key : ℕ) (c : A) (chain : Chain A)
      → update_node key c chain ≡ none
      → find_node key chain ≡ none
  unfolding update_node find_node
  update-none key c [] e = refl
  update-none key c (node ∷ chain) e = elim (Bool-cases (node.key == key)) [
    | inl t ↦ absurd (ground (arith, e))
    | inr t ↦ elim (Option-cases (update_node key c chain)) [
      | inl n ↦ rw t (update-none key c chain n)
      | inr (rest, n) ↦ let p : some (node ∷ rest) ≡ none = rw (update_node, t, n) at e in absurd cc
    ]
  ]

  -- What is left behind a removal.
  pub remove_node-find :
      (key : ℕ) (chain chain' : Chain A)
      → Distinct chain
      → remove_node key chain ≡ some chain'
      → (find_node key chain ≢ none)
        × (find_node key chain' ≡ none)
        × ((other : ℕ) → other ≢ key → find_node other chain' ≡ find_node other chain)
  unfolding remove_node find_node
  remove_node-find key [] chain' d e = absurd (ground arith)
  remove_node-find key (node ∷ chain) chain' (fresh, d) e = elim (Bool-cases (node.key == key)) [
    | inl t ↦
        let p : chain ≡ chain' = eq_of_some (rw t at e) in
        let same : node.key ≡ key = ground arith in
        (
          λ e. let q : some node.connection ≡ none = rw t at e in absurd cc,
          ap (find_node key) (sym p) ∙ ap (λ k. find_node k chain) (sym same) ∙ fresh,
          λ other d.
              let f : node.key == other ≡ false = ground arith in
              ap (find_node other) (sym p) ∙ rw f refl,
        )
    | inr t ↦ elim (Option-cases (remove_node key chain)) [
      | inl n ↦ let p : none ≡ some chain' = rw (remove_node, t, n) at e in absurd cc
      | inr (rest, n) ↦
          let p : node ∷ rest ≡ chain' = eq_of_some (rw (remove_node, t, n) at e) in
          let (there, gone, others) = remove_node-find key chain rest d n in
          (
            λ e. there (rw t at e),
            ap (find_node key) (sym p) ∙ rw t gone,
            λ other d.
                ap (find_node other) (sym p)
                ∙ ap (λ o. if node.key == other then some node.connection else o) (others other d),
          )
    ]
  ]

  pub remove-Distinct :
      (key : ℕ) (chain chain' : Chain A)
      → remove_node key chain ≡ some chain'
      → Distinct chain
      → Distinct chain'
  unfolding remove_node find_node
  remove-Distinct key [] chain' e d = absurd (ground arith)
  remove-Distinct key (node ∷ chain) chain' e (fresh, d) = elim (Bool-cases (node.key == key)) [
    | inl t ↦ let p : chain ≡ chain' = eq_of_some (rw t at e) in subst Distinct p d
    | inr t ↦ elim (Option-cases (remove_node key chain)) [
      | inl n ↦ let p : none ≡ some chain' = rw (remove_node, t, n) at e in absurd cc
      | inr (rest, n) ↦
          let p : node ∷ rest ≡ chain' = eq_of_some (rw (remove_node, t, n) at e) in
          let (_, _, others) = remove_node-find key chain rest d n in
          let apart : node.key ≢ key = λ q. ground arith in
          subst Distinct p (others node.key apart ∙ fresh, remove-Distinct key chain rest n d)
    ]
  ]

  -- A removal fails exactly where the key is not there, and a replacement too.
  pub remove-none :
      (key : ℕ) (chain : Chain A) → remove_node key chain ≡ none → find_node key chain ≡ none
  unfolding remove_node find_node
  remove-none key [] e = refl
  remove-none key (node ∷ chain) e = elim (Bool-cases (node.key == key)) [
    | inl t ↦ absurd (ground (arith, e))
    | inr t ↦ elim (Option-cases (remove_node key chain)) [
      | inl n ↦ rw t (remove-none key chain n)
      | inr (rest, n) ↦ let p : some (node ∷ rest) ≡ none = rw (remove_node, t, n) at e in absurd cc
    ]
  ]

  pub update-there :
      (key : ℕ) (c : A) (chain chain' : Chain A)
      → update_node key c chain ≡ some chain'
      → find_node key chain ≢ none
  unfolding update_node find_node
  update-there key c [] chain' e = absurd (ground arith)
  update-there key c (node ∷ chain) chain' e = elim (Bool-cases (node.key == key)) [
    | inl t ↦ λ f. let q : some node.connection ≡ none = rw t at f in absurd cc
    | inr t ↦ elim (Option-cases (update_node key c chain)) [
      | inl n ↦ let p : none ≡ some chain' = rw (update_node, t, n) at e in absurd cc
      | inr (rest, n) ↦ λ f. update-there key c chain rest n (rw t at f)
    ]
  ]
