-- ===== src/HashTable/Lookup.antt =====
-- What source/tssx/hashtable.c finds in a chain after a replacement.
use tssx.Base.{
  ℕ, ◌≡◌, ◌≢◌, refl, sym, ap, ◌∙◌, false, none, some, [], ◌∷◌, ◌==◌, if◌then◌else◌, Bool-cases,
  Option-cases, eq_of_some, inl, inr, arith,
}
use tssx.HashTable.{Chain, find_node, update_node}

-- A node with the key is updated in place, and the other keys find what they found.
pub update_node-find {ℓ} :
    {A : Type ℓ} (key : ℕ) (c : A) (chain chain' : Chain A)
    → update_node key c chain ≡ some chain'
    → (find_node key chain' ≡ some c)
      × ((other : ℕ) → other ≢ key → find_node other chain' ≡ find_node other chain)
unfolding update_node find_node
update_node-find key c [] chain' e = absurd (ground arith)
update_node-find key c (node ∷ chain) chain' e = elim (Bool-cases (node.key == key)) [
  | inl t ↦
      let p : record node { connection = c } ∷ chain ≡ chain' = eq_of_some (rw t at e) in
      (
        ap (find_node key) (sym p) ∙ rw t refl,
        λ other d.
            let f : node.key == other ≡ false = ground arith in
            ap (find_node other) (sym p) ∙ rw f refl,
      )
  | inr t ↦ elim (Option-cases (update_node key c chain)) [
    | inl n ↦ let p : none ≡ some chain' = rw (update_node, t, n) at e in absurd cc
    | inr (rest, n) ↦
        let p : node ∷ rest ≡ chain' = eq_of_some (rw (update_node, t, n) at e) in
        let (here, there) = update_node-find key c chain rest n in
        (
          ap (find_node key) (sym p) ∙ rw t here,
          λ other d.
              ap (find_node other) (sym p)
              ∙ ap (λ o. if node.key == other then some node.connection else o) (there other d),
        )
  ]
]
