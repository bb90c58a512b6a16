-- ===== src/Hypercore/Merkle/Binding.antt =====
-- Feeds with one root hash (pkg/hypercore/merkle.go), for a hash function with sums of 32 bytes.
use keet_agent.Prelude.{
  ◌≡◌, ◌≢◌, sym, ap, ap₂, subst, ◌∙◌, arith, List, [], ◌∷◌, ◌++◌, length, take, drop, take-append,
  drop-append, ◌⊎◌, inl, inr, bytes_eq, bytes_eq→eq, bytes_eq_refl, true, Bool-cases,
}
use keet_agent.Prelude.Result.{ok}
use keet_agent.Bytes.{Bytes}
use keet_agent.Hypercore.Merkle.{hash_leaf, hash_parent, compute_root_hash}
use keet_agent.Hypercore.Merkle.Tree.{
  Tree, leaf, node, leaves_of, hash_tree, compute_root_hash-tree,
}

dec_bytes : (a b : Bytes) → (a ≡ b) ⊎ (a ≢ b)
dec_bytes a b = elim (Bool-cases (bytes_eq a b)) [
  | inl e ↦ inl (bytes_eq→eq a b e)
  | inr e ↦ inr (λ p. cc (e, subst (λ c. bytes_eq a c ≡ true) p (bytes_eq_refl a)))
]

-- Equal concatenations of halves of one length.
same_halves : (a b c d : Bytes) → length a ≡ length c → a ++ b ≡ c ++ d → (a ≡ c) × (b ≡ d)
same_halves a b c d h e = (
  sym (take-append a b) ∙ ap₂ take h e ∙ take-append c d,
  sym (drop-append a b) ∙ ap₂ drop h e ∙ drop-append c d,
)

module _ (sum256 : Bytes → Bytes) where
  -- Two different inputs with one sum.
  pub Collision : Type 0
  Collision = (x : Bytes) × (y : Bytes) × (x ≢ y) × (sum256 x ≡ sum256 y)

module _ (sum256 : Bytes → Bytes) (sum_length : (x : Bytes) → length (sum256 x) ≡ 32) where
  hash_tree-length : (t : Tree) → length (hash_tree sum256 t) ≡ 32
  unfolding hash_tree hash_leaf hash_parent
  hash_tree-length (leaf d) = sum_length (0 ∷ d)
  hash_tree-length (node l r) = sum_length (1 ∷ (hash_tree sum256 l ++ hash_tree sum256 r))

  tree_binding : (s t : Tree) → hash_tree sum256 s ≡ hash_tree sum256 t → (s ≡ t) ⊎ Collision sum256
  unfolding hash_tree hash_leaf hash_parent Collision
  tree_binding (leaf d) (leaf d') e = elim (dec_bytes (0 ∷ d) (0 ∷ d')) [
    | inl same ↦ inl (ap leaf (ap (drop 1) same))
    | inr other ↦ inr (0 ∷ d, 0 ∷ d', other, e)
  ]
  tree_binding (leaf d) (node l r) e =
      inr (0 ∷ d, 1 ∷ (hash_tree sum256 l ++ hash_tree sum256 r), λ p. ground (arith, p), e)
  tree_binding (node l r) (leaf d) e =
      inr (1 ∷ (hash_tree sum256 l ++ hash_tree sum256 r), 0 ∷ d, λ p. ground (arith, p), e)
  tree_binding (node l r) (node l' r') e =
      let left = tree_binding l l' in
      let right = tree_binding r r' in
      elim (dec_bytes (1 ∷ (hash_tree sum256 l ++ hash_tree sum256 r))
        (1 ∷ (hash_tree sum256 l' ++ hash_tree sum256 r'))) [
          | inr other ↦ inr (
            1 ∷ (hash_tree sum256 l ++ hash_tree sum256 r),
            1 ∷ (hash_tree sum256 l' ++ hash_tree sum256 r'),
            other,
            e,
          )
          | inl same ↦
              let (el, er) =
                same_halves (hash_tree sum256 l) (hash_tree sum256 r) (hash_tree sum256 l')
                  (hash_tree sum256 r') (hash_tree-length l ∙ sym (hash_tree-length l'))
                  (ap (drop 1) same) in
              both (left el) (right er)
        ]
    where
      both :
          (l ≡ l') ⊎ Collision sum256
          → (r ≡ r') ⊎ Collision sum256
          → (node l r ≡ node l' r') ⊎ Collision sum256
      both (inl p) (inl q) = inl (ap₂ node p q)
      both (inl p) (inr c) = inr c
      both (inr c) q = inr c

  -- Feeds of any lengths with the same root hash have the same blocks, or two inputs of the hash
  -- function collide.
  pub root_binding :
      (ds es : List Bytes) (root : Bytes)
      → compute_root_hash sum256 ds ≡ ok root
      → compute_root_hash sum256 es ≡ ok root
      → (ds ≡ es) ⊎ Collision sum256
  unfolding compute_root_hash
  root_binding [] es root p q = absurd (cc)
  root_binding (d ∷ ds) [] root p q = absurd (cc)
  root_binding (d ∷ ds) (e ∷ es) root p q =
      let (s, es', same) = compute_root_hash-tree sum256 (d ∷ ds) (λ x. cc) in
      let (t, et', same') = compute_root_hash-tree sum256 (e ∷ es) (λ x. cc) in
      let eq : hash_tree sum256 s ≡ hash_tree sum256 t = cc (es', et') in
      elim (tree_binding s t eq) [
        | inl st ↦ inl (sym same ∙ ap leaves_of st ∙ same')
        | inr c ↦ inr c
      ]
