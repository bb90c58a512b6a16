-- ===== src/Hypercore/Merkle/Tree.antt =====
-- The tree that the levels of ComputeRootHash (pkg/hypercore/merkle.go) build, apart from its hashes.
use keet_agent.Prelude.{
  ℕ, zero, suc, ◌≤◌, ◌<◌, List, [], ◌∷◌, ◌++◌, map, length, ◌≡◌, refl, sym, ap, ◌∙◌, arith,
  append-nil, append_assoc, ◌≢◌,
}
use keet_agent.Prelude.Result.{ok}
use keet_agent.Bytes.{Bytes}
use keet_agent.Hypercore.Merkle.{hash_leaf, hash_parent, next_level, levels_loop, compute_root_hash}

pub data Tree : Type 0 where
  leaf : Bytes → Tree
  node : Tree → Tree → Tree

-- The leaves from left to right.
abbrev pub leaves_of : Tree → List Bytes
leaves_of (leaf d) = d ∷ []
leaves_of (node l r) = leaves_of l ++ leaves_of r

abbrev pub flatten : List Tree → List Bytes
flatten [] = []
flatten (t ∷ ts) = leaves_of t ++ flatten ts

pair_up : List Tree → List Tree
pair_up [] = []
pair_up (a ∷ []) = a ∷ []
pair_up (a ∷ b ∷ ts) = node a b ∷ pair_up ts

flatten-pair_up : (ts : List Tree) → flatten (pair_up ts) ≡ flatten ts
unfolding pair_up
flatten-pair_up [] = refl
flatten-pair_up (a ∷ []) = refl
flatten-pair_up (a ∷ b ∷ ts) =
    append_assoc (leaves_of a) (leaves_of b) (flatten (pair_up ts))
    ∙ ap (λ (xs : List Bytes). leaves_of a ++ (leaves_of b ++ xs)) (flatten-pair_up ts)

pair_up-shorter :
    (a b : Tree) (ts : List Tree) → length (pair_up (a ∷ b ∷ ts)) < length (a ∷ b ∷ ts)
unfolding pair_up
pair_up-shorter a b [] = omega arith
pair_up-shorter a b (c ∷ []) = omega arith
pair_up-shorter a b (c ∷ d ∷ ts) = omega (arith, pair_up-shorter c d ts)

flatten-map_leaf : (ds : List Bytes) → flatten (map leaf ds) ≡ ds
flatten-map_leaf [] = refl
flatten-map_leaf (d ∷ ds) = ap (◌∷◌ d) (flatten-map_leaf ds)

length-map_leaf : (ds : List Bytes) → length (map leaf ds) ≡ length ds
length-map_leaf [] = refl
length-map_leaf (d ∷ ds) = ap suc (length-map_leaf ds)

module _ (sum256 : Bytes → Bytes) where
  unfoldable pub hash_tree : Tree → Bytes
  hash_tree (leaf d) = hash_leaf sum256 d
  hash_tree (node l r) = hash_parent sum256 (hash_tree l) (hash_tree r)

  next_level-hash :
      (ts : List Tree) → next_level sum256 (map hash_tree ts) ≡ map hash_tree (pair_up ts)
  unfolding next_level pair_up hash_tree
  next_level-hash [] = refl
  next_level-hash (a ∷ []) = refl
  next_level-hash (a ∷ b ∷ ts) =
      ap (◌∷◌ (hash_parent sum256 (hash_tree a) (hash_tree b))) (next_level-hash ts)

  map_leaf-hash : (ds : List Bytes) → map (hash_leaf sum256) ds ≡ map hash_tree (map leaf ds)
  unfolding hash_tree
  map_leaf-hash [] = refl
  map_leaf-hash (d ∷ ds) = ap (◌∷◌ (hash_leaf sum256 d)) (map_leaf-hash ds)

  -- The loop ends with the hash of one tree over all the leaves.
  levels-tree :
      (fuel : ℕ) (t : Tree) (ts : List Tree)
      → length (t ∷ ts) ≤ suc fuel
      → (r : Tree) × (levels_loop sum256 fuel (map hash_tree (t ∷ ts)) ≡ ok (hash_tree r))
        × (leaves_of r ≡ flatten (t ∷ ts))
  unfolding levels_loop pair_up
  levels-tree fuel t [] h = (t, refl, sym (append-nil (leaves_of t)))
  levels-tree zero t (u ∷ ts) h = absurd (omega arith)
  levels-tree (suc fuel) t (u ∷ ts) h =
      let (r, e, same) =
        levels-tree fuel (node t u) (pair_up ts) (omega (arith, pair_up-shorter t u ts)) in
      (
        r,
        ap (levels_loop sum256 fuel) (next_level-hash (t ∷ u ∷ ts)) ∙ e,
        same ∙ flatten-pair_up (t ∷ u ∷ ts),
      )

  -- The loop over the levels ends for every feed that is not empty, with the hash of a binary tree
  -- whose leaves are the blocks in their order.
  pub compute_root_hash-tree :
      (ds : List Bytes)
      → ds ≢ []
      → (t : Tree) × (compute_root_hash sum256 ds ≡ ok (hash_tree t)) × (leaves_of t ≡ ds)
  compute_root_hash-tree [] h = absurd (h refl)
  compute_root_hash-tree (d ∷ ds) h =
      let (t, e, same) =
        levels-tree (length (d ∷ ds)) (leaf d) (map leaf ds) (omega (arith, length-map_leaf ds)) in
      (
        t,
        unfold compute_root_hash in
            (ap (levels_loop sum256 (length (d ∷ ds))) (map_leaf-hash (d ∷ ds)) ∙ e),
        same ∙ flatten-map_leaf (d ∷ ds),
      )
