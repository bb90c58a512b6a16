-- ===== src/Hypercore/Merkle.antt =====
-- pkg/hypercore/merkle.go: the root hash of a feed. blake2b.Sum256 is not the repository's: it is the
-- parameter `sum256`.
pub mod Tree
pub mod Binding
use keet_agent.Prelude.{
  ℕ, zero, suc, Bool, true, false, List, [], ◌∷◌, ◌++◌, map, length, ltb, if◌then◌else◌,
}
use keet_agent.Prelude.Result.{Result, ok, err, panic}
use keet_agent.Bytes.{Bytes}

pub data MerkleError : Type 0 where
  -- No error of the source: the loop over the levels ran out of rounds, which never happens (Tree).
  empty_leaves out_of_rounds : MerkleError

module _ (sum256 : Bytes → Bytes) where
  pub hash_leaf : Bytes → Bytes
  hash_leaf d = sum256 (0x00 ∷ d)

  unfoldable pub hash_parent : Bytes → Bytes → Bytes
  hash_parent left right = sum256 (0x01 ∷ (left ++ right))

  -- for i := 0; i < len(nodes); i += 2; an odd last node is promoted.
  pub next_level : List Bytes → List Bytes
  next_level [] = []
  next_level (a ∷ []) = a ∷ []
  next_level (a ∷ b ∷ nodes) = hash_parent a b ∷ next_level nodes

  -- for len(nodes) > 1
  pub levels_loop : ℕ → List Bytes → Result MerkleError Bytes
  unfolding next_level
  levels_loop fuel [] = panic
  levels_loop fuel (a ∷ []) = ok a
  levels_loop zero (a ∷ b ∷ nodes) = err out_of_rounds
  levels_loop (suc fuel) (a ∷ b ∷ nodes) = levels_loop fuel (next_level (a ∷ b ∷ nodes))

  -- A level is shorter than the one below it, so the number of leaves bounds the number of levels.
  unfoldable pub compute_root_hash : List Bytes → Result MerkleError Bytes
  unfolding levels_loop hash_leaf
  compute_root_hash [] = err empty_leaves
  compute_root_hash (l ∷ leaves) = levels_loop (length (l ∷ leaves)) (map hash_leaf (l ∷ leaves))
