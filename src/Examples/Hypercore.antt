-- ===== src/Examples/Hypercore.antt =====
-- Examples for pkg/hypercore.
use keet_agent.Prelude.{
  List, [], ◌∷◌, ◌++◌, length, take, replicate, ◌≡◌, ◌⊎◌, refl, arith, length-take, length-append,
}
use keet_agent.Prelude.Result.{ok}
use keet_agent.Bytes.{Bytes}
use keet_agent.Hypercore.Wire.{Handshake}
use keet_agent.Hypercore.Storage.{get, len, new_storage}
use keet_agent.Hypercore.Storage.Refinement.{append_all, get-reopened}
use keet_agent.Hypercore.Merkle.{compute_root_hash, hash_parent}
use keet_agent.Hypercore.Merkle.Binding.{Collision, root_binding}

abbrev pub blocks : List Bytes
blocks = (10 ∷ 11 ∷ []) ∷ (12 ∷ []) ∷ (13 ∷ 14 ∷ 15 ∷ []) ∷ []

-- A stand-in for the hash function: the first 32 bytes, padded.
abbrev pub first_bytes : Bytes → Bytes
first_bytes x = take 32 (x ++ replicate 32 0)

pub length-first_bytes : (x : Bytes) → length (first_bytes x) ≡ 32
length-first_bytes x =
    omega (arith, length-take 32 (x ++ replicate 32 0), length-append x (replicate 32 0))

abbrev root : Bytes
root = 1 ∷ 1 ∷ 0 ∷ 10 ∷ 11 ∷ replicate 27 0

root_of_blocks : compute_root_hash first_bytes blocks ≡ ok root
unfolding compute_root_hash hash_parent
root_of_blocks = refl

abbrev greeting : Handshake
greeting = record { protocol = 104 ∷ []; key = 1 ∷ 2 ∷ []; extensions = (120 ∷ []) ∷ [] ∷ [] }

get-reopened_example :
    let s = append_all (new_storage [] []) blocks in
    (get (new_storage s.data_log s.index_log) 1 ≡ ok (12 ∷ []))
    × (len (new_storage s.data_log s.index_log) ≡ 3)
get-reopened_example = get-reopened blocks 1 (omega arith)

root_binding_example : (blocks ≡ blocks) ⊎ Collision first_bytes
root_binding_example =
    root_binding first_bytes length-first_bytes blocks blocks root root_of_blocks root_of_blocks
