-- ===== src/Examples/Sync.antt =====
-- Examples for the replication of pkg/hypercore.
use keet_agent.Prelude.{
  ℕ, All, true, List, [], ◌∷◌, take, none, some, bytes_eq, bytes_eq→eq, bytes_eq_refl, ◌≡◌, ◌⊎◌,
  refl, sym, ap, arith, length-take,
}
use keet_agent.Prelude.Result.{ok}
use keet_agent.Bytes.{Bytes}
use keet_agent.Hypercore.Wire.{encode_data}
use keet_agent.Hypercore.Wire.RoundTrip.{FitsLimit}
use keet_agent.Hypercore.Storage.{complete, get}
use keet_agent.Hypercore.Storage.Refinement.{holding, block_at}
use keet_agent.Hypercore.Merkle.{compute_root_hash}
use keet_agent.Hypercore.Merkle.Binding.{Collision}
use keet_agent.Hypercore.Sync.{
  Services, SyncSession, notify_have, wrap_value, Turn, handle_frame, read_loop,
}
use keet_agent.Hypercore.Sync.Authentic.{Extends, read_loop-authentic}
use keet_agent.Hypercore.Sync.Prefix.{SignsOnly, read_loop-prefix}
use keet_agent.Hypercore.Sync.Replication.{IsPair, turns, FitsBlock, replicated}
use keet_agent.Examples.Hypercore.{blocks, first_bytes, length-first_bytes}

-- A signature is the root itself.
abbrev open_services : Services
open_services = record {
  sum256 = first_bytes;
  verify = λ root g. bytes_eq (take 32 root) g;
  sign = λ root. take 32 root;
  compress = λ v. some v;
  decompress = λ z. some z;
  get_block = none;
}

abbrev session : List Bytes → SyncSession
session bs = record {
  storage = holding bs;
  feed_key = 7 ∷ [];
  deflate_active = true;
  appended = [];
}

abbrev first_block : Bytes
first_block = 10 ∷ 11 ∷ []

abbrev first_root : Bytes
first_root = first_bytes (0 ∷ first_block)

-- A block with its signature, and one that is not signed.
abbrev arriving : List Turn
arriving = turns (
    encode_data (record { index = 0; value = 0 ∷ first_block; signature = first_root })
    ∷ encode_data (record { index = 1; value = 0 ∷ 12 ∷ []; signature = [] })
    ∷ [])

read_loop-authentic_example :
    (cs : List Bytes) × Extends open_services (session []).deflate_active arriving [] cs
    × ((i : ℕ)
        → get (read_loop open_services (session []) arriving).session.storage i ≡ block_at cs i)
read_loop-authentic_example = read_loop-authentic open_services [] (session []) arriving refl

-- The key signed the root of the first block only.
abbrev one_root : Services
one_root = record open_services { verify = λ root g. bytes_eq root first_root }

one_root-SignsOnly : SignsOnly one_root blocks
unfolding compute_root_hash
one_root-SignsOnly root g h = (1, ap ok (sym (bytes_eq→eq root first_root h)))

read_loop-prefix_example :
    ((k : ℕ) × ((i : ℕ)
        → get (read_loop one_root (session []) arriving).session.storage i
          ≡ block_at (take k blocks) i))
    ⊎ Collision first_bytes
read_loop-prefix_example =
    read_loop-prefix one_root length-first_bytes blocks (session []) arriving one_root-SignsOnly
      refl

open_services-IsPair : IsPair open_services open_services
open_services-IsPair = record {
  same_sum = refl;
  signatures = λ root. bytes_eq_refl (take 32 root);
  compresses = λ v. (v, refl, refl);
  no_repository = refl;
}

short_signature : (root : Bytes) → FitsLimit (take 32 root)
short_signature root = omega (arith, length-take 32 root)

rest_fits : All (FitsBlock open_services true) ((12 ∷ []) ∷ (13 ∷ 14 ∷ 15 ∷ []) ∷ [])
unfolding wrap_value
rest_fits = ((omega arith, short_signature), ((omega arith, short_signature), tt))

replicated_example :
    let asked =
      (handle_frame open_services
        (session (first_block ∷ []))
        (notify_have 3)
        complete
        complete).frames in
    let answers = (read_loop open_services (session blocks) (turns asked)).frames in
    let r = read_loop open_services (session (first_block ∷ [])) (turns answers) in
    (r.result ≡ ok tt) × (r.session.storage ≡ holding blocks)
replicated_example =
    replicated open_services open_services (session blocks) (session (first_block ∷ []))
      (first_block ∷ []) ((12 ∷ []) ∷ (13 ∷ 14 ∷ 15 ∷ []) ∷ []) open_services-IsPair refl refl refl
      (omega arith) rest_fits
