-- ===== src/Hypercore/Sync/Prefix.antt =====
-- The feed of a session (pkg/hypercore/sync.go) against the feed of the one who signs.
use keet_agent.Prelude.{ℕ, Bool, true, List, [], length, take, ◌≡◌, ◌⊎◌, inl, inr, refl, ap, ◌∙◌}
use keet_agent.Prelude.Result.{ok}
use keet_agent.Bytes.{Bytes}
use keet_agent.Hypercore.Storage.{get}
use keet_agent.Hypercore.Storage.Refinement.{holding, block_at}
use keet_agent.Hypercore.Merkle.{compute_root_hash}
use keet_agent.Hypercore.Merkle.Binding.{Collision, root_binding}
use keet_agent.Hypercore.Sync.{Services, SyncSession, Turn, read_loop}
use keet_agent.Hypercore.Sync.Authentic.{Extends, same, grown, read_loop-authentic}

-- The holder of the key signs roots of beginnings of one feed only.
abbrev pub SignsOnly : Services → List Bytes → Type 0
SignsOnly sv feed =
    (root g : Bytes)
    → sv.verify root g ≡ true
    → (k : ℕ) × (compute_root_hash sv.sum256 (take k feed) ≡ ok root)

module _ (sv : Services) (sum_length : (x : Bytes) → length (sv.sum256 x) ≡ 32)
    (feed : List Bytes) where
  Extends-prefix :
      {a : Bool} {ts : List Turn} (cs : List Bytes)
      → SignsOnly sv feed
      → Extends sv a ts [] cs
      → ((k : ℕ) × (cs ≡ take k feed)) ⊎ Collision sv.sum256
  Extends-prefix cs honest same = inl (0, refl)
  Extends-prefix cs honest (grown bs _ v g root x e came hashed signed) =
      let (k, hashed') = honest root g signed in
      elim (root_binding sv.sum256 sum_length cs (take k feed) root hashed hashed') [
        | inl p ↦ inl (k, p)
        | inr c ↦ inr c
      ]

  -- A session that starts with no blocks, and whose peer's key signs only roots of beginnings of one feed,
  -- holds a beginning of that feed, whatever frames it reads and wherever its writes fail, or two inputs
  -- of the hash function collide.
  pub read_loop-prefix :
      (s : SyncSession) (ts : List Turn)
      → SignsOnly sv feed
      → s.storage ≡ holding []
      → ((k : ℕ) × ((i : ℕ) → get (read_loop sv s ts).session.storage i ≡ block_at (take k feed) i))
        ⊎ Collision sv.sum256
  read_loop-prefix s ts honest h =
      let (cs, x, reads) = read_loop-authentic sv [] s ts h in
      elim (Extends-prefix cs honest x) [
        | inl (k, p) ↦ inl (k, λ i. reads i ∙ ap (λ (bs : List Bytes). block_at bs i) p)
        | inr c ↦ inr c
      ]
