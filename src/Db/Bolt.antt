-- ===== src/Db/Bolt.antt =====
-- pkg/db/bbolt.go: the repositories over a bbolt database, which is a parameter.
-- The operations of a transaction are functions on the database; a bucket is the list of the names that
-- lead to it. An Update that returns an error leaves the database as it was. Opening and closing are left
-- out, but for the buckets that opening creates.
pub mod Blocks
pub mod Swarms
use keet_agent.Prelude.{
  ℕ, Bool, true, false, List, [], ◌∷◌, ◌++◌, Option, none, some, bytes_eq, contains, if◌then◌else◌,
  ◌≡◌, ◌≢◌,
}
use keet_agent.Prelude.Result.{Result, ok, err, panic, ◌>>=◌}
use keet_agent.Bytes.{Bytes, put_uint}
use keet_agent.Db.Block.{BlockError, decode_block, encode_block}
use keet_agent.Db.Repository.{
  DbError, bucket_not_found, feed_not_found, block_not_found, undecodable, failed, SwarmRepository,
  BlockRepository,
}

-- go.etcd.io/bbolt: `create_bucket` is CreateBucketIfNotExists in a bucket, `keys` what ForEach visits.
pub record Bbolt (D : Type 0) : Type 0 where
  pub has_bucket : D → List Bytes → Bool
  pub create_bucket : D → List Bytes → Bytes → Option D
  pub get : D → List Bytes → Bytes → Option Bytes
  pub put : D → List Bytes → Bytes → Bytes → Option D
  pub delete : D → List Bytes → Bytes → Option D
  pub keys : D → List Bytes → List Bytes

-- "swarms" and "blocks"
abbrev pub swarms_bucket : Bytes
swarms_bucket = 115 ∷ 119 ∷ 97 ∷ 114 ∷ 109 ∷ 115 ∷ []

abbrev pub blocks_bucket : Bytes
blocks_bucket = 98 ∷ 108 ∷ 111 ∷ 99 ∷ 107 ∷ 115 ∷ []

abbrev pub or_failed : {D : Type 0} → Option D → Result DbError D
or_failed none = err failed
or_failed (some d) = ok d

pub or_failed-eq-ok : {D : Type 0} (o : Option D) {d : D} → or_failed o ≡ ok d → o ≡ some d
or_failed-eq-ok none e = cc
or_failed-eq-ok (some x) e = cc

module _ {D : Type 0} (b : Bbolt D) where
  -- The Update of NewBoltDB.
  unfoldable pub initialize : D → Result DbError D
  initialize d = do
    with_swarms ← or_failed (b.create_bucket d [] swarms_bucket)
    or_failed (b.create_bucket with_swarms [] blocks_bucket)

  unfoldable pub register_swarm : D → Bytes → Bytes → Result DbError D
  register_swarm d topic_key topic_name =
      if b.has_bucket d (swarms_bucket ∷ [])
      then or_failed (b.put d (swarms_bucket ∷ []) topic_key topic_name)
      else err bucket_not_found

  unfoldable pub unregister_swarm : D → Bytes → Result DbError D
  unregister_swarm d topic_key =
      if b.has_bucket d (swarms_bucket ∷ [])
      then or_failed (b.delete d (swarms_bucket ∷ []) topic_key)
      else err bucket_not_found

  unfoldable pub get_active_swarms : D → Result DbError (List Bytes)
  get_active_swarms d =
      if b.has_bucket d (swarms_bucket ∷ [])
      then ok (b.keys d (swarms_bucket ∷ []))
      else err bucket_not_found

  unfoldable pub put_block : D → Bytes → ℕ → Bytes → Bytes → Result DbError D
  put_block d feed_key index value signature =
      if b.has_bucket d (blocks_bucket ∷ [])
      then (or_failed (b.create_bucket d (blocks_bucket ∷ []) feed_key) >>= λ with_feed. or_failed (
          b.put with_feed (blocks_bucket ∷ feed_key ∷ []) (put_uint 8 index)
            (encode_block value signature)))
      else err bucket_not_found

  abbrev pub decoded : Result BlockError (Bytes × Bytes) → Result DbError (Bytes × Bytes)
  decoded (ok block) = ok block
  decoded (err e) = err undecodable
  decoded panic = panic

  abbrev pub stored : Option Bytes → Result DbError (Bytes × Bytes)
  stored none = err block_not_found
  stored (some encoded) = decoded (decode_block encoded)

  unfoldable pub get_block : D → Bytes → ℕ → Result DbError (Bytes × Bytes)
  get_block d feed_key index =
      if b.has_bucket d (blocks_bucket ∷ [])
      then (if b.has_bucket d (blocks_bucket ∷ feed_key ∷ [])
          then stored (b.get d (blocks_bucket ∷ feed_key ∷ []) (put_uint 8 index))
          else err feed_not_found)
      else err bucket_not_found

  abbrev pub swarm_repository : SwarmRepository D
  swarm_repository = record {
    register_swarm = register_swarm;
    unregister_swarm = unregister_swarm;
    get_active_swarms = get_active_swarms;
  }

  abbrev pub block_repository : BlockRepository D
  block_repository = record { put_block = put_block; get_block = get_block }

-- The documented behaviour of bbolt.
pub record IsBbolt {D : Type 0} (b : Bbolt D) : Type 0 where
  pub get-put :
      (d d' : D) (p : List Bytes) (k v j : Bytes)
      → b.put d p k v ≡ some d'
      → b.get d' p j ≡ (if bytes_eq j k then some v else b.get d p j)
  pub get-put_other :
      (d d' : D) (p q : List Bytes) (k v j : Bytes)
      → b.put d p k v ≡ some d'
      → q ≢ p
      → b.get d' q j ≡ b.get d q j
  pub has_bucket-put :
      (d d' : D) (p q : List Bytes) (k v : Bytes)
      → b.put d p k v ≡ some d'
      → b.has_bucket d' q ≡ b.has_bucket d q
  pub get-create_bucket :
      (d d' : D) (p q : List Bytes) (n j : Bytes)
      → b.create_bucket d p n ≡ some d'
      → b.get d' q j ≡ b.get d q j
  pub has_bucket-create_bucket :
      (d d' : D) (p : List Bytes) (n : Bytes)
      → b.create_bucket d p n ≡ some d'
      → b.has_bucket d' (p ++ (n ∷ [])) ≡ true
  pub has_bucket-create_other :
      (d d' : D) (p q : List Bytes) (n : Bytes)
      → b.create_bucket d p n ≡ some d'
      → q ≢ p ++ (n ∷ [])
      → b.has_bucket d' q ≡ b.has_bucket d q
  pub keys-put :
      (d d' : D) (p : List Bytes) (k v j : Bytes)
      → b.put d p k v ≡ some d'
      → contains (b.keys d' p) j ≡ (if bytes_eq j k then true else contains (b.keys d p) j)
  pub keys-delete :
      (d d' : D) (p : List Bytes) (k j : Bytes)
      → b.delete d p k ≡ some d'
      → contains (b.keys d' p) j ≡ (if bytes_eq j k then false else contains (b.keys d p) j)
  pub has_bucket-delete :
      (d d' : D) (p q : List Bytes) (k : Bytes)
      → b.delete d p k ≡ some d'
      → b.has_bucket d' q ≡ b.has_bucket d q
