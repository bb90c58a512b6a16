-- ===== src/Db/Bolt/Blocks.antt =====
-- The block repository of pkg/db/bbolt.go: a map from feeds and indices.
use keet_agent.Prelude.{
  ℕ, ◌^◌, ◌<◌, true, List, [], ◌∷◌, length, some, bytes_eq, bytes_eq→eq, bytes_eq_refl, ◌≡◌, ◌≢◌,
  sym, ap, ◌∙◌, arith, Bool-cases, inl, inr,
}
use keet_agent.Prelude.Result.{ok, >>=-eq-ok}
use keet_agent.Bytes.{Bytes, put_uint, get_uint}
use keet_agent.Bytes.Laws.{get_uint-put_uint}
use keet_agent.Db.Block.{encode_block}
use keet_agent.Db.Block.Codec.{decode_block-encode_block}
use keet_agent.Db.Bolt.{
  Bbolt, IsBbolt, blocks_bucket, or_failed, or_failed-eq-ok, put_block, get_block,
}

put_uint_injective :
    (i j : ℕ) → i < 2 ^ 64 → j < 2 ^ 64 → bytes_eq (put_uint 8 j) (put_uint 8 i) ≡ true → j ≡ i
put_uint_injective i j hi hj e =
    sym (get_uint-put_uint 8 j hj)
    ∙ (ap (get_uint 0) (bytes_eq→eq (put_uint 8 j) (put_uint 8 i) e) ∙ get_uint-put_uint 8 i hi)

second : List Bytes → Bytes
second (a ∷ b ∷ r) = b
second r = []

-- The buckets of two feeds differ.
feeds_apart : (f g : Bytes) → g ≢ f → (blocks_bucket ∷ g ∷ []) ≢ (blocks_bucket ∷ f ∷ [])
unfolding second
feeds_apart f g apart e = apart (ap second e)

module _ {D : Type 0} (b : Bbolt D) (laws : IsBbolt b) where
  -- The transaction of a successful PutBlock, in parts.
  record Put (d d' : D) (feed : Bytes) (index : ℕ) (encoded : Bytes) : Type 0 where
    with_feed : D
    has_blocks : b.has_bucket d (blocks_bucket ∷ []) ≡ true
    created : b.create_bucket d (blocks_bucket ∷ []) feed ≡ some with_feed
    written : b.put with_feed (blocks_bucket ∷ feed ∷ []) (put_uint 8 index) encoded ≡ some d'

  put_block-Put :
      (d d' : D) (feed : Bytes) (index : ℕ) (value signature : Bytes)
      → put_block b d feed index value signature ≡ ok d'
      → Put d d' feed index (encode_block value signature)
  unfolding put_block
  put_block-Put d d' feed index value signature e =
      elim (Bool-cases (b.has_bucket d (blocks_bucket ∷ []))) [
        | inl there ↦
            let (w, made, put) =
              >>=-eq-ok (or_failed (b.create_bucket d (blocks_bucket ∷ []) feed)) _
                (rw there at e) in
            record {
              with_feed = w;
              has_blocks = there;
              created = or_failed-eq-ok _ made;
              written = or_failed-eq-ok _ put;
            }
        | inr missing ↦ absurd (ground arith)
      ]

  module _ (d d' : D) (feed : Bytes) (index : ℕ) (value signature : Bytes) (hi : index < 2 ^ 64)
      (hv : length value < 2 ^ 32) (hs : length signature < 2 ^ 32)
      (e : put_block b d feed index value signature ≡ ok d') where
    parts : Put d d' feed index (encode_block value signature)
    parts = put_block-Put d d' feed index value signature e

    blocks_there : b.has_bucket d' (blocks_bucket ∷ []) ≡ true
    blocks_there =
        let p = parts in
        laws.has_bucket-put p.with_feed d' (blocks_bucket ∷ feed ∷ []) (blocks_bucket ∷ [])
          (put_uint 8 index) (encode_block value signature) p.written
        ∙ (laws.has_bucket-create_other d p.with_feed (blocks_bucket ∷ []) (blocks_bucket ∷ []) feed
              p.created (λ same. cc)
            ∙ p.has_blocks)

    feed_there : b.has_bucket d' (blocks_bucket ∷ feed ∷ []) ≡ true
    feed_there =
        let p = parts in
        laws.has_bucket-put p.with_feed d' (blocks_bucket ∷ feed ∷ []) (blocks_bucket ∷ feed ∷ [])
          (put_uint 8 index) (encode_block value signature) p.written
        ∙ laws.has_bucket-create_bucket d p.with_feed (blocks_bucket ∷ []) feed p.created

    get_block-same : get_block b d' feed index ≡ ok (value, signature)
    unfolding get_block
    get_block-same =
        let p = parts in
        rw (
          blocks_there,
          feed_there,
          laws.get-put p.with_feed d' (blocks_bucket ∷ feed ∷ []) (put_uint 8 index)
              (encode_block value signature) (put_uint 8 index) p.written,
          bytes_eq_refl (put_uint 8 index),
          decode_block-encode_block value signature hv hs,
        )

    get_block-index :
        (j : ℕ)
        → j < 2 ^ 64
        → j ≢ index
        → b.has_bucket d (blocks_bucket ∷ feed ∷ []) ≡ true
        → get_block b d' feed j ≡ get_block b d feed j
    unfolding get_block
    get_block-index j hj apart there =
        let p = parts in
        let q = blocks_bucket ∷ feed ∷ [] in
        elim (Bool-cases (bytes_eq (put_uint 8 j) (put_uint 8 index))) [
          | inl same ↦ absurd (apart (put_uint_injective index j hi hj same))
          | inr other ↦ rw (
            blocks_there,
            feed_there,
            there,
            p.has_blocks,
            laws.get-put p.with_feed d' q (put_uint 8 index) (encode_block value signature)
                (put_uint 8 j) p.written,
            other,
            laws.get-create_bucket d p.with_feed (blocks_bucket ∷ []) q feed (put_uint 8 j)
                p.created,
          )
        ]

    get_block-feed :
        (other : Bytes) (j : ℕ) → other ≢ feed → get_block b d' other j ≡ get_block b d other j
    unfolding get_block
    get_block-feed other j apart =
        let p = parts in
        let q = blocks_bucket ∷ other ∷ [] in
        let put = blocks_bucket ∷ feed ∷ [] in
        rw (
          blocks_there,
          p.has_blocks,
          laws.has_bucket-put p.with_feed d' put q (put_uint 8 index) (encode_block value signature)
              p.written,
          laws.has_bucket-create_other d p.with_feed (blocks_bucket ∷ []) q feed p.created
              (feeds_apart feed other apart),
          laws.get-put_other p.with_feed d' put q (put_uint 8 index) (encode_block value signature)
              (put_uint 8 j) p.written (feeds_apart feed other apart),
          laws.get-create_bucket d p.with_feed (blocks_bucket ∷ []) q feed (put_uint 8 j) p.created,
        )

  -- What GetBlock reads behind a PutBlock, which is what a map from feeds and indices gives.
  pub record Stored (d d' : D) (feed : Bytes) (index : ℕ) (value signature : Bytes) : Type 0 where
    pub same : get_block b d' feed index ≡ ok (value, signature)
    pub others :
        (j : ℕ)
        → j < 2 ^ 64
        → j ≢ index
        → b.has_bucket d (blocks_bucket ∷ feed ∷ []) ≡ true
        → get_block b d' feed j ≡ get_block b d feed j
    pub other_feeds :
        (other : Bytes) (j : ℕ) → other ≢ feed → get_block b d' other j ≡ get_block b d other j

  -- If bbolt does what it documents: after a PutBlock that succeeds, of an index below 2^64 and of a value
  -- and a signature shorter than 2^32 bytes, GetBlock returns them for that feed and index, what it
  -- returned before for the other indices of a feed that had a bucket, and what it returned before for the
  -- other feeds.
  pub get_block-put_block :
      (d d' : D) (feed : Bytes) (index : ℕ) (value signature : Bytes)
      → index < 2 ^ 64
      → length value < 2 ^ 32
      → length signature < 2 ^ 32
      → put_block b d feed index value signature ≡ ok d'
      → Stored d d' feed index value signature
  get_block-put_block d d' feed index value signature hi hv hs e = record {
    same = get_block-same d d' feed index value signature hi hv hs e;
    others = get_block-index d d' feed index value signature hi hv hs e;
    other_feeds = get_block-feed d d' feed index value signature hi hv hs e;
  }
