-- ===== src/Hypercore/Sync/Authentic.antt =====
-- Which blocks a session (pkg/hypercore/sync.go) adds to its storage, whatever the peer sends.
use keet_agent.Prelude.{
  ℕ, Bool, true, ==_iff, List, [], ◌∷◌, ◌++◌, length, take, Option, none, some, ltb, ◌==◌, ◌≡◌,
  refl, sym, ap, subst, ◌∙◌, arith, Bool-cases, inl, inr,
}
use keet_agent.Prelude.Result.{Result, ok, err, panic, >>=-eq-ok}
use keet_agent.Bytes.{Bytes}
use keet_agent.Hypercore.Wire.{
  WireError, Have, Want, Request, Data, decode_have, decode_want, decode_request, decode_data,
}
use keet_agent.Hypercore.Storage.{
  Storage, WriteOutcome, write_data_failed, write_index_failed, complete, short, append, get, len,
}
use keet_agent.Hypercore.Storage.Refinement.{
  holding, block_at, append-holding, get-holding, append-short_data, append-short_index,
}
use keet_agent.Hypercore.Merkle.{compute_root_hash}
use keet_agent.Hypercore.Sync.{
  Services, SyncSession, Appended, SyncError, decoding, write_failed, root_hash, append_failed,
  map_err, check_block, Reply, stay, fail, after_append, append_checked, receive_value, handle_have,
  handle_want, handle_request, handle_data, handle_frame, unwrap_value, Turn, cut_off, go_on,
  take_turn, read_loop,
}
use keet_agent.Hypercore.Sync.Leaves.{len-holding, read_leaves-holding}

map_err-eq_ok :
    {A : Type 0} {E : Type 0} (f : E → SyncError) (r : Result E A) {a : A}
    → map_err f r ≡ ok a
    → r ≡ ok a
map_err-eq_ok f (ok a) h = cc
map_err-eq_ok f (err e) h = cc
map_err-eq_ok f panic h = cc

module _ (sv : Services) where
  -- A frame with a Data message of the index, the signature and, decompressed or not, the value.
  pub record Carries (deflate_active : Bool) (frame : Bytes) (index : ℕ) (value signature : Bytes)
      : Type 0 where
    pub message : Data
    pub decoded : decode_data frame ≡ ok message
    pub of_index : message.index ≡ index
    pub of_value : unwrap_value sv deflate_active message.value ≡ ok value
    pub of_signature : message.signature ≡ signature

  -- One of the frames that are read.
  pub data Arrives (deflate_active : Bool) (index : ℕ) (value signature : Bytes)
      : List Turn → Type 0 where
    now :
        (t : Turn) (ts : List Turn)
        → Carries deflate_active t.frame index value signature
        → Arrives deflate_active index value signature (t ∷ ts)
    later :
        (t : Turn) (ts : List Turn)
        → Arrives deflate_active index value signature ts
        → Arrives deflate_active index value signature (t ∷ ts)

  -- A list of blocks that grew from another: each new block came in a frame, under its index and with a
  -- signature of the root behind it.
  pub data Extends (deflate_active : Bool) (ts : List Turn) (bs : List Bytes)
      : List Bytes → Type 0 where
    same : Extends deflate_active ts bs bs
    grown :
        (cs ds : List Bytes) (v g root : Bytes)
        → Extends deflate_active ts bs cs
        → ds ≡ cs ++ (v ∷ [])
        → Arrives deflate_active (length cs) v g ts
        → compute_root_hash sv.sum256 ds ≡ ok root
        → sv.verify root g ≡ true
        → Extends deflate_active ts bs ds

  Extends-trans :
      {a : Bool} {ts : List Turn} {bs cs ds : List Bytes}
      → Extends a ts bs cs
      → Extends a ts cs ds
      → Extends a ts bs ds
  Extends-trans x same = x
  Extends-trans x (grown cs ds v g root b e f h w) =
      grown cs ds v g root (Extends-trans x b) e f h w

  Extends-later :
      {a : Bool} {t : Turn} {ts : List Turn} {bs cs : List Bytes}
      → Extends a ts bs cs
      → Extends a (t ∷ ts) bs cs
  Extends-later same = same
  Extends-later {t} {ts} (grown cs ds v g root b e f h w) =
      grown cs ds v g root (Extends-later b) e (later t ts f) h w

  Extends-now :
      {a : Bool} {t : Turn} (ts : List Turn) {bs cs : List Bytes}
      → Extends a (t ∷ []) bs cs
      → Extends a (t ∷ ts) bs cs
  Extends-now ts same = same
  Extends-now ts (grown cs ds v g root b e (now t _ f) h w) =
      grown cs ds v g root (Extends-now ts b) e (now t ts f) h w
  Extends-now ts (grown cs ds v g root b e (later _ _ never) h w) = elim never [ ]

  -- After a reply: the session has the same flag and the storage holds the blocks, or the loop ends and the
  -- blocks are what Get returns.
  data Stands (a : Bool) (ts : List Turn) (bs : List Bytes) (r : Reply) : Type 0 where
    going :
        (cs : List Bytes)
        → Extends a ts bs cs
        → r.session.storage ≡ holding cs
        → r.session.deflate_active ≡ a
        → Stands a ts bs r
    ended :
        (cs : List Bytes) (e : SyncError)
        → Extends a ts bs cs
        → r.result ≡ err e
        → ((i : ℕ) → get r.session.storage i ≡ block_at cs i)
        → Stands a ts bs r

  check_block-eq_ok :
      (bs : List Bytes) (v g : Bytes)
      → check_block sv (holding bs) v g ≡ ok tt
      → (root : Bytes) × (compute_root_hash sv.sum256 (bs ++ (v ∷ [])) ≡ ok root)
        × (sv.verify root g ≡ true)
  unfolding check_block
  check_block-eq_ok bs v g e =
      let e' = rw (len-holding bs, read_leaves-holding bs) at e in
      let (root, h, k) =
        >>=-eq-ok (map_err root_hash (compute_root_hash sv.sum256 (bs ++ (v ∷ [])))) _ e' in
      (root, map_err-eq_ok root_hash (compute_root_hash sv.sum256 (bs ++ (v ∷ []))) h, ground arith)

  module _ (t : Turn) where
    abbrev Step : SyncSession → List Bytes → Reply → Type 0
    Step s bs r = Stands s.deflate_active (t ∷ []) bs r

    stays :
        (bs : List Bytes) (s : SyncSession) (fs : List Bytes)
        → s.storage ≡ holding bs
        → Step s bs (stay s fs)
    stays bs s fs e = going bs same e refl

    fails :
        (bs : List Bytes) (s : SyncSession) (e : SyncError)
        → s.storage ≡ holding bs
        → Step s bs (fail s (err e))
    fails bs s e h = going bs same h refl

    fails_panic :
        (bs : List Bytes) (s : SyncSession) → s.storage ≡ holding bs → Step s bs (fail s panic)
    fails_panic bs s h = going bs same h refl

    after_append-Stands :
        (bs : List Bytes) (s : SyncSession) (a : Appended) (dw iw : WriteOutcome)
        → Extends s.deflate_active (t ∷ []) bs (bs ++ (a.value ∷ []))
        → Step s bs (after_append s a (append (holding bs) a.value dw iw))
    after_append-Stands bs s a complete complete x =
        rw (append-holding bs a.value) (going (bs ++ (a.value ∷ [])) x refl refl)
    after_append-Stands bs s a complete (short n) x =
        let (u, shown, kept) = append-short_index bs a.value n in
        rw shown (ended bs (append_failed write_index_failed) same refl kept)
    after_append-Stands bs s a (short n) w x =
        let (u, shown, kept) = append-short_data bs a.value n w in
        rw shown (ended bs (append_failed write_data_failed) same refl kept)

    append_checked-Stands :
        (bs : List Bytes) (s : SyncSession) (a : Appended) (r : Result SyncError (Unit {0}))
        (dw iw : WriteOutcome)
        → s.storage ≡ holding bs
        → Arrives s.deflate_active (length bs) a.value a.signature (t ∷ [])
        → check_block sv s.storage a.value a.signature ≡ r
        → Step s bs (append_checked s a r dw iw)
    append_checked-Stands bs s a (err e) dw iw h came c = fails bs s e h
    append_checked-Stands bs s a panic dw iw h came c = fails_panic bs s h
    append_checked-Stands bs s a (ok u) dw iw h came c =
        let (root, hashed, signed) =
          check_block-eq_ok bs a.value a.signature
            (ap (λ (t : Storage). check_block sv t a.value a.signature) (sym h) ∙ c) in
        let x : Extends s.deflate_active (t ∷ []) bs (bs ++ (a.value ∷ [])) =
          grown bs (bs ++ (a.value ∷ [])) a.value a.signature root same refl came hashed signed in
        subst (λ (u : Storage). Step s bs (after_append s a (append u a.value dw iw))) (sym h)
          (after_append-Stands bs s a dw iw x)

    receive_value-Stands :
        (bs : List Bytes) (s : SyncSession) (i : ℕ) (g : Bytes) (v : Result SyncError Bytes)
        (dw iw : WriteOutcome)
        → s.storage ≡ holding bs
        → ((value : Bytes) → v ≡ ok value → Carries s.deflate_active t.frame i value g)
        → Step s bs (receive_value sv s i g v dw iw)
    receive_value-Stands bs s i g (err e) dw iw h came = fails bs s e h
    receive_value-Stands bs s i g panic dw iw h came = fails_panic bs s h
    receive_value-Stands bs s i g (ok v) dw iw h came = elim (Bool-cases (i == len s.storage)) [
      | inl next ↦
          let at_end : i ≡ length bs =
            (==_iff i (len s.storage)).0 next ∙ (ap (λ (u : Storage). len u) h ∙ len-holding bs) in
          rw next (
            append_checked-Stands bs s (record { index = i; value = v; signature = g })
              (check_block sv s.storage v g) dw iw h
              (now t []
                (subst (λ (n : ℕ). Carries s.deflate_active t.frame n v g) at_end (came v refl)))
              refl)
      | inr other ↦ rw other (stays bs s [] h)
    ]

    handle_have-Stands :
        (bs : List Bytes) (s : SyncSession) (m : Result WireError Have)
        → s.storage ≡ holding bs
        → Step s bs (handle_have sv s m)
    handle_have-Stands bs s (ok m) h = stays bs s _ h
    handle_have-Stands bs s (err e) h = fails bs s (decoding e) h
    handle_have-Stands bs s panic h = fails_panic bs s h

    handle_want-Stands :
        (bs : List Bytes) (s : SyncSession) (m : Result WireError Want)
        → s.storage ≡ holding bs
        → Step s bs (handle_want sv s m)
    handle_want-Stands bs s (ok m) h = stays bs s _ h
    handle_want-Stands bs s (err e) h = fails bs s (decoding e) h
    handle_want-Stands bs s panic h = fails_panic bs s h

    handle_request-Stands :
        (bs : List Bytes) (s : SyncSession) (m : Result WireError Request)
        → s.storage ≡ holding bs
        → Step s bs (handle_request sv s m)
    handle_request-Stands bs s (ok m) h = stays bs s _ h
    handle_request-Stands bs s (err e) h = fails bs s (decoding e) h
    handle_request-Stands bs s panic h = fails_panic bs s h

    handle_data-Stands :
        (bs : List Bytes) (s : SyncSession) (m : Result WireError Data) (dw iw : WriteOutcome)
        → s.storage ≡ holding bs
        → decode_data t.frame ≡ m
        → Step s bs (handle_data sv s m dw iw)
    handle_data-Stands bs s (ok m) dw iw h d =
        receive_value-Stands bs s m.index m.signature (unwrap_value sv s.deflate_active m.value) dw
          iw h
          (λ value e. record {
            message = m;
            decoded = d;
            of_index = refl;
            of_value = e;
            of_signature = refl;
          })
    handle_data-Stands bs s (err e) dw iw h d = fails bs s (decoding e) h
    handle_data-Stands bs s panic dw iw h d = fails_panic bs s h

    handle_frame-Stands :
        (bs : List Bytes) (s : SyncSession) (b : Bytes) (dw iw : WriteOutcome)
        → s.storage ≡ holding bs
        → t.frame ≡ b
        → Step s bs (handle_frame sv s b dw iw)
    unfolding handle_frame
    handle_frame-Stands bs s [] dw iw h whole = stays bs s [] h
    handle_frame-Stands bs s (k ∷ b) dw iw h whole = elim (Bool-cases (k == 2)) [
      | inl e ↦ rw e (handle_have-Stands bs s (decode_have (k ∷ b)) h)
      | inr a ↦ elim (Bool-cases (k == 3)) [
        | inl e ↦ rw (a, e) (handle_want-Stands bs s (decode_want (k ∷ b)) h)
        | inr c ↦ elim (Bool-cases (k == 4)) [
          | inl e ↦ rw (a, c, e) (handle_request-Stands bs s (decode_request (k ∷ b)) h)
          | inr d ↦ elim (Bool-cases (k == 5)) [
            | inl e ↦
                rw (a, c, d, e)
                  (handle_data-Stands bs s (decode_data (k ∷ b)) dw iw h (ap decode_data whole))
            | inr e ↦ rw (a, c, d, e) (stays bs s [] h)
          ]
        ]
      ]
    ]

  cut_off-Stands :
      {a : Bool} {ts : List Turn} (bs : List Bytes) (k : Option ℕ) (r : Reply)
      → Stands a ts bs r
      → Stands a ts bs (cut_off k r)
  cut_off-Stands bs none r h = h
  cut_off-Stands {a} {ts} bs (some k) r h = elim (Bool-cases (ltb k (length r.frames))) [
    | inl cut ↦ rw cut (cut_short h)
    | inr whole ↦ rw whole h
  ]
    where
      cut_short :
          Stands a ts bs r
          → Stands a ts bs (record r { frames = take k r.frames; result = err write_failed })
      cut_short (going cs x e d) = going cs x e d
      cut_short (ended cs f x e g) = ended cs write_failed x refl g

  go_on-Stands :
      (a : Bool) (t : Turn) (ts : List Turn) (bs : List Bytes) (q : Result SyncError (Unit {0}))
      (r rest : Reply)
      → r.result ≡ q
      → Stands a (t ∷ []) bs r
      → ((cs : List Bytes)
          → r.session.storage ≡ holding cs
          → r.session.deflate_active ≡ a
          → Stands a ts cs rest)
      → Stands a (t ∷ ts) bs (go_on q r rest)
  go_on-Stands a t ts bs q r rest p h next = by_result q p h
    where
      alone : Stands a (t ∷ []) bs r → Stands a (t ∷ ts) bs r
      alone (going cs x e d) = going cs (Extends-now ts x) e d
      alone (ended cs f x e g) = ended cs f (Extends-now ts x) e g

      joined :
          (cs : List Bytes)
          → Extends a (t ∷ []) bs cs
          → Stands a ts cs rest
          → Stands a (t ∷ ts) bs (go_on (ok tt) r rest)
      joined cs x (going ds y e d) =
          going ds (Extends-trans (Extends-now ts x) (Extends-later y)) e d
      joined cs x (ended ds f y g k) =
          ended ds f (Extends-trans (Extends-now ts x) (Extends-later y)) g k

      by_result :
          (q : Result SyncError (Unit {0}))
          → r.result ≡ q
          → Stands a (t ∷ []) bs r
          → Stands a (t ∷ ts) bs (go_on q r rest)
      by_result (err e) p h = alone h
      by_result panic p h = alone h
      by_result (ok u) p (ended cs e x f g) = absurd (cc (p, f))
      by_result (ok u) p (going cs x e d) = joined cs x (next cs e d)

  read_loop-Stands :
      (a : Bool) (bs : List Bytes) (s : SyncSession) (ts : List Turn)
      → s.storage ≡ holding bs
      → s.deflate_active ≡ a
      → Stands a ts bs (read_loop sv s ts)
  unfolding read_loop take_turn
  read_loop-Stands a bs s [] h flag = going bs same h flag
  read_loop-Stands a bs s (t ∷ ts) h flag =
      let r = take_turn sv s t in
      let turn : Stands a (t ∷ []) bs r =
        subst (λ (b : Bool). Stands b (t ∷ []) bs r) flag
          (cut_off-Stands bs t.accepted (handle_frame sv s t.frame t.data_write t.index_write)
            (handle_frame-Stands t bs s t.frame t.data_write t.index_write h refl)) in
      go_on-Stands a t ts bs r.result r (read_loop sv r.session ts) refl turn
        (λ cs e d. read_loop-Stands a cs r.session ts e d)

  Stands-readable :
      {a : Bool} {ts : List Turn} (bs : List Bytes) (r : Reply)
      → Stands a ts bs r
      → (cs : List Bytes) × Extends a ts bs cs × ((i : ℕ) → get r.session.storage i ≡ block_at cs i)
  Stands-readable bs r (going cs x e d) =
      (cs, x, λ i. ap (λ (t : Storage). get t i) e ∙ get-holding cs i)
  Stands-readable bs r (ended cs e x f g) = (cs, x, g)

  -- Whatever frames a peer sends, wherever the connection and the writes to the storage fail: what Get
  -- returns afterwards are the blocks from before and behind them only blocks that came in a Data message
  -- of one of the frames, under their index and with the signature, a valid one of the root of the feed up
  -- to them.
  pub read_loop-authentic :
      (bs : List Bytes) (s : SyncSession) (ts : List Turn)
      → s.storage ≡ holding bs
      → (cs : List Bytes) × Extends s.deflate_active ts bs cs
        × ((i : ℕ) → get (read_loop sv s ts).session.storage i ≡ block_at cs i)
  read_loop-authentic bs s ts h =
      Stands-readable bs (read_loop sv s ts) (read_loop-Stands s.deflate_active bs s ts h refl)
