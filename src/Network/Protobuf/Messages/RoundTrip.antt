-- ===== src/Network/Protobuf/Messages/RoundTrip.antt =====
-- Marshal and Unmarshal of Feed, Request, Data and Cancel (pkg/network/protobuf.go).
use keet_agent.Prelude.{
  ℕ, zero, suc, ◌^◌, ◌≤◌, ◌<◌, Bool, true, false, ◌&&◌, List, [], ◌∷◌, ◌++◌, length, ltb, ◌==◌,
  if◌then◌else◌, ◌≡◌, refl, ap, ◌∙◌, arith, All, append_assoc, append-nil, length-append,
}
use keet_agent.Prelude.Result.{ok}
use keet_agent.Bytes.{Bytes}
use keet_agent.Network.Protobuf.{max_protobuf_frame_length, encode_uint64}
use keet_agent.Network.Protobuf.Fields.{
  Field, varint, encode_fields, FitsField, length-encode_uint64, apply_fields,
  unmarshal-encode_fields,
}
use keet_agent.Network.Protobuf.Messages.FieldLists.{
  IsSized, opt, flag, nonzero, append_if-opt, append_if-flag, append_if-nonzero,
  encode_fields-append, All-append, opt-All, flag-All, nonzero-All, within_limit,
}
use keet_agent.Network.Protobuf.Messages.{
  Feed, Request, Data, Cancel, marshal_feed, unmarshal_feed, handle_feed, marshal_request,
  update_request, handle_request, unmarshal_request, marshal_data, update_data, handle_data,
  unmarshal_data, marshal_cancel, update_cancel, handle_cancel, unmarshal_cancel,
}

cancel_fields : Cancel → List Field
cancel_fields c = varint 1 c.index ∷ varint 2 c.bytes ∷ []

cancel_fields-small :
    (c : Cancel)
    → c.index < 2 ^ 64
    → c.bytes < 2 ^ 64
    → length (encode_fields (cancel_fields c)) ≤ max_protobuf_frame_length
unfolding cancel_fields
cancel_fields-small c hi hb = omega (
  arith,
  length-append (encode_uint64 1 c.index) (encode_uint64 2 c.bytes ++ []),
  length-append (encode_uint64 2 c.bytes) [],
  length-encode_uint64 1 c.index (omega arith) hi,
  length-encode_uint64 2 c.bytes (omega arith) hb,
)

-- Whatever Cancel marshals to is unmarshalled to the same message.
unmarshal_cancel-marshal_cancel :
    (c : Cancel)
    → c.index < 2 ^ 64
    → c.bytes < 2 ^ 64
    → unmarshal_cancel (marshal_cancel c) (record { index = 0; bytes = 0 }) ≡ (ok tt, c)
unfolding unmarshal_cancel marshal_cancel handle_cancel
unmarshal_cancel-marshal_cancel c hi hb = rw (← append-nil (encode_uint64 2 c.bytes)) (
    unfold cancel_fields update_cancel in
    unmarshal-encode_fields update_cancel (cancel_fields c) (record { index = 0; bytes = 0 })
      (omega arith) (cancel_fields-small c hi hb))

request_fields : Request → List Field
request_fields r = varint 1 r.index ∷ varint 2 r.bytes ∷ (flag 3 r.hash ++ nonzero 4 r.nodes)

abbrev pub empty_request : Request
empty_request = record { index = 0; bytes = 0; hash = false; nodes = 0 }

marshal_request-fields : (r : Request) → marshal_request r ≡ encode_fields (request_fields r)
unfolding marshal_request request_fields
marshal_request-fields r =
    simp (append_if-nonzero, append_if-flag) (simp (encode_fields-append, append_assoc))

length-nonzero : (n v : ℕ) → n < 2 ^ 60 → v < 2 ^ 64 → length (encode_fields (nonzero n v)) ≤ 20
length-nonzero n zero h k = omega arith
length-nonzero n (suc v) h k =
    omega (arith, length-append (encode_uint64 n (suc v)) [], length-encode_uint64 n (suc v) h k)

length-flag : (n : ℕ) (c : Bool) → n < 2 ^ 60 → length (encode_fields (flag n c)) ≤ 20
length-flag n true h =
    omega (arith, length-append (encode_uint64 n 1) [], length-encode_uint64 n 1 h (omega arith))
length-flag n false h = omega arith

request_fields-small :
    (r : Request)
    → r.index < 2 ^ 64
    → r.bytes < 2 ^ 64
    → r.nodes < 2 ^ 64
    → length (encode_fields (request_fields r)) ≤ max_protobuf_frame_length
unfolding request_fields
request_fields-small r hi hb hn =
    let rest = encode_fields (flag 3 r.hash ++ nonzero 4 r.nodes) in
    omega (
      arith,
      length-append (encode_uint64 1 r.index) (encode_uint64 2 r.bytes ++ rest),
      length-append (encode_uint64 2 r.bytes) rest,
      ap length (encode_fields-append (flag 3 r.hash) (nonzero 4 r.nodes)),
      length-append (encode_fields (flag 3 r.hash)) (encode_fields (nonzero 4 r.nodes)),
      length-encode_uint64 1 r.index (omega arith) hi,
      length-encode_uint64 2 r.bytes (omega arith) hb,
      length-flag 3 r.hash (omega arith),
      length-nonzero 4 r.nodes (omega arith) hn,
    )

apply-flag_nodes :
    (i b n : ℕ) (c : Bool)
    → apply_fields update_request
        (flag 3 c ++ nonzero 4 n)
        (record { index = i; bytes = b; hash = false; nodes = 0 })
      ≡ record { index = i; bytes = b; hash = c; nodes = n }
unfolding update_request
apply-flag_nodes i b zero true = refl
apply-flag_nodes i b zero false = refl
apply-flag_nodes i b (suc n) true = refl
apply-flag_nodes i b (suc n) false = refl

-- Whatever Request marshals to is unmarshalled to the same message.
unmarshal_request-marshal_request :
    (r : Request)
    → r.index < 2 ^ 64
    → r.bytes < 2 ^ 64
    → r.nodes < 2 ^ 64
    → unmarshal_request (marshal_request r) empty_request ≡ (ok tt, r)
unfolding unmarshal_request handle_request
unmarshal_request-marshal_request r hi hb hn =
    let all : All FitsField (request_fields r) =
      unfold request_fields in
      (
        omega arith,
        (
          omega arith,
          All-append (flag 3 r.hash) _ (flag-All 3 r.hash (omega arith))
              (nonzero-All 4 r.nodes (omega arith) hn),
        ),
      ) in
    rw (marshal_request-fields r) (
      unmarshal-encode_fields update_request (request_fields r) empty_request all
        (request_fields-small r hi hb hn)
      ∙ unfold request_fields update_request in
        ap (λ (q : Request). (ok tt, q)) (apply-flag_nodes r.index r.bytes r.nodes r.hash))

unfoldable pub data_fields : Data → List Field
data_fields m = varint 1 m.index ∷ (opt 2 m.value ++ opt 4 m.signature)

abbrev pub empty_data : Data
empty_data = record { index = 0; value = []; signature = [] }

marshal_data-fields :
    (m : Data)
    → length m.value ≤ max_protobuf_frame_length
    → length (encode_fields (data_fields m)) ≤ max_protobuf_frame_length
    → marshal_data m ≡ ok (encode_fields (data_fields m))
unfolding marshal_data data_fields
marshal_data-fields m value_fits small =
    let guard : ltb max_protobuf_frame_length (length m.value) ≡ false = ground arith in
    rw guard
      (within_limit _ _ (simp append_if-opt (simp (encode_fields-append, append_assoc))) small)

apply-value_signature :
    (i : ℕ) (v g : Bytes)
    → apply_fields update_data
        (opt 2 v ++ opt 4 g)
        (record { index = i; value = []; signature = [] })
      ≡ record { index = i; value = v; signature = g }
unfolding update_data
apply-value_signature i [] [] = refl
apply-value_signature i [] (y ∷ ys) = refl
apply-value_signature i (x ∷ xs) [] = refl
apply-value_signature i (x ∷ xs) (y ∷ ys) = refl

-- A data message whose value and whose encoded fields keep the size limit is marshalled, and Unmarshal
-- reads it back unchanged.
unmarshal_data-marshal_data :
    (m : Data)
    → m.index < 2 ^ 64
    → IsSized m.value
    → IsSized m.signature
    → length m.value ≤ max_protobuf_frame_length
    → length (encode_fields (data_fields m)) ≤ max_protobuf_frame_length
    → (b : Bytes) × (marshal_data m ≡ ok b) × (unmarshal_data b empty_data ≡ (ok tt, m))
unfolding unmarshal_data handle_data
unmarshal_data-marshal_data m hi hv hs value_fits small =
    let all : All FitsField (data_fields m) =
      unfold data_fields in
      (
        omega arith,
        All-append (opt 2 m.value) _ (opt-All 2 m.value (omega arith) hv)
            (opt-All 4 m.signature (omega arith) hs),
      ) in
    let fits : ltb max_protobuf_frame_length (length (encode_fields (data_fields m))) ≡ false =
      ground arith in
    (
      encode_fields (data_fields m),
      marshal_data-fields m value_fits small,
      rw fits (
          unmarshal-encode_fields update_data (data_fields m) empty_data all small
          ∙ unfold data_fields update_data in
            ap (λ (q : Data). (ok tt, q)) (apply-value_signature m.index m.value m.signature)),
    )

update_feed : ℕ → ℕ → Bytes → ℕ → Feed → Feed
update_feed field_num wire_type value varint_val f =
    if field_num == 1 && wire_type == 2 then record f { discovery_key = value } else f

feed_applied :
    (k : Bytes)
    → apply_fields update_feed (opt 1 k) (record { discovery_key = [] })
      ≡ record { discovery_key = k }
unfolding update_feed
feed_applied [] = refl
feed_applied (x ∷ xs) = refl

-- A feed message whose encoded key keeps the size limit is marshalled, and Unmarshal reads it back
-- unchanged. (Marshal tests the key alone, without the bytes in front of it.)
unmarshal_feed-marshal_feed :
    (f : Feed)
    → length f.discovery_key ≤ max_protobuf_frame_length
    → length (encode_fields (opt 1 f.discovery_key)) ≤ max_protobuf_frame_length
    → (b : Bytes) × (marshal_feed f ≡ ok b)
      × (unmarshal_feed b (record { discovery_key = [] }) ≡ (ok tt, f))
unfolding unmarshal_feed marshal_feed handle_feed
unmarshal_feed-marshal_feed f key_fits small =
    let guard : ltb max_protobuf_frame_length (length f.discovery_key) ≡ false = ground arith in
    (
      encode_fields (opt 1 f.discovery_key),
      rw guard (ap ok (append_if-opt 1 f.discovery_key [])),
      unfold update_feed in
          unmarshal-encode_fields update_feed (opt 1 f.discovery_key)
            (record { discovery_key = [] }) (opt-All 1 f.discovery_key (omega arith) (omega arith))
            small
          ∙ ap (λ (q : Feed). (ok tt, q)) (feed_applied f.discovery_key),
    )
