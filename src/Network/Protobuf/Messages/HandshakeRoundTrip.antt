-- ===== src/Network/Protobuf/Messages/HandshakeRoundTrip.antt =====
-- Marshal and Unmarshal of Handshake (pkg/network/protobuf.go).
use keet_agent.Prelude.{
  ◌≤◌, Bool, true, false, List, [], ◌∷◌, ◌++◌, map, length, ◌≡◌, refl, ap, ◌∙◌, arith, All,
  append_assoc, append-nil,
}
use keet_agent.Prelude.Result.{ok}
use keet_agent.Bytes.{Bytes}
use keet_agent.Network.Protobuf.{max_protobuf_frame_length}
use keet_agent.Network.Protobuf.Fields.{
  Field, bytes, encode_fields, FitsField, apply_fields, unmarshal-encode_fields,
}
use keet_agent.Network.Protobuf.Messages.FieldLists.{
  IsSized, opt, flag, append_if-opt, append_if-opt_string, append_if-flag, append_extensions-map,
  encode_fields-append, All-append, opt-All, flag-All, map-All, apply_fields-append, within_limit,
}
use keet_agent.Network.Protobuf.Messages.{
  Handshake, marshal_handshake, update_handshake, handle_handshake, unmarshal_handshake,
}

unfoldable pub handshake_fields : Handshake → List Field
handshake_fields h =
    opt 1 h.protocol
    ++ (opt 2 h.key ++ (map (bytes 3) h.extensions ++ (flag 4 h.live ++ opt 5 h.user_data)))

abbrev pub empty_handshake : Handshake
empty_handshake = record { protocol = []; key = []; extensions = []; live = false; user_data = [] }

-- What Marshal returns.
marshal_handshake-fields :
    (h : Handshake)
    → length (encode_fields (handshake_fields h)) ≤ max_protobuf_frame_length
    → marshal_handshake h ≡ ok (encode_fields (handshake_fields h))
unfolding marshal_handshake handshake_fields
marshal_handshake-fields h small =
    within_limit _ _
      (simp (append_if-opt_string, append_if-opt, append_extensions-map, append_if-flag)
        (simp (encode_fields-append, append_assoc)))
      small

handshake_fields-All :
    (h : Handshake)
    → IsSized h.protocol
    → IsSized h.key
    → All IsSized h.extensions
    → IsSized h.user_data
    → All FitsField (handshake_fields h)
unfolding handshake_fields
handshake_fields-All h hp hk he hd =
    All-append (opt 1 h.protocol) _ (opt-All 1 h.protocol (omega arith) hp) (
      All-append (opt 2 h.key) _ (opt-All 2 h.key (omega arith) hk) (
        All-append (map (bytes 3) h.extensions) _ (map-All h.extensions he) (
          All-append (flag 4 h.live) _ (flag-All 4 h.live (omega arith))
            (opt-All 5 h.user_data (omega arith) hd))))

apply-extensions :
    (exts : List Bytes) (h : Handshake)
    → apply_fields update_handshake (map (bytes 3) exts) h
      ≡ record h { extensions = h.extensions ++ exts }
unfolding update_handshake
apply-extensions [] h = rw (append-nil h.extensions) refl
apply-extensions (ext ∷ exts) h =
    apply-extensions exts (record h { extensions = h.extensions ++ (ext ∷ []) })
    ∙ ap (λ (xs : List Bytes). record h { extensions = xs })
        (append_assoc h.extensions (ext ∷ []) exts)

-- An empty field that is left out, and one that is written, have the same effect on a fresh receiver.
apply-protocol :
    (b : Bytes)
    → apply_fields update_handshake (opt 1 b) empty_handshake
      ≡ record empty_handshake { protocol = b }
unfolding update_handshake
apply-protocol [] = refl
apply-protocol (x ∷ xs) = refl

apply-key :
    (b p : Bytes)
    → let h : Handshake = record empty_handshake { protocol = p } in
      apply_fields update_handshake (opt 2 b) h ≡ record h { key = b }
unfolding update_handshake
apply-key [] p = refl
apply-key (x ∷ xs) p = refl

apply-live :
    (c : Bool) (p k : Bytes) (xs : List Bytes)
    → let h : Handshake = record {
      protocol = p;
      key = k;
      extensions = xs;
      live = false;
      user_data = [];
    } in
      apply_fields update_handshake (flag 4 c) h ≡ record h { live = c }
unfolding update_handshake
apply-live true p k xs = refl
apply-live false p k xs = refl

apply-user_data :
    (b p k : Bytes) (xs : List Bytes) (c : Bool)
    → let h : Handshake = record {
      protocol = p;
      key = k;
      extensions = xs;
      live = c;
      user_data = [];
    } in
      apply_fields update_handshake (opt 5 b) h ≡ record h { user_data = b }
unfolding update_handshake
apply-user_data [] p k xs c = refl
apply-user_data (x ∷ ys) p k xs c = refl

apply-handshake_fields :
    (h : Handshake) → apply_fields update_handshake (handshake_fields h) empty_handshake ≡ h
unfolding handshake_fields
apply-handshake_fields h =
    simp (
      apply_fields-append, apply-protocol, apply-key, apply-extensions, apply-live, apply-user_data,
    )

-- A handshake whose encoded fields keep the size limit is marshalled, and Unmarshal reads it back into an
-- empty handshake unchanged.
pub unmarshal_handshake-marshal_handshake :
    (h : Handshake)
    → IsSized h.protocol
    → IsSized h.key
    → All IsSized h.extensions
    → IsSized h.user_data
    → length (encode_fields (handshake_fields h)) ≤ max_protobuf_frame_length
    → (b : Bytes) × (marshal_handshake h ≡ ok b)
      × (unmarshal_handshake b empty_handshake ≡ (ok tt, h))
unfolding unmarshal_handshake handle_handshake
unmarshal_handshake-marshal_handshake h hp hk he hd small = (
  encode_fields (handshake_fields h),
  marshal_handshake-fields h small,
  unmarshal-encode_fields update_handshake (handshake_fields h) empty_handshake
        (handshake_fields-All h hp hk he hd) small
      ∙ ap (λ (g : Handshake). (ok tt, g)) (apply-handshake_fields h),
)
