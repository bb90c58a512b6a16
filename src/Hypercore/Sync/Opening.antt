-- ===== src/Hypercore/Sync/Opening.antt =====
-- The handshake of two sessions (pkg/hypercore/sync.go, Run).
use keet_agent.Prelude.{
  ◌||◌, All, length, ◌<◌, ◌^◌, true, [], ◌∷◌, if◌then◌else◌, bytes_eq, ◌≡◌, refl, ap, ◌∙◌,
}
use keet_agent.Prelude.Result.{Result, ok, err, ◌>>=◌}
use keet_agent.Hypercore.Wire.{Handshake, WireError, encode_handshake}
use keet_agent.Hypercore.Wire.RoundTrip.{FitsLimit, decode_handshake-encode_handshake}
use keet_agent.Hypercore.Extension.{has_extension, negotiate_extensions_lem}
use keet_agent.Hypercore.Sync.{
  SyncSession, unsupported_protocol, decoding, map_err, protocol_name, deflate, agree,
  accept_handshake,
}

own_deflate : has_extension (deflate ∷ []) deflate ≡ true
unfolding has_extension bytes_eq
own_deflate = refl

-- A handshake of the other side that fits its frame is accepted exactly when its protocol is the one of
-- the session, and deflate is then active if it was or if it is among the other side's extensions.
accept_handshake_lem :
    (s : SyncSession) (h : Handshake)
    → FitsLimit h.protocol
    → FitsLimit h.key
    → length h.extensions < 2 ^ 32
    → All FitsLimit h.extensions
    → accept_handshake s (encode_handshake h) ≡ (
        if bytes_eq h.protocol protocol_name
        then ok
            (record s { deflate_active = s.deflate_active || has_extension h.extensions deflate })
        else err unsupported_protocol)
unfolding accept_handshake
accept_handshake_lem s h hp hk hn he =
    ap (λ (r : Result WireError Handshake). map_err decoding r >>= agree s)
      (decode_handshake-encode_handshake h hp hk hn he)
    ∙ rw (negotiate_extensions_lem (deflate ∷ []) h.extensions deflate, own_deflate) refl
