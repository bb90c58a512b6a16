-- ===== src/Hypercore/Extension.antt =====
-- pkg/hypercore/extension.go: the extensions that both sides have. CompressBlock and DecompressBlock call
-- compress/zlib and are parameters of the session.
use keet_agent.Prelude.{
  Bool, false, ◌||◌, ◌&&◌, List, [], ◌∷◌, if◌then◌else◌, bytes_eq, ◌≡◌, refl, arith, bytes_eq→eq,
}
use keet_agent.Bytes.{Bytes}

-- remoteSet[ext]
unfoldable pub has_extension : List Bytes → Bytes → Bool
has_extension [] ext = false
has_extension (e ∷ es) ext = bytes_eq e ext || has_extension es ext

pub negotiate_extensions : List Bytes → List Bytes → List Bytes
unfolding has_extension
negotiate_extensions [] remote = []
negotiate_extensions (ext ∷ exts) remote =
    let shared = negotiate_extensions exts remote in
    if has_extension remote ext then ext ∷ shared else shared

-- An extension is negotiated if and only if both sides have it.
pub negotiate_extensions_lem :
    (local_ remote : List Bytes) (ext : Bytes)
    → has_extension (negotiate_extensions local_ remote) ext
      ≡ (has_extension local_ ext && has_extension remote ext)
unfolding negotiate_extensions has_extension
negotiate_extensions_lem [] remote ext = refl
negotiate_extensions_lem (e ∷ es) remote ext =
    ground (arith, negotiate_extensions_lem es remote ext, bytes_eq→eq e ext)
