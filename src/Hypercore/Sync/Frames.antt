-- ===== src/Hypercore/Sync/Frames.antt =====
-- writeFrame and readFrame (pkg/hypercore/sync.go) on a connection.
use keet_agent.Prelude.{
  ℕ, zero, suc, ◌%◌, ◌^◌, ◌≤◌, ◌<◌, false, List, [], ◌∷◌, ◌++◌, length, ltb, if◌then◌else◌, ◌≡◌,
  refl, arith, All, append_assoc,
}
use keet_agent.Prelude.Result.{Result, ok, err, ◌>>=◌}
use keet_agent.Bytes.{Bytes, put_uint}
use keet_agent.Bytes.Laws.{read_full-append_of, read_uint-put_uint}
use keet_agent.Hypercore.Wire.{max_message_size}
use keet_agent.Hypercore.Sync.{SyncError, frame_too_large, write_frame, read_frame}
use native.Mathlib.Nat.{mod-eq_of_lt}

-- readFrame returns the payload that writeFrame wrote in front of any bytes, or refuses it for its size.
read_frame-write_frame :
    (payload rest : Bytes)
    → length payload < 2 ^ 32
    → read_frame (write_frame payload ++ rest)
      ≡ (if ltb max_message_size (length payload) then err frame_too_large else ok (payload, rest))
unfolding read_frame write_frame
read_frame-write_frame payload rest h =
    rw (append_assoc (put_uint 4 (length payload % 2 ^ 32)) payload rest, mod-eq_of_lt h)
      (rw (read_uint-put_uint 4 (length payload) (payload ++ rest) (omega arith))
        (rw (read_full-append_of (length payload) payload rest refl) refl))

abbrev pub write_frames : List Bytes → Bytes
write_frames [] = []
write_frames (f ∷ fs) = write_frame f ++ write_frames fs

-- The frames that a connection reads, one after the other.
read_frames : ℕ → Bytes → Result SyncError (List Bytes × Bytes)
read_frames zero r = ok ([], r)
read_frames (suc n) r = do
  (frame, r1) ← read_frame r
  (frames, r2) ← read_frames n r1
  ok (frame ∷ frames, r2)

-- Frames of at most 10 MiB that were written one behind the other are read back one by one.
read_frames-write_frames :
    (fs : List Bytes) (rest : Bytes)
    → All (λ (f : Bytes). length f ≤ max_message_size) fs
    → read_frames (length fs) (write_frames fs ++ rest) ≡ ok (fs, rest)
unfolding read_frames
read_frames-write_frames [] rest h = refl
read_frames-write_frames (f ∷ fs) rest (h, hs) =
    let fits : ltb max_message_size (length f) ≡ false = ground arith in
    rw (append_assoc (write_frame f) (write_frames fs) rest) (
      rw (read_frame-write_frame f (write_frames fs ++ rest) (omega arith), fits)
        (rw (read_frames-write_frames fs rest hs) refl))
