-- ===== src/Network/Peers/Sessions.antt =====
-- Which sessions a PeerManager (pkg/network/tcp.go) reaches.
use keet_agent.Prelude.{
  ℕ, ◌&&◌, List, [], ◌∷◌, ◌++◌, length, Option, none, some, ◌==◌, bytes_eq, bytes_eq_refl,
  if◌then◌else◌, map, ◌≡◌, refl, ap, arith, Bool-cases, inl, inr,
}
use keet_agent.Bytes.{Bytes}
use keet_agent.Hypercore.Sync.{notify_have}
use keet_agent.Network.Peers.{
  Entries, PeerManager, new_peer_manager, put_entry, delete_entry, begin_session, end_session,
  broadcast_have, conn_count, close_all, PeerEvent, began, ended, after_event, run_peers,
}

-- The sessions that have begun and not ended, whatever their peers.
unfoldable pub without : Entries → Bytes → ℕ → Entries
without [] key s = []
without ((k, t) ∷ es) key s = if bytes_eq k key && t == s then es else (k, t) ∷ without es key s

abbrev pub after : Entries → PeerEvent → Entries
after live (began key s) = live ++ ((key, s) ∷ [])
after live (ended key s) = without live key s

unfoldable pub running : Entries → List PeerEvent → Entries
unfolding without
running live [] = live
running live (e ∷ es) = running (after live e) es

unfoldable pub session_of : Entries → Bytes → Option ℕ
session_of [] key = none
session_of ((k, t) ∷ es) key = if bytes_eq k key then some t else session_of es key

-- No session begins while one of the same peer runs, and only running sessions end.
abbrev pub Allowed : Entries → PeerEvent → Type 0
Allowed live (began key s) = session_of live key ≡ none
Allowed live (ended key s) = session_of live key ≡ some s

abbrev pub IsSerial : Entries → List PeerEvent → Type 0
IsSerial live [] = Unit {0}
IsSerial live (e ∷ es) = Allowed live e × IsSerial (after live e) es

put_entry-new :
    (es : Entries) (key : Bytes) (s : ℕ)
    → session_of es key ≡ none
    → put_entry es key s ≡ es ++ ((key, s) ∷ [])
unfolding put_entry session_of
put_entry-new [] key s h = refl
put_entry-new ((k, t) ∷ es) key s h = elim (Bool-cases (bytes_eq k key)) [
  | inl there ↦ absurd (ground (arith, there))
  | inr other ↦ rw other (ap (◌∷◌ (k, t)) (put_entry-new es key s (rw other at h)))
]

delete_entry-running :
    (es : Entries) (key : Bytes) (s : ℕ)
    → session_of es key ≡ some s
    → delete_entry es key ≡ without es key s
unfolding delete_entry without session_of
delete_entry-running [] key s h = cc
delete_entry-running ((k, t) ∷ es) key s h = elim (Bool-cases (bytes_eq k key)) [
  | inl there ↦ rw there (ground (arith, there))
  | inr other ↦ rw other (ap (◌∷◌ (k, t)) (delete_entry-running es key s (rw other at h)))
]

-- Both tables are the running sessions.
record Holds (pm : PeerManager) (live : Entries) : Type 0 where
  in_conns : pm.conns ≡ live
  in_sessions : pm.sessions ≡ live

after_event-Holds :
    (pm : PeerManager) (live : Entries) (e : PeerEvent)
    → Holds pm live
    → Allowed live e
    → Holds (after_event pm e) (after live e)
unfolding begin_session end_session
after_event-Holds pm live (began key s) h new = record {
  in_conns = rw h.in_conns (put_entry-new live key s new);
  in_sessions = rw h.in_sessions (put_entry-new live key s new);
}
after_event-Holds pm live (ended key s) h runs = record {
  in_conns = rw h.in_conns (delete_entry-running live key s runs);
  in_sessions = rw h.in_sessions (delete_entry-running live key s runs);
}

run_peers-Holds :
    (pm : PeerManager) (live : Entries) (es : List PeerEvent)
    → Holds pm live
    → IsSerial live es
    → Holds (run_peers pm es) (running live es)
unfolding run_peers running
run_peers-Holds pm live [] h serial = h
run_peers-Holds pm live (e ∷ es) h (now, later) =
    run_peers-Holds (after_event pm e) (after live e) es (after_event-Holds pm live e h now) later

-- If no session begins while one of the same peer runs, and only running sessions end: a new PeerManager
-- broadcasts a length to exactly the running sessions, each once, counts them, and closes their connections.
pub run_peers-serial :
    (es : List PeerEvent) (n : ℕ)
    → IsSerial [] es
    → (broadcast_have (run_peers new_peer_manager es) n
        ≡ map (λ (e : Bytes × ℕ). (e.1, notify_have n)) (running [] es))
      × (conn_count (run_peers new_peer_manager es) ≡ length (running [] es))
      × (close_all (run_peers new_peer_manager es) ≡ map (λ (e : Bytes × ℕ). e.1) (running [] es))
unfolding broadcast_have conn_count close_all new_peer_manager
run_peers-serial es n serial =
    let h =
      run_peers-Holds new_peer_manager [] es (record { in_conns = refl; in_sessions = refl })
        serial in
    (rw h.in_sessions refl, rw h.in_conns refl, rw h.in_conns refl)

session_of-put_entry :
    (es : Entries) (key : Bytes) (s : ℕ) → session_of (put_entry es key s) key ≡ some s
unfolding put_entry session_of
session_of-put_entry [] key s = ground (arith, bytes_eq_refl key)
session_of-put_entry ((k, t) ∷ es) key s =
    ground (arith, session_of-put_entry es key s, bytes_eq_refl key)

put_entry_again :
    (es : Entries) (key : Bytes) (s t : ℕ)
    → put_entry (put_entry es key s) key t ≡ put_entry es key t
unfolding put_entry
put_entry_again [] key s t = ground (arith, bytes_eq_refl key)
put_entry_again ((k, u) ∷ es) key s t =
    ground (arith, put_entry_again es key s t, bytes_eq_refl key)

delete_entry-put_entry :
    (es : Entries) (key : Bytes) (s : ℕ)
    → session_of es key ≡ none
    → delete_entry (put_entry es key s) key ≡ es
unfolding put_entry delete_entry session_of
delete_entry-put_entry [] key s h = ground (arith, bytes_eq_refl key)
delete_entry-put_entry ((k, u) ∷ es) key s h =
    ground (arith, delete_entry-put_entry es key s, bytes_eq_refl key)

-- When a peer with no session begins one and then another, and the first ends, the manager is as it was
-- before both: the second session, which runs, is not broadcast to, counted or closed.
pub run_peers-second :
    (pm : PeerManager) (key : Bytes) (s t : ℕ)
    → session_of pm.sessions key ≡ none
    → session_of pm.conns key ≡ none
    → run_peers pm (began key s ∷ began key t ∷ ended key s ∷ []) ≡ pm
unfolding run_peers begin_session end_session
run_peers-second pm key s t sessions conns =
    rw
      (
        put_entry_again pm.sessions key s t,
        put_entry_again pm.conns key s t,
        delete_entry-put_entry pm.sessions key t sessions,
        delete_entry-put_entry pm.conns key t conns,
      )
      refl
