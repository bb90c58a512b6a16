-- ===== src/Network/Peers.antt =====
-- pkg/network/tcp.go: the tables of a PeerManager.
-- A peer's key is the hex form of its public key, and a session is known by a number; the session and its
-- connection are entered and taken out together under the mutex. The listening and the dialling, the Noise
-- handshake before a session and its run are other modules' or the system's.
pub mod Sessions
use keet_agent.Prelude.{
  ℕ, List, [], ◌∷◌, ◌++◌, length, Option, none, some, bytes_eq, if◌then◌else◌, map,
}
use keet_agent.Bytes.{Bytes}
use keet_agent.Hypercore.Sync.{notify_have}

abbrev pub Entries : Type 0
Entries = List (Bytes × ℕ)

pub record PeerManager : Type 0 where
  pub conns : Entries
  pub sessions : Entries
  pub relay_server : Bytes
  pub stun_server : Bytes

unfoldable pub new_peer_manager : PeerManager
new_peer_manager = record { conns = []; sessions = []; relay_server = []; stun_server = [] }

-- A map: an entry for a key that is there takes its place.
unfoldable pub put_entry : Entries → Bytes → ℕ → Entries
put_entry [] key s = (key, s) ∷ []
put_entry ((k, t) ∷ es) key s =
    if bytes_eq k key then (key, s) ∷ es else (k, t) ∷ put_entry es key s

unfoldable pub delete_entry : Entries → Bytes → Entries
delete_entry [] key = []
delete_entry ((k, t) ∷ es) key = if bytes_eq k key then es else (k, t) ∷ delete_entry es key

-- handleIncoming and handleOutgoing, before and behind the run of the session.
unfoldable pub begin_session : PeerManager → Bytes → ℕ → PeerManager
unfolding put_entry
begin_session pm key s = record pm {
  conns = put_entry pm.conns key s;
  sessions = put_entry pm.sessions key s;
}

unfoldable pub end_session : PeerManager → Bytes → PeerManager
unfolding delete_entry
end_session pm key = record pm {
  conns = delete_entry pm.conns key;
  sessions = delete_entry pm.sessions key;
}

pub set_peer_relay : PeerManager → Bytes → PeerManager
set_peer_relay pm addr = record pm { relay_server = addr }

pub set_peer_stun : PeerManager → Bytes → PeerManager
set_peer_stun pm addr = record pm { stun_server = addr }

-- BroadcastHave: the frame that each session is given to send.
pub broadcast_have : PeerManager → ℕ → List (ℕ × Bytes)
broadcast_have pm n = map (λ (e : Bytes × ℕ). (e.1, notify_have n)) pm.sessions

unfoldable pub conn_count : PeerManager → ℕ
conn_count pm = length pm.conns

-- The connections that Close closes.
pub close_all : PeerManager → List ℕ
close_all pm = map (λ (e : Bytes × ℕ). e.1) pm.conns

-- The beginnings and ends of sessions, in the order of the mutex.
pub data PeerEvent : Type 0 where
  began ended : Bytes → ℕ → PeerEvent

abbrev pub after_event : PeerManager → PeerEvent → PeerManager
after_event pm (began key s) = begin_session pm key s
after_event pm (ended key s) = end_session pm key

unfoldable pub run_peers : PeerManager → List PeerEvent → PeerManager
unfolding begin_session end_session
run_peers pm [] = pm
run_peers pm (e ∷ es) = run_peers (after_event pm e) es
