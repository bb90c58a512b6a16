-- ===== src/Dht/Node/Peers.antt =====
-- Announcing, leaving and looking up at one node (pkg/dht/dht.go, handleRequest).
use keet_agent.Prelude.{
  ℕ, true, false, List, [], ◌∷◌, ◌++◌, none, some, ◌==◌, if◌then◌else◌, bytes_eq, bytes_eq→eq,
  bytes_eq_refl, ◌≡◌, refl, sym, ap, ◌∙◌, arith, Bool-cases, inl, inr, append_assoc, All,
}
use keet_agent.Bytes.{Bytes}
use keet_agent.Dht.HostPort.{join_host_port, itoa, IsHost, split_host_port-join_host_port}
use keet_agent.Dht.Registry.{SwarmRegistry, is_registered, unregister_peer, get_peers}
use keet_agent.Dht.Registry.Topics.{
  get_peers-unregister_peer, get_peers-unregister_other, register_peer-registered,
  remove_first-append, is_registered_nil, is_registered_cons,
}
use keet_agent.Dht.Rpc.{Message, msg_announce, msg_lookup}
use keet_agent.Dht.Node.{
  Addr, DhtNode, host_or_all, leave_peers, peer_addr, handle_announce, handle_request, lookup_reply,
  add_sender,
}

-- The peers of other hosts.
pub elsewhere : Bytes → List Bytes → List Bytes
elsewhere host [] = []
elsewhere host (p ∷ ps) =
    let rest = elsewhere host ps in if bytes_eq (host_or_all p) host then rest else p ∷ rest

abbrev Elsewhere : Bytes → Bytes → Type 0
Elsewhere host p = bytes_eq (host_or_all p) host ≡ false

-- A peer of the host is not among those of other hosts.
Elsewhere-absent :
    (host peer : Bytes) (kept : List Bytes)
    → bytes_eq (host_or_all peer) host ≡ true
    → All (Elsewhere host) kept
    → is_registered kept peer ≡ false
Elsewhere-absent host peer [] h a = is_registered_nil peer
Elsewhere-absent host peer (k ∷ ks) h (n, ns) = elim (Bool-cases (bytes_eq k peer)) [
  | inl same ↦
      let e : bytes_eq (host_or_all k) host ≡ bytes_eq (host_or_all peer) host =
        ap (λ (q : Bytes). bytes_eq (host_or_all q) host) (bytes_eq→eq k peer same) in
      ground (arith, e)
  | inr other ↦ is_registered_cons k ks peer ∙ rw other (Elsewhere-absent host peer ks h ns)
]

All-elsewhere : (host : Bytes) (ps : List Bytes) → All (Elsewhere host) (elsewhere host ps)
unfolding elsewhere
All-elsewhere host [] = tt
All-elsewhere host (p ∷ ps) = elim (Bool-cases (bytes_eq (host_or_all p) host)) [
  | inl here ↦ rw here (All-elsewhere host ps)
  | inr there ↦ rw there (there, All-elsewhere host ps)
]

All-snoc :
    (host : Bytes) (kept : List Bytes) (p : Bytes)
    → All (Elsewhere host) kept
    → Elsewhere host p
    → All (Elsewhere host) (kept ++ (p ∷ []))
All-snoc host [] p a e = (e, tt)
All-snoc host (k ∷ ks) p (n, ns) e = (n, All-snoc host ks p ns e)

-- The loop over the peers, behind some that it has kept.
get_peers-leave_peers :
    (topic host : Bytes) (r : SwarmRegistry) (kept ps : List Bytes)
    → All (Elsewhere host) kept
    → get_peers r topic ≡ kept ++ ps
    → get_peers (leave_peers topic host r ps) topic ≡ kept ++ elsewhere host ps
unfolding leave_peers elsewhere
get_peers-leave_peers topic host r kept [] a e = e
get_peers-leave_peers topic host r kept (p ∷ ps) a e =
    elim (Bool-cases (bytes_eq (host_or_all p) host)) [
      | inl here ↦ rw here (
          get_peers-leave_peers topic host (unregister_peer r topic p) kept ps a (
            get_peers-unregister_peer r topic p
            ∙ rw e (remove_first-append kept ps p (Elsewhere-absent host p kept here a))))
      | inr there ↦ rw there (
          get_peers-leave_peers topic host r (kept ++ (p ∷ [])) ps (All-snoc host kept p a there)
            (e ∙ sym (append_assoc kept (p ∷ []) ps))
          ∙ append_assoc kept (p ∷ []) (elsewhere host ps))
    ]

get_peers-leave_other :
    (topic host other : Bytes) (r : SwarmRegistry) (ps : List Bytes)
    → bytes_eq other topic ≡ false
    → get_peers (leave_peers topic host r ps) other ≡ get_peers r other
unfolding leave_peers
get_peers-leave_other topic host other r [] n = refl
get_peers-leave_other topic host other r (p ∷ ps) n =
    elim (Bool-cases (bytes_eq (host_or_all p) host)) [
      | inl here ↦ rw here (
          get_peers-leave_other topic host other (unregister_peer r topic p) ps n
          ∙ get_peers-unregister_other r topic p other n)
      | inr there ↦ rw there (get_peers-leave_other topic host other r ps n)
    ]

handle_request-announce :
    (node : DhtNode) (req : Message) (src : Addr)
    → req.kind ≡ msg_announce
    → (handle_request node req src).0.local_registry ≡ handle_announce node.local_registry req src
unfolding handle_request
handle_request-announce node req src k = rw k refl

handle_request-lookup :
    (node : DhtNode) (req : Message) (src : Addr)
    → req.kind ≡ msg_lookup
    → (handle_request node req src).1 ≡ some (lookup_reply (add_sender node req src) req.topic)
unfolding handle_request
handle_request-lookup node req src k = rw k refl

-- An announcement with port 0 leaves in the swarm of its topic exactly the peers whose host is not the
-- sender's, in their order, and every other swarm as it was.
pub handle_request-leave :
    (node : DhtNode) (req : Message) (src : Addr) (other : Bytes)
    → req.kind ≡ msg_announce
    → req.port ≡ 0
    → bytes_eq other req.topic ≡ false
    → let after = (handle_request node req src).0.local_registry in
      (get_peers after req.topic
        ≡ elsewhere (host_or_all src.text) (get_peers node.local_registry req.topic))
      × (get_peers after other ≡ get_peers node.local_registry other)
unfolding handle_announce
handle_request-leave node req src other k z n =
    let r = node.local_registry in
    let host = host_or_all src.text in
    rw (handle_request-announce node req src k, z)
      (
        get_peers-leave_peers req.topic host r [] (get_peers r req.topic) tt refl,
        get_peers-leave_other req.topic host other r (get_peers r req.topic) n,
      )

-- The IP of an address: that of a UDP address, or the host that its text has in front of a port.
pub data IsFrom (src : Addr) (ip : Bytes) : Type 0 where
  by_ip : src.udp_ip ≡ some ip → IsFrom src ip
  by_text :
      (port : ℕ)
      → src.udp_ip ≡ none
      → src.text ≡ join_host_port ip (itoa port)
      → IsHost ip
      → IsFrom src ip

peer_addr-IsFrom :
    (src : Addr) (ip : Bytes) (port : ℕ)
    → IsFrom src ip
    → peer_addr src port ≡ join_host_port ip (itoa port)
peer_addr-IsFrom src ip port (by_ip e) = rw e refl
peer_addr-IsFrom src ip port (by_text from no_ip text host) =
    rw (no_ip, text, split_host_port-join_host_port ip from host) refl

-- After an announcement with a port other than 0, from a UDP address or from one whose text has a host
-- without brackets in front of a port, the reply to the next lookup of its topic, whoever asks, has the
-- address of that IP or host with the announced port.
pub lookup-announced :
    (node : DhtNode) (req look : Message) (src asker : Addr) (ip : Bytes)
    → IsFrom src ip
    → req.kind ≡ msg_announce
    → (req.port == 0) ≡ false
    → look.kind ≡ msg_lookup
    → look.topic ≡ req.topic
    → (r : Message) × ((handle_request (handle_request node req src).0 look asker).1 ≡ some r)
      × (is_registered r.peers (join_host_port ip (itoa req.port)) ≡ true)
unfolding handle_announce
lookup-announced node req look src asker ip from k p l t =
    let n : DhtNode = (handle_request node req src).0 in
    (
      lookup_reply (add_sender n look asker) look.topic,
      handle_request-lookup n look asker l,
      rw (← peer_addr-IsFrom src ip req.port from, t, handle_request-announce node req src k, p)
          (register_peer-registered node.local_registry req.topic (peer_addr src req.port)),
    )

elsewhere-gone :
    (host peer : Bytes) (ps : List Bytes)
    → bytes_eq (host_or_all peer) host ≡ true
    → is_registered (elsewhere host ps) peer ≡ false
elsewhere-gone host peer ps h =
    Elsewhere-absent host peer (elsewhere host ps) h (All-elsewhere host ps)

-- After an announcement with port 0 from a host, given by its IP, the reply to the next lookup of the
-- topic has no address of that IP, whatever its port.
pub lookup-left :
    (node : DhtNode) (req look : Message) (src asker : Addr) (ip : Bytes) (from port : ℕ)
    → IsHost ip
    → src.text ≡ join_host_port ip (itoa from)
    → req.kind ≡ msg_announce
    → req.port ≡ 0
    → look.kind ≡ msg_lookup
    → look.topic ≡ req.topic
    → (r : Message) × ((handle_request (handle_request node req src).0 look asker).1 ≡ some r)
      × (is_registered r.peers (join_host_port ip (itoa port)) ≡ false)
unfolding handle_announce
lookup-left node req look src asker ip from port h s k z l t =
    let n : DhtNode = (handle_request node req src).0 in
    let r = node.local_registry in
    let host = host_or_all src.text in
    let peer = join_host_port ip (itoa port) in
    let same : bytes_eq (host_or_all peer) host ≡ true =
      rw (s, split_host_port-join_host_port ip port h, split_host_port-join_host_port ip from h)
        (bytes_eq_refl ip) in
    let left : get_peers (handle_request node req src).0.local_registry req.topic
        ≡ elsewhere host (get_peers r req.topic) =
      rw (handle_request-announce node req src k, z)
        (get_peers-leave_peers req.topic host r [] (get_peers r req.topic) tt refl) in
    (
      lookup_reply (add_sender n look asker) look.topic,
      handle_request-lookup n look asker l,
      rw (t, left) (elsewhere-gone host peer (get_peers r req.topic) same),
    )
