-- ===== src/Ipc/Client/Swarms.antt =====
-- What a local client joins (pkg/ipc/socket.go): the registry that dials, the node and the database.
use keet_agent.Prelude.{
  Bool, true, false, not, ◌&&◌, ◌||◌, List, [], ◌∷◌, ◌++◌, some, bytes_eq, bytes_eq→eq,
  bytes_eq_refl, ◌≡◌, refl, subst, ◌∙◌, arith, Bool-cases, inl, inr,
}
use keet_agent.Prelude.Result.{ok, err}
use keet_agent.Bytes.{Bytes}
use keet_agent.Db.Repository.{DbError}
use keet_agent.Encoding.Hex
use keet_agent.Dht.Registry.{is_registered, register_peer, get_peers}
use keet_agent.Dht.Registry.Topics.{
  is_registered-register_peer, register_peer-callback, is_registered_nil, is_registered_cons,
}
use keet_agent.Dht.Routing.{Contact, RoutingTable}
use keet_agent.Dht.Rpc.{Message}
use keet_agent.Dht.Search.{iterative_find_node}
use keet_agent.Dht.Swarm.{SwarmNode, announced_port, local_addr, with_routing, searched}
use keet_agent.Dht.Swarm.Membership.{announce-members}
use keet_agent.Dht.Swarm.Peers.{offered, lookup-members}
use keet_agent.Dht.Topic.{resolve_topic_key}
use keet_agent.Ipc.Client.{
  Request, joined, Event, dial, send, notify, ClientSwarms, Gateway, Environment, ClientServices,
  Handled, join_command, dial_event, register_found, send_events, join_swarm, execute,
  register_topic,
}

-- Whether a peer is dialled for the topic.
abbrev pub dials_peer : Event → Bytes → Bytes → Bool
dials_peer (dial t p) topic peer = bytes_eq t topic && bytes_eq p peer
dials_peer (send c m) topic peer = false
dials_peer (notify feed index block) topic peer = false

abbrev pub is_dialled : List Event → Bytes → Bytes → Bool
is_dialled [] topic peer = false
is_dialled (e ∷ es) topic peer = dials_peer e topic peer || is_dialled es topic peer

is_dialled-append :
    (es fs : List Event) (topic peer : Bytes)
    → is_dialled (es ++ fs) topic peer ≡ (is_dialled es topic peer || is_dialled fs topic peer)
is_dialled-append [] fs topic peer = refl
is_dialled-append (e ∷ es) fs topic peer = ground (arith, is_dialled-append es fs topic peer)

abbrev pub members : ClientSwarms → Bytes → Bytes → Bool
members r topic peer = is_registered (get_peers r.registry topic) peer

-- A registry behind some registrations of peers, and the dials with them: a peer is dialled if and only if
-- it was not registered before.
record Grown (r r' : ClientSwarms) (topic : Bytes) (added : Bytes → Bool) (events : List Event)
    : Type 0 where
  grown : (q : Bytes) → members r' topic q ≡ (members r topic q || added q)
  dialled : (q : Bytes) → is_dialled events topic q ≡ (not (members r topic q) && added q)

abbrev with_registered : ClientSwarms → Bytes → Bytes → ClientSwarms
with_registered r topic peer = record r { registry = (register_peer r.registry topic peer).0 }

is_dialled-dial_event :
    (r : ClientSwarms) (topic peer q : Bytes)
    → is_dialled (dial_event (register_peer r.registry topic peer).1) topic q
      ≡ (not (members r topic q) && bytes_eq peer q)
is_dialled-dial_event r topic peer q = elim (Bool-cases (members r topic peer)) [
  | inl there ↦ elim (Bool-cases (bytes_eq peer q)) [
    | inl same ↦
        let e : members r topic q ≡ true =
          subst (λ (x : Bytes). members r topic x ≡ true) (bytes_eq→eq peer q same) there in
        rw (register_peer-callback r.registry topic peer, there, e) refl
    | inr apart ↦ rw (register_peer-callback r.registry topic peer, there, apart) (ground arith)
  ]
  | inr new ↦ elim (Bool-cases (bytes_eq peer q)) [
    | inl same ↦
        let e : members r topic q ≡ false =
          subst (λ (x : Bytes). members r topic x ≡ false) (bytes_eq→eq peer q same) new in
        rw (register_peer-callback r.registry topic peer, new, e, same, bytes_eq_refl topic) refl
    | inr apart ↦ rw (register_peer-callback r.registry topic peer, new, apart) (ground arith)
  ]
]

with_registered-Grown :
    (r : ClientSwarms) (topic peer : Bytes)
    → Grown r
        (with_registered r topic peer)
        topic
        (bytes_eq peer)
        (dial_event (register_peer r.registry topic peer).1)
with_registered-Grown r topic peer = record {
  grown = is_registered-register_peer r.registry topic peer;
  dialled = is_dialled-dial_event r topic peer;
}

Grown-trans :
    {r s t : ClientSwarms} {topic : Bytes} {first second : Bytes → Bool} {es fs : List Event}
    → Grown r s topic first es
    → Grown s t topic second fs
    → Grown r t topic (λ q. first q || second q) (es ++ fs)
Grown-trans {topic} {es} {fs} a b = record {
  grown = λ q. ground (arith, a.grown q, b.grown q);
  dialled = λ q.
      ground
        (arith, is_dialled-append es fs topic q, a.grown q, a.dialled q, b.grown q, b.dialled q);
}

register_found-Grown :
    (r : ClientSwarms) (topic : Bytes) (peers : List Bytes)
    → (t : ClientSwarms) × (events : List Event) × (register_found (some r) topic peers
        ≡ (some t, events))
      × Grown r t topic (is_registered peers) events
unfolding register_found
register_found-Grown r topic [] = (
  r,
  [],
  refl,
  record {
    grown = λ q. rw (is_registered_nil q) (ground arith);
    dialled = λ q. rw (is_registered_nil q) (ground arith);
  },
)
register_found-Grown r topic (p ∷ ps) =
    let (t, events, done, more) = register_found-Grown (with_registered r topic p) topic ps in
    let both = Grown-trans (with_registered-Grown r topic p) more in
    (
      t,
      dial_event (register_peer r.registry topic p).1 ++ events,
      rw done refl,
      record {
        grown = λ q. both.grown q ∙ ground (arith, is_registered_cons p ps q);
        dialled = λ q. both.dialled q ∙ ground (arith, is_registered_cons p ps q);
      },
    )

is_dialled-send_events :
    {S B : Type 0} (sv : ClientServices S B) (requests : List (Contact × Message))
    (topic peer : Bytes)
    → is_dialled (send_events sv requests) topic peer ≡ false
is_dialled-send_events sv [] topic peer = refl
is_dialled-send_events sv ((c, m) ∷ requests) topic peer =
    is_dialled-send_events sv requests topic peer

-- The requests to contacts dial nobody.
is_dialled-skip :
    {S B : Type 0} (sv : ClientServices S B) (es fs : List Event)
    (requests : List (Contact × Message)) (topic peer : Bytes)
    → is_dialled (es ++ (send_events sv requests ++ fs)) topic peer
      ≡ is_dialled (es ++ fs) topic peer
is_dialled-skip sv es fs requests topic peer = ground (
  arith,
  is_dialled-append es (send_events sv requests ++ fs) topic peer,
  is_dialled-append (send_events sv requests) fs topic peer,
  is_dialled-append es fs topic peer,
  is_dialled-send_events sv requests topic peer,
)

-- The peers that join_swarm registers: the client's key, the peers that the node knows, the node's own
-- address, and what the contacts of the lookup answer.
abbrev pub joining :
    Environment → ClientSwarms → SwarmNode → Bytes → Bytes → List Contact → Bytes → Bool
joining env r n key peer_key contacts q =
    bytes_eq peer_key q
    || ((is_registered (get_peers n.node.local_registry key) q
          || bytes_eq (local_addr n.transport_addr (announced_port n r.p2p_port)) q)
        || offered env.net contacts q)

pub record Joined {S B : Type 0} (sv : ClientServices S B) (g : Gateway S B) (env : Environment)
    (r : ClientSwarms) (n : SwarmNode) (key : Bytes) (req : Request) (contacts : List Contact)
    (h : Handled S B) (t : ClientSwarms) : Type 0 where
  pub reg : h.gateway.reg ≡ some t
  pub response : h.response ≡ joined req.topic (Hex.encode_to_string key)
  pub stored :
      (d d' : S)
      → g.swarms ≡ some d
      → sv.swarm_repo.register_swarm d (Hex.encode_to_string key) req.topic ≡ ok d'
      → h.gateway.swarms ≡ some d'
  pub not_stored :
      (d : S) (e : DbError)
      → g.swarms ≡ some d
      → sv.swarm_repo.register_swarm d (Hex.encode_to_string key) req.topic ≡ err e
      → h.gateway.swarms ≡ some d
  pub registered :
      (q : Bytes)
      → members t key q ≡ (members r key q || joining env r n key req.peer_key contacts q)
  pub dialled :
      (q : Bytes)
      → is_dialled h.events key q
        ≡ (not (members r key q) && joining env r n key req.peer_key contacts q)

module _ {S B : Type 0} (sv : ClientServices S B) where
  execute-join :
      (env : Environment) (g : Gateway S B) (req : Request)
      → req.command ≡ join_command
      → execute sv env g req ≡ join_swarm sv env g req (resolve_topic_key sv.sum256 req.topic)
  unfolding execute bytes_eq
  execute-join env g req e = rw e refl

  -- A join_swarm of a topic with a key, on a gateway with a registry and a node whose two searches end:
  -- the response has the topic and the hex form of its key, and the registry that dials has the peers that
  -- it had and the client's key, the peers that the node had for the topic, the node's own address and the
  -- peers that a contact of the second search answers with; each of these that it did not have before is
  -- dialled, and no other; a database of the gateway is the one that RegisterSwarm returns for the hex form
  -- of the key and the topic, and stays as it was where RegisterSwarm returns an error.
  pub execute-join_swarm :
      (env : Environment) (g : Gateway S B) (req : Request) (r : ClientSwarms) (n : SwarmNode)
      (key : Bytes) (closest contacts : List Contact) (rt rt' : RoutingTable)
      → req.command ≡ join_command
      → g.reg ≡ some r
      → g.node ≡ some n
      → resolve_topic_key sv.sum256 req.topic ≡ some key
      → iterative_find_node env.net.find_node env.fuel n.node.routing key ≡ some (closest, rt)
      → iterative_find_node env.net.find_node env.fuel rt key ≡ some (contacts, rt')
      → (h : Handled S B) × (t : ClientSwarms) × (execute sv env g req ≡ some h)
        × Joined sv g env r n key req contacts h t
  unfolding join_swarm
  execute-join_swarm env g req r n key closest contacts rt rt' command reg node resolved first
        second =
      let (n1, requests, done, routing, known) =
        announce-members env.fuel env.net n key env.tx_id r.p2p_port closest rt first in
      let ended : searched n1 (iterative_find_node env.net.find_node env.fuel n1.node.routing key)
          ≡ some (with_routing n1 rt', contacts) =
        rw (routing, second) refl in
      let (peers, looked, listed) =
        lookup-members env.fuel env.net n1 (with_routing n1 rt') key contacts ended in
      let r1 = with_registered r key req.peer_key in
      let (t, dials, grew, more) = register_found-Grown r1 key peers in
      let both = Grown-trans (with_registered-Grown r key req.peer_key) more in
      let before = dial_event (register_peer r.registry key req.peer_key).1 in
      (
        record {
          gateway = record g {
            node = some (with_routing n1 rt');
            reg = some t;
            swarms = register_topic sv g.swarms key req.topic;
          };
          response = joined req.topic (Hex.encode_to_string key);
          events = before ++ (send_events sv requests ++ dials);
        },
        t,
        execute-join env g req command ∙ rw (resolved, reg, node, done, looked, grew) refl,
        record {
          reg = refl;
          response = refl;
          stored = λ d d' given done. rw (given, done) refl;
          not_stored = λ d e given failed. rw (given, failed) refl;
          registered = λ q. both.grown q ∙ ground (arith, listed q, known q);
          dialled = λ q.
              is_dialled-skip sv before dials requests key q
              ∙ (both.dialled q ∙ ground (arith, listed q, known q));
        },
      )
