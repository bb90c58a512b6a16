-- ===== src/Dht/Node.antt =====
-- pkg/dht/dht.go, handleRequest: what a node does with the requests of the others.
-- The caller's callback on a registration is not called here: it is the second part of register_peer.
pub mod Peers
pub mod Requests
use keet_agent.Prelude.{
  ℕ, zero, suc, Bool, true, false, List, [], ◌∷◌, Option, none, some, ◌==◌, if◌then◌else◌, bytes_eq,
  replicate,
}
use keet_agent.Bytes.{Bytes}
use keet_agent.Dht.HostPort.{split_host_port, join_host_port, itoa}
use keet_agent.Dht.Registry.{SwarmRegistry, register_peer, unregister_peer, get_peers}
use keet_agent.Dht.Routing.{RoutingTable, add_contact, find_closest_peers}
use keet_agent.Dht.Rpc.{
  Message, blank, msg_ping, msg_pong, msg_find_node, msg_find_node_resp, msg_announce, msg_lookup,
  msg_lookup_resp,
}

-- net.Addr: IP.String() if it is a *net.UDPAddr, and String().
pub record Addr : Type 0 where
  pub udp_ip : Option Bytes
  pub text : Bytes

pub record DhtNode : Type 0 where
  pub local_id : Bytes
  pub routing : RoutingTable
  pub local_registry : SwarmRegistry

abbrev pub or_else : Bytes → Option Bytes → Bytes
or_else s none = s
or_else s (some t) = t

-- The host of an address, or all of it where it has no port.
abbrev pub host_or_all : Bytes → Bytes
host_or_all s = or_else s (split_host_port s)

-- for _, p := range peers, under Port == 0
pub leave_peers : Bytes → Bytes → SwarmRegistry → List Bytes → SwarmRegistry
leave_peers topic host r [] = r
leave_peers topic host r (p ∷ ps) =
    let left = unregister_peer r topic p in
    leave_peers topic host (if bytes_eq (host_or_all p) host then left else r) ps

-- The address of an IP, if there is one, with the announced port.
abbrev pub at_port : ℕ → Bytes → Option Bytes → Bytes
at_port port text none = text
at_port port text (some host) = join_host_port host (itoa port)

abbrev pub or_split : Bytes → Option Bytes → Option Bytes
or_split text none = split_host_port text
or_split text (some ip) = some ip

abbrev pub peer_addr : Addr → ℕ → Bytes
peer_addr src port = at_port port src.text (or_split src.text src.udp_ip)

pub handle_announce : SwarmRegistry → Message → Addr → SwarmRegistry
unfolding leave_peers
handle_announce r req src =
    if req.port == 0
    then leave_peers req.topic (host_or_all src.text) r (get_peers r req.topic)
    else (register_peer r req.topic (peer_addr src req.port)).0

abbrev pub add_sender : DhtNode → Message → Addr → DhtNode
add_sender n req src = record n {
  routing = add_contact n.routing (record { id = req.sender_id; addr = src.text });
}

-- A reply with no payload yet; the dispatcher writes the transaction ID.
abbrev pub reply : DhtNode → ℕ → Message
reply n kind = blank (replicate 4 0) kind n.local_id

abbrev pub find_node_reply : DhtNode → Bytes → Message
find_node_reply n target = record (reply n msg_find_node_resp) {
  contacts = find_closest_peers n.routing target 20;
}

abbrev pub lookup_reply : DhtNode → Bytes → Message
lookup_reply n topic = record (reply n msg_lookup_resp) { peers = get_peers n.local_registry topic }

-- The node, and the reply, or none for the error.
pub handle_request : DhtNode → Message → Addr → DhtNode × Option Message
unfolding handle_announce
handle_request node req src =
    let n : DhtNode = add_sender node req src in
    if req.kind == msg_ping
    then (n, some (reply n msg_pong))
    else if req.kind == msg_find_node
    then (n, some (find_node_reply n req.target))
    else if req.kind == msg_announce
    then (
      record n { local_registry = handle_announce n.local_registry req src },
      some (reply n msg_pong),
    )
    else if req.kind == msg_lookup
    then (n, some (lookup_reply n req.topic))
    else (n, none)
