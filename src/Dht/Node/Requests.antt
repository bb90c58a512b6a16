-- ===== src/Dht/Node/Requests.antt =====
-- The replies of handleRequest (pkg/dht/dht.go) as messages of pkg/dht/rpc.go.
use keet_agent.Prelude.{ℕ, ◌<◌, ◌^◌, length, some, ◌≡◌, ◌⊎◌, inl, inr, refl, arith, All}
use keet_agent.Bytes.{Bytes}
use keet_agent.Dht.Registry.{get_peers}
use keet_agent.Dht.Routing.Known.{find_closest_peers-All, length-find_closest_peers}
use keet_agent.Dht.Rpc.{
  Message, msg_ping, msg_pong, msg_find_node, msg_find_node_resp, msg_announce, msg_lookup,
  msg_lookup_resp,
}
use keet_agent.Dht.Rpc.RoundTrip.{IsAddress, IsContact, IsMessage, carried}
use keet_agent.Dht.Node.{
  Addr, DhtNode, handle_announce, handle_request, reply, find_node_reply, lookup_reply, add_sender,
}

abbrev pub IsRequest : ℕ → Type 0
IsRequest k = (k ≡ msg_ping) ⊎ ((k ≡ msg_find_node) ⊎ ((k ≡ msg_announce) ⊎ (k ≡ msg_lookup)))

-- What the handler reads of a request is what its type carries.
pub handle_request-carried :
    (node : DhtNode) (req : Message) (src : Addr)
    → IsRequest req.kind
    → handle_request node (carried req.kind req) src ≡ handle_request node req src
unfolding handle_request handle_announce carried
handle_request-carried node req src (inl k) = rw k refl
handle_request-carried node req src (inr (inl k)) = rw k refl
handle_request-carried node req src (inr (inr (inl k))) = rw k refl
handle_request-carried node req src (inr (inr (inr k))) = rw k refl

-- The node's ID, the contacts that it knows with the sender, and the peers of the topic fit a packet.
pub record CanAnswer (node : DhtNode) (req : Message) (src : Addr) : Type 0 where
  pub id_size : length node.local_id ≡ 32
  pub contact_sizes : (i : ℕ) → All IsContact ((add_sender node req src).routing.buckets i)
  pub peer_sizes : All IsAddress (get_peers node.local_registry req.topic)
  pub peer_count : length (get_peers node.local_registry req.topic) < 2 ^ 16

abbrev pub with_tx_id : Bytes → Message → Message
with_tx_id tx_id m = record m { tx_id = tx_id }

-- The reply is a response, fits its packet, and is all that its type carries.
pub record IsReply (tx_id : Bytes) (r : Message) : Type 0 where
  pub kind : (r.kind ≡ msg_pong) ⊎ ((r.kind ≡ msg_find_node_resp) ⊎ (r.kind ≡ msg_lookup_resp))
  pub fits : IsMessage (with_tx_id tx_id r)
  pub whole : carried r.kind (with_tx_id tx_id r) ≡ with_tx_id tx_id r

pong-IsReply :
    (node : DhtNode) (tx_id : Bytes)
    → length node.local_id ≡ 32
    → length tx_id ≡ 4
    → IsReply tx_id (reply node msg_pong)
unfolding carried
pong-IsReply node tx_id h t = record {
  kind = inl refl;
  fits = record {
    tx_size = t;
    sender_size = h;
    target_size = refl;
    topic_size = refl;
    port_range = omega arith;
    contact_count = omega arith;
    peer_count = omega arith;
    contact_sizes = tt;
    peer_sizes = tt;
  };
  whole = refl;
}

module _ (node : DhtNode) (req : Message) (src : Addr) (h : CanAnswer node req src)
    (t : length req.tx_id ≡ 4) where
  find_node_reply-IsReply : IsReply req.tx_id (find_node_reply (add_sender node req src) req.target)
  unfolding carried
  find_node_reply-IsReply = record {
    kind = inr (inl refl);
    fits = record {
      tx_size = t;
      sender_size = h.id_size;
      target_size = refl;
      topic_size = refl;
      port_range = omega arith;
      contact_count =
          omega (arith, length-find_closest_peers (add_sender node req src).routing req.target 20);
      peer_count = omega arith;
      contact_sizes =
          find_closest_peers-All IsContact (add_sender node req src).routing req.target 20
            h.contact_sizes;
      peer_sizes = tt;
    };
    whole = refl;
  }

  lookup_reply-IsReply : IsReply req.tx_id (lookup_reply (add_sender node req src) req.topic)
  unfolding carried
  lookup_reply-IsReply = record {
    kind = inr (inr refl);
    fits = record {
      tx_size = t;
      sender_size = h.id_size;
      target_size = refl;
      topic_size = refl;
      port_range = omega arith;
      contact_count = omega arith;
      peer_count = h.peer_count;
      contact_sizes = tt;
      peer_sizes = h.peer_sizes;
    };
    whole = refl;
  }

  pub handle_request-IsReply :
      IsRequest req.kind
      → (r : Message) × ((handle_request node req src).1 ≡ some r) × IsReply req.tx_id r
  unfolding handle_request
  handle_request-IsReply (inl k) =
      (reply node msg_pong, rw k refl, pong-IsReply node req.tx_id h.id_size t)
  handle_request-IsReply (inr (inl k)) =
      (find_node_reply (add_sender node req src) req.target, rw k refl, find_node_reply-IsReply)
  handle_request-IsReply (inr (inr (inl k))) =
      (reply node msg_pong, rw k refl, pong-IsReply node req.tx_id h.id_size t)
  handle_request-IsReply (inr (inr (inr k))) =
      (lookup_reply (add_sender node req src) req.topic, rw k refl, lookup_reply-IsReply)
