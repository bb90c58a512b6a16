-- ===== src/Ipc/Client/Restart.antt =====
-- A swarm that a client joins, over a restart of the gateway (pkg/ipc/socket.go, pkg/db/bbolt.go,
-- pkg/dht/dht.go).
use keet_agent.Prelude.{
  ℕ, ◌<◌, true, List, [], ◌∷◌, length, All, some, bytes_eq_refl, contains, ◌≡◌, refl, ◌∙◌,
}
use keet_agent.Prelude.Result.{ok}
use keet_agent.Bytes.{Bytes}
use keet_agent.Encoding.Hex.{encode_to_string}
use keet_agent.Db.Bolt.{Bbolt, IsBbolt, swarm_repository, register_swarm, get_active_swarms}
use keet_agent.Db.Bolt.Swarms.{register, is_active, run_calls, get_active_swarms-run_calls}
use keet_agent.Dht.Bootstrap.{Nets, Ping, topic_keys, bootstrapped, start}
use keet_agent.Dht.Bootstrap.Restart.{IsPing, Requested, start-announces}
use keet_agent.Dht.Routing.{Contact, RoutingTable}
use keet_agent.Dht.Rpc.{Message}
use keet_agent.Dht.Search.{has_id, iterative_find_node}
use keet_agent.Dht.Search.Ending.{Names, Exists}
use keet_agent.Dht.Search.Table.{Within}
use keet_agent.Dht.Swarm.{SwarmNode}
use keet_agent.Dht.Topic.{IsHash, resolve_topic_key, resolve_topic_key-IsKey}
use keet_agent.Ipc.Client.{
  Request, ClientSwarms, Gateway, Environment, ClientServices, Handled, join_command, execute,
}
use keet_agent.Ipc.Client.Swarms.{execute-join_swarm}

-- The topic of a successful RegisterSwarm is listed.
register_swarm-listed :
    {D : Type 0} (b : Bbolt D) (laws : IsBbolt b) (d d' : D) (key name : Bytes)
    (before active : List Bytes)
    → register_swarm b d key name ≡ ok d'
    → get_active_swarms b d ≡ ok before
    → get_active_swarms b d' ≡ ok active
    → contains active key ≡ true
unfolding run_calls is_active
register_swarm-listed b laws d d' key name before active e was is =
    get_active_swarms-run_calls b laws d d' (register key name ∷ []) before active key (rw e refl)
      was is
    ∙ rw (bytes_eq_refl key) refl

module _ {D B : Type 0} (sv : ClientServices D B) (b : Bbolt D) (laws : IsBbolt b)
    (uses : sv.swarm_repo ≡ swarm_repository b) (hash : IsHash sv.sum256) where
  -- If bbolt does what it documents and the hash function has sums of 32 bytes: a client joins a topic on a
  -- gateway with a registry and a node whose two searches end, and RegisterSwarm succeeds. A node that is
  -- started later with that database, where every contact that its table, a bootstrap node or an answer
  -- names has one of finitely many IDs, ends its start. It then has the topic among those that it announces
  -- periodically, and it has sent an announcement of the topic, with its own ID and port, to each contact
  -- that its search for the key found, at the table that the bootstrap and the keys listed in front left.
  pub join_swarm-start :
      (env : Environment) (g : Gateway D B) (req : Request) (r : ClientSwarms) (n : SwarmNode)
      (key : Bytes) (closest contacts : List Contact) (rt rt' : RoutingTable) (d d' : D)
      (before active : List Bytes) (nets : Nets) (all : List Bytes) (fuel : ℕ) (tx_id : Bytes)
      (later : SwarmNode) (pings : List Ping)
      → req.command ≡ join_command
      → g.reg ≡ some r
      → g.node ≡ some n
      → g.swarms ≡ some d
      → resolve_topic_key sv.sum256 req.topic ≡ some key
      → iterative_find_node env.net.find_node env.fuel n.node.routing key ≡ some (closest, rt)
      → iterative_find_node env.net.find_node env.fuel rt key ≡ some (contacts, rt')
      → register_swarm b d (encode_to_string key) req.topic ≡ ok d'
      → get_active_swarms b d ≡ ok before
      → get_active_swarms b d' ≡ ok active
      → ((target : Bytes) → Names (nets target).find_node (Exists all))
      → length all < fuel
      → Within all later.node.routing
      → All (IsPing all) pings
      → (h : Handled D B) × (t : SwarmNode) × (sent : List (Contact × Message))
        × (started : SwarmNode) × (nearest : List Contact) × (execute sv env g req ≡ some h)
        × (h.gateway.swarms ≡ some d')
        × (start fuel nets tx_id later pings (some active) ≡ some (t, sent))
        × (bootstrapped fuel nets later pings ≡ some (started, nearest))
        × (has_id t.announces key ≡ true)
        × Requested nets fuel tx_id started (topic_keys active) key sent
  join_swarm-start env g req r n key closest contacts rt rt' d d' before active nets all fuel tx_id
        later pings command reg node swarms resolved first second stored was is heard enough within
        answered =
      let (h, client, done, joined) =
        execute-join_swarm sv env g req r n key closest contacts rt rt' command reg node resolved
          first second in
      let (full, bytes) = resolve_topic_key-IsKey sv.sum256 req.topic key hash resolved in
      let (t, sent, started, nearest, ended, booted, again) =
        start-announces nets all heard fuel enough tx_id later pings active within answered in
      let listed =
        register_swarm-listed b laws d d' (encode_to_string key) req.topic before active stored was
          is in
      let (repeated, requested) = again key full bytes listed in
      (
        h,
        t,
        sent,
        started,
        nearest,
        done,
        joined.stored d d' swarms (rw uses stored),
        ended,
        booted,
        repeated,
        requested,
      )
