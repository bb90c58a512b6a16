-- ===== src/Ipc/Client.antt =====
-- pkg/ipc/socket.go: HandleClient, what the gateway does with the requests of a local client.
-- A request is what the type assertions read of the decoded JSON object: a text is empty where the field is
-- missing or no string. A response is the map that is sent, without the text of an error. The databases and
-- what a block is as JSON are parameters; the environment of a request says what the writes of the storage
-- do, what the DHT contacts answer and whether the response can be sent. `none` is a search of the node
-- that has not ended within its rounds. No other client appends between Len and Append. Logging and the
-- listener's socket are left out.
pub mod Access
pub mod Blocks
pub mod Restart
pub mod Swarms
use keet_agent.Prelude.{
  ℕ, Bool, true, false, ◌&&◌, not, List, [], ◌∷◌, ◌++◌, length, Option, none, some, ◌==◌, bytes_eq,
  contains, if◌then◌else◌, map,
}
use keet_agent.Prelude.Result.{Result, ok, err, panic}
use keet_agent.Bytes.{Bytes}
use keet_agent.Encoding.Hex
use keet_agent.Encoding.Base64
use keet_agent.Hypercore.Storage.{Storage, StorageError, WriteOutcome, append, get, len}
use keet_agent.Db.Repository.{DbError, SwarmRepository, BlockRepository}
use keet_agent.Dht.Registry.{SwarmRegistry, register_peer, clear_swarm}
use keet_agent.Dht.Routing.{Contact}
use keet_agent.Dht.Rpc.{Message}
use keet_agent.Dht.Swarm.{Answers, SwarmNode, announce, lookup, leave}
use keet_agent.Dht.Topic.{resolve_topic_key}

-- The "index" of get_block: the uint64 that a JSON number is converted to, or a value of another type.
pub data IndexValue : Type 0 where
  number : ℕ → IndexValue
  other_value : IndexValue

pub record Request : Type 0 where
  pub command : Bytes
  pub peer_key : Bytes
  pub topic : Bytes
  pub payload : Bytes
  pub feed_key : Bytes
  pub signature : Option Bytes
  pub index : Option IndexValue

pub data Failure : Type 0 where
  unauthorized invalid_topic storage_not_initialized invalid_base64 append_failed invalid_request
        get_failed :
      Failure

pub data Response : Type 0 where
  acknowledged authenticated : Response
  joined : Bytes → Bytes → Response
  left : Bytes → Response
  appended : ℕ → Response
  block_data : Bytes → Response
  refused : Bytes → Failure → Response

-- What the gateway does beside the response: OnRegisterPeer, which dials the peer, a DHT request, and the
-- notification of all clients.
pub data Event : Type 0 where
  dial : Bytes → Bytes → Event
  send : Contact → Message → Event
  notify : Bytes → ℕ → Bytes → Event

-- The registry of HandleClient, which is another than that of the node.
pub record ClientSwarms : Type 0 where
  pub registry : SwarmRegistry
  pub p2p_port : ℕ

-- The objects that HandleClient is given; a repository stands with its database.
pub record Gateway (S B : Type 0) : Type 0 where
  pub node : Option SwarmNode
  pub reg : Option ClientSwarms
  pub store : Option Storage
  pub swarms : Option S
  pub blocks : Option B

pub record Environment : Type 0 where
  pub data_write : WriteOutcome
  pub index_write : WriteOutcome
  pub net : Answers
  pub fuel : ℕ
  pub tx_id : Bytes
  pub is_sent : Bool

-- BLAKE2b, and the keys of the JSON object that a block is, if it is one.
pub record ClientServices (S B : Type 0) : Type 0 where
  pub swarm_repo : SwarmRepository S
  pub block_repo : BlockRepository B
  pub sum256 : Bytes → Bytes
  pub json_keys : Bytes → Option (List Bytes)

pub record Handled (S B : Type 0) : Type 0 where
  pub gateway : Gateway S B
  pub response : Response
  pub events : List Event

pub record Transcript (S B : Type 0) : Type 0 where
  pub gateway : Gateway S B
  pub responses : List Response
  pub events : List Event

-- "auth", "join_swarm", "leave_swarm", "append_block", "get_block" and "default_feed"
abbrev pub auth_command : Bytes
auth_command = 97 ∷ 117 ∷ 116 ∷ 104 ∷ []

abbrev pub join_command : Bytes
join_command = 106 ∷ 111 ∷ 105 ∷ 110 ∷ 95 ∷ 115 ∷ 119 ∷ 97 ∷ 114 ∷ 109 ∷ []

abbrev pub leave_command : Bytes
leave_command = 108 ∷ 101 ∷ 97 ∷ 118 ∷ 101 ∷ 95 ∷ 115 ∷ 119 ∷ 97 ∷ 114 ∷ 109 ∷ []

abbrev pub append_command : Bytes
append_command = 97 ∷ 112 ∷ 112 ∷ 101 ∷ 110 ∷ 100 ∷ 95 ∷ 98 ∷ 108 ∷ 111 ∷ 99 ∷ 107 ∷ []

abbrev pub get_command : Bytes
get_command = 103 ∷ 101 ∷ 116 ∷ 95 ∷ 98 ∷ 108 ∷ 111 ∷ 99 ∷ 107 ∷ []

abbrev pub default_feed : Bytes
default_feed = 100 ∷ 101 ∷ 102 ∷ 97 ∷ 117 ∷ 108 ∷ 116 ∷ 95 ∷ 102 ∷ 101 ∷ 101 ∷ 100 ∷ []

-- isWhitelisted, and the flag of the session after a request with the key.
abbrev pub is_empty {ℓ} : {A : Type ℓ} → List A → Bool
is_empty [] = true
is_empty (x ∷ xs) = false

abbrev pub is_whitelisted : Bytes → List Bytes → Bool
is_whitelisted key [] = true
is_whitelisted key (w ∷ ws) = contains (w ∷ ws) key

abbrev pub may_proceed : List Bytes → Bool → Bytes → Bool
may_proceed whitelist authed key =
    if not (is_empty key) && is_whitelisted key whitelist then true else authed

abbrev pub dial_event : Option (Bytes × Bytes) → List Event
dial_event none = []
dial_event (some (topic, peer)) = dial topic peer ∷ []

-- reg.RegisterPeer, unless reg is nil.
abbrev pub register_client : Option ClientSwarms → Bytes → Bytes → Option ClientSwarms × List Event
register_client none topic peer = (none, [])
register_client (some r) topic peer = (
  some (record r { registry = (register_peer r.registry topic peer).0 }),
  dial_event (register_peer r.registry topic peer).1,
)

pub register_found : Option ClientSwarms → Bytes → List Bytes → Option ClientSwarms × List Event
register_found r topic [] = (r, [])
register_found r topic (peer ∷ peers) =
    let (r', events) = register_client r topic peer in
    let (r'', more) = register_found r' topic peers in (r'', events ++ more)

abbrev pub port_of : Option ClientSwarms → ℕ
port_of none = 0
port_of (some r) = r.p2p_port

abbrev pub feed_or_default : Bytes → Bytes
feed_or_default feed = if is_empty feed then default_feed else feed

-- The value that a failed conversion leaves in `index` is 0.
abbrev pub index_of : IndexValue → ℕ
index_of (number n) = n
index_of other_value = 0

-- "sender", "timestamp" and "content"
abbrev is_chat : Option (List Bytes) → Bool
is_chat none = false
is_chat (some keys) =
    contains keys (115 ∷ 101 ∷ 110 ∷ 100 ∷ 101 ∷ 114 ∷ [])
    && contains keys (116 ∷ 105 ∷ 109 ∷ 101 ∷ 115 ∷ 116 ∷ 97 ∷ 109 ∷ 112 ∷ [])
    && contains keys (99 ∷ 111 ∷ 110 ∷ 116 ∷ 101 ∷ 110 ∷ 116 ∷ [])

-- sig, _ = DecodeString(sigStr), and nil without a signature.
abbrev signature_or_nil : Option Bytes → Bytes
signature_or_nil none = []
signature_or_nil (some s) = (Base64.decode_string s).0

-- A database after a call whose error is only logged.
abbrev pub after_call : {D : Type 0} → D → Result DbError D → D
after_call d (ok d') = d'
after_call d (err e) = d
after_call d panic = d

module _ {S B : Type 0} (sv : ClientServices S B) where
  abbrev pub unchanged : Gateway S B → Response → Option (Handled S B)
  unchanged g response = some (record { gateway = g; response = response; events = [] })

  abbrev pub register_topic : Option S → Bytes → Bytes → Option S
  register_topic none key topic = none
  register_topic (some d) key topic =
      some (after_call d (sv.swarm_repo.register_swarm d (Hex.encode_to_string key) topic))

  abbrev pub unregister_topic : Option S → Bytes → Option S
  unregister_topic none key = none
  unregister_topic (some d) key =
      some (after_call d (sv.swarm_repo.unregister_swarm d (Hex.encode_to_string key)))

  abbrev pub found_peers :
      Gateway S B
      → Bytes
      → List Event
      → Option (SwarmNode × List Bytes)
      → Option (Gateway S B × List Event)
  found_peers g key events none = none
  found_peers g key events (some (n, peers)) =
      let (r, dials) = register_found g.reg key peers in
      some (record g { node = some n; reg = r }, events ++ dials)

  abbrev pub send_events : List (Contact × Message) → List Event
  send_events requests = map (λ (r : Contact × Message). send r.0 r.1) requests

  abbrev pub announced :
      Environment
      → Gateway S B
      → Bytes
      → Option (SwarmNode × List (Contact × Message))
      → Option (Gateway S B × List Event)
  announced env g key none = none
  announced env g key (some (n, requests)) =
      found_peers g key (send_events requests) (lookup env.fuel env.net n key)

  abbrev pub join_dht :
      Environment → Gateway S B → Bytes → Option SwarmNode → Option (Gateway S B × List Event)
  join_dht env g key none = some (g, [])
  join_dht env g key (some n) =
      announced env g key (announce env.fuel env.net n key (port_of g.reg) env.tx_id)

  abbrev pub with_reply :
      Response → List Event → Option (Gateway S B × List Event) → Option (Handled S B)
  with_reply response before none = none
  with_reply response before (some (g, events)) =
      some (record { gateway = g; response = response; events = before ++ events })

  pub join_swarm : Environment → Gateway S B → Request → Option Bytes → Option (Handled S B)
  unfolding register_found
  join_swarm env g req none = unchanged g (refused join_command invalid_topic)
  join_swarm env g req (some key) =
      let (r, dials) = register_client g.reg key req.peer_key in
      let registered : Gateway S B = record g {
        reg = r;
        swarms = register_topic g.swarms key req.topic;
      } in
      with_reply (joined req.topic (Hex.encode_to_string key)) dials
        (join_dht env registered key g.node)

  abbrev pub cleared : Option ClientSwarms → Bytes → Option ClientSwarms
  cleared none key = none
  cleared (some r) key = some (record r { registry = clear_swarm r.registry key })

  abbrev pub left_dht :
      Gateway S B
      → Option (SwarmNode × List (Contact × Message))
      → Option (Gateway S B × List Event)
  left_dht g none = none
  left_dht g (some (n, requests)) = some (record g { node = some n }, send_events requests)

  abbrev pub leave_dht :
      Environment → Gateway S B → Bytes → Option SwarmNode → Option (Gateway S B × List Event)
  leave_dht env g key none = some (g, [])
  leave_dht env g key (some n) = left_dht g (leave env.fuel env.net n key env.tx_id)

  -- A topic without a key is left with success.
  pub leave_swarm : Environment → Gateway S B → Request → Option Bytes → Option (Handled S B)
  leave_swarm env g req none = unchanged g (left req.topic)
  leave_swarm env g req (some key) = with_reply (left req.topic) [] (
      leave_dht env (record g { reg = cleared g.reg key; swarms = unregister_topic g.swarms key })
        key g.node)

  abbrev pub cache_block : Option B → Bytes → ℕ → Bytes → Option Bytes → Option B
  cache_block none feed index block signature = none
  cache_block (some d) feed index block signature =
      some (after_call d (sv.block_repo.put_block d feed index block (signature_or_nil signature)))

  -- BroadcastChatMessage
  abbrev pub notification : Bytes → ℕ → Bytes → List Event
  notification feed index block =
      if is_chat (sv.json_keys block) then notify feed index block ∷ [] else []

  abbrev pub after_storage :
      Gateway S B → Request → ℕ → Bytes → Storage × Result StorageError (Unit {0}) → Handled S B
  after_storage g req index block (s, ok _) =
      let feed = feed_or_default req.feed_key in
      record {
        gateway = record g {
          store = some s;
          blocks = cache_block g.blocks feed index block req.signature;
        };
        response = appended index;
        events = notification feed index block;
      }
  after_storage g req index block (s, err e) = record {
    gateway = record g { store = some s };
    response = refused append_command append_failed;
    events = [];
  }
  after_storage g req index block (s, panic) = record {
    gateway = record g { store = some s };
    response = refused append_command append_failed;
    events = [];
  }

  pub append_block : Environment → Gateway S B → Request → Option Storage → Option (Handled S B)
  append_block env g req none = unchanged g (refused append_command storage_not_initialized)
  append_block env g req (some s) =
      let (block, fine) = Base64.decode_string req.payload in
      if fine
      then some (after_storage g req (len s) block (append s block env.data_write env.index_write))
      else unchanged g (refused append_command invalid_base64)

  abbrev pub cached : Result DbError (Bytes × Bytes) → Option Bytes
  cached (ok (value, signature)) = some value
  cached (err e) = none
  cached panic = none

  -- The block of the storage, or else of the database.
  abbrev pub stored_or_cached : Option B → Bytes → ℕ → Result StorageError Bytes → Option Bytes
  stored_or_cached d feed index (ok block) = some block
  stored_or_cached none feed index _ = none
  stored_or_cached (some d) feed index _ = cached (sv.block_repo.get_block d feed index)

  abbrev pub block_response : Option Bytes → Response
  block_response none = refused get_command get_failed
  block_response (some block) = block_data (Base64.encode_to_string block)

  pub get_stored : Gateway S B → Request → Option IndexValue → Option Storage → Response
  get_stored g req (some index) (some s) = block_response (
      stored_or_cached g.blocks (feed_or_default req.feed_key) (index_of index)
        (get s (index_of index)))
  get_stored g req none s = refused get_command invalid_request
  get_stored g req (some index) none = refused get_command invalid_request

  -- The switch over the command.
  pub execute : Environment → Gateway S B → Request → Option (Handled S B)
  unfolding join_swarm leave_swarm append_block get_stored
  execute env g req =
      if bytes_eq req.command auth_command
      then unchanged g authenticated
      else if bytes_eq req.command join_command
      then join_swarm env g req (resolve_topic_key sv.sum256 req.topic)
      else if bytes_eq req.command leave_command
      then leave_swarm env g req (resolve_topic_key sv.sum256 req.topic)
      else if bytes_eq req.command append_command
      then append_block env g req g.store
      else if bytes_eq req.command get_command
      then unchanged g (get_stored g req req.index g.store)
      else unchanged g acknowledged

  abbrev pub only : Handled S B → Option (Transcript S B)
  only h = some (record { gateway = h.gateway; responses = h.response ∷ []; events = h.events })

  abbrev pub followed : Handled S B → Option (Transcript S B) → Option (Transcript S B)
  followed h none = none
  followed h (some o) = some (record {
    gateway = o.gateway;
    responses = h.response ∷ o.responses;
    events = h.events ++ o.events;
  })

  -- The loop over the requests; the last is followed by an error of the decoder.
  pub client_loop :
      List Bytes → Gateway S B → Bool → List (Environment × Request) → Option (Transcript S B)
  client_loop whitelist g authed [] = some (record { gateway = g; responses = []; events = [] })
  client_loop whitelist g authed ((env, req) ∷ rest) =
      elim (may_proceed whitelist authed req.peer_key) [
        | true ↦ elim (execute env g req) [
          | none ↦ none
          | some h ↦ elim (env.is_sent) [
            | true ↦ followed h (client_loop whitelist h.gateway true rest)
            | false ↦ only h
          ]
        ]
        | false ↦
            only (record { gateway = g; response = refused req.command unauthorized; events = [] })
      ]

  pub handle_client :
      List Bytes → Gateway S B → List (Environment × Request) → Option (Transcript S B)
  unfolding client_loop execute
  handle_client whitelist g requests = client_loop whitelist g (is_empty whitelist) requests
