-- ===== src/Examples/Dht.antt =====
-- Examples for pkg/dht.
use keet_agent.Prelude.{ℕ, All, zero, suc, List, [], ◌∷◌, replicate, some, ◌≡◌, refl, arith}
use keet_agent.Prelude.Result.{ok, ◌>>=◌}
use keet_agent.Bytes.{Bytes}
use keet_agent.Dht.Registry.Peers.{Call, register, unregister, clear}
use keet_agent.Dht.Routing.{
  Contact, RoutingTable, new_routing_table, xor_distance, compare_distance, find_closest_peers,
}
use keet_agent.Dht.Routing.Distance.{IsId, compare_value, distance, compare_distance-distance}
use keet_agent.Dht.Routing.Buckets.{IsTable, add_contacts, add_contacts-new-IsTable}
use keet_agent.Dht.Routing.Closest.{HasId, Nearest, find_closest_peers_lem}
use keet_agent.Dht.Rpc.{Message, zeros, encode_message, decode_message}
use keet_agent.Dht.Rpc.RoundTrip.{IsMessage, carried, decode_message-encode_message}

abbrev calls : List Call
calls =
    register (1 ∷ []) (7 ∷ [])
    ∷ register (1 ∷ []) (8 ∷ [])
    ∷ register (1 ∷ []) (7 ∷ [])
    ∷ unregister (1 ∷ []) (8 ∷ [])
    ∷ register (2 ∷ []) (7 ∷ [])
    ∷ clear (2 ∷ [])
    ∷ []

-- IDs that differ in their first byte.
abbrev pub id_of : ℕ → Bytes
id_of b = b ∷ replicate 31 0

abbrev pub contact : ℕ → Contact
contact b = record { id = id_of b; addr = b ∷ [] }

abbrev pub contacts : List Contact
contacts = contact 128 ∷ contact 3 ∷ contact 64 ∷ contact 3 ∷ contact 0 ∷ []

add_contacts-new-IsTable_example : IsTable (add_contacts (new_routing_table (id_of 0)) contacts)
add_contacts-new-IsTable_example = add_contacts-new-IsTable (id_of 0) contacts

pub id_128 : IsId (id_of 128)
id_128 = record { size = refl; bytes = ground arith }

pub id_64 : IsId (id_of 64)
id_64 = record { size = refl; bytes = ground arith }

pub id_3 : IsId (id_of 3)
id_3 = record { size = refl; bytes = ground arith }

compare_distance-distance_example :
    compare_distance (xor_distance (id_of 128) (id_of 3)) (xor_distance (id_of 64) (id_of 3))
    ≡ compare_value (distance (id_of 128) (id_of 3)) (distance (id_of 64) (id_of 3))
compare_distance-distance_example =
    compare_distance-distance (id_of 128) (id_of 64) (id_of 3) id_128 id_64 id_3

-- Two buckets with contacts.
abbrev pub table : RoutingTable
table = record {
  local_id = zeros;
  buckets = λ i. elim i [
    | zero ↦ contact 128 ∷ []
    | suc j ↦ elim j [ zero ↦ contact 64 ∷ [] | suc k ↦ [] ]
  ];
}

pub table-HasId : (i : ℕ) → All HasId (table.buckets i)
table-HasId zero = (id_128, tt)
table-HasId (suc zero) = (id_64, tt)
table-HasId (suc (suc i)) = tt

find_closest_peers_lem_example : Nearest table (id_of 3) 1 (find_closest_peers table (id_of 3) 1)
find_closest_peers_lem_example = find_closest_peers_lem table (id_of 3) 1 id_3 table-HasId

-- What a response carries of the contacts; the announced port is not in it.
abbrev response : Message
response = record {
  tx_id = 1 ∷ 2 ∷ 3 ∷ 4 ∷ [];
  kind = 4;
  sender_id = id_of 9;
  target = zeros;
  contacts = contact 128 ∷ contact 3 ∷ [];
  topic = zeros;
  port = 80;
  peers = [];
}

response-IsMessage : IsMessage response
response-IsMessage = record {
  tx_size = refl;
  sender_size = refl;
  target_size = refl;
  topic_size = refl;
  port_range = omega arith;
  contact_count = omega arith;
  peer_count = omega arith;
  contact_sizes = ground arith;
  peer_sizes = tt;
}

decode_message-encode_message_example :
    (encode_message (some response) >>= decode_message) ≡ ok (record response { port = 0 })
unfolding carried
decode_message-encode_message_example =
    decode_message-encode_message response response-IsMessage (omega arith) (omega arith)

abbrev lookup_response : Message
lookup_response = record response { kind = 7; peers = (55 ∷ 56 ∷ []) ∷ [] ∷ [] }
