-- ===== src/Examples/Gateway.antt =====
-- Examples for cmd/gateway.
use keet_agent.Prelude.{[], ◌∷◌, some, ◌≡◌, refl, bytes_eq}
use keet_agent.Bytes.{Bytes}
use keet_agent.Encoding.Base64
use keet_agent.Hypercore.Storage.{complete}
use keet_agent.Hypercore.Storage.Refinement.{holding}
use keet_agent.Ipc.Client.{Gateway, block_data, execute, number}
use keet_agent.Ipc.Client.Blocks.{get_request}
use keet_agent.Gateway.Bridge
use keet_agent.Gateway.Bridge.{
  timestamp_key, agentic, Object, Json, text, sender_key, content_key, response_key, string_field,
  string_or_empty, reply_text, is_forwarded, response_block, Surroundings, Bridged, on_append_block,
}
use keet_agent.Gateway.Bridge.Replies.{
  in_response, ReadsSender, Replied, on_append_block-Replied, on_append_block-answered,
}
use keet_agent.Examples.Db.{Memory, opened}
use keet_agent.Examples.Ipc.{services, smooth, gateway}

-- What is written is the sender alone, and the other texts are "H".
abbrev read_message : Bytes → Object
read_message b =
    (sender_key, text b) ∷ (content_key, text (72 ∷ [])) ∷ (response_key, text (72 ∷ [])) ∷ []

abbrev json : Json
json = record {
  marshal = λ o. string_or_empty o sender_key;
  unmarshal = λ b. some (read_message b);
  decode = λ b. some (read_message b);
}

json-ReadsSender : ReadsSender json
unfolding string_field bytes_eq
json-ReadsSender = record {
  read_back = λ o ascii. (read_message (string_or_empty o sender_key), refl, refl);
}

-- An agent that answers.
abbrev answering : Surroundings
answering = record {
  agentic_url = 104 ∷ [];
  post = λ body. some (200, body);
  now = 5;
  data_write = complete;
  index_write = complete;
}

abbrev bridged : Bridged Memory
bridged =
    on_append_block services json answering (holding ((1 ∷ []) ∷ [])) (some opened) 0 (66 ∷ [])

on_append_block-Replied_example : Replied services json ((1 ∷ []) ∷ []) bridged.store
on_append_block-Replied_example =
    on_append_block-Replied services json answering ((1 ∷ []) ∷ []) (some opened) 0 (66 ∷ []) refl
      refl json-ReadsSender

-- The gateway behind the reply.
abbrev replied : Gateway Memory Memory
replied = record gateway { store = some bridged.store }

on_append_block-answered_example :
    execute services smooth replied (get_request [] (number 1))
    ≡ some (record {
      gateway = replied;
      response = block_data (
          Base64.encode_to_string (
            json.marshal (
              (sender_key, text agentic)
              ∷ (timestamp_key, Bridge.number 5)
              ∷ (content_key, text (72 ∷ []))
              ∷ [])));
      events = [];
    })
unfolding string_field bytes_eq
on_append_block-answered_example =
    on_append_block-answered services json answering ((1 ∷ []) ∷ []) (some opened) 0 (66 ∷ [])
      (read_message (66 ∷ [])) (66 ∷ []) (72 ∷ []) 200 (66 ∷ []) (read_message (66 ∷ [])) (72 ∷ [])
      smooth replied [] refl refl refl refl refl refl refl refl refl refl (in_response refl) refl
      refl refl refl
