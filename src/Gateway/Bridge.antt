-- ===== src/Gateway/Bridge.antt =====
-- cmd/gateway/main.go: OnAppendBlock, which passes a replicated chat message to the agent's HTTP service and
-- appends the answer to the feed.
-- encoding/json and the service are parameters: an object is the list of its fields, the first of a name
-- counting, and a post comes back with a status and a body, or not. The goroutine runs before the next block
-- is replicated, and no other append comes between its Len and its Append.
pub mod Replies
use keet_agent.Prelude.{
  ℕ, Bool, true, false, not, ◌&&◌, ◌||◌, List, [], ◌∷◌, ◌++◌, Option, none, some, ◌==◌, bytes_eq,
  if◌then◌else◌,
}
use keet_agent.Prelude.Result.{Result, ok, err, panic}
use keet_agent.Bytes.{Bytes}
use keet_agent.Hypercore.Storage.{Storage, StorageError, WriteOutcome, append, len}
use keet_agent.Ipc.Client.{ClientServices, Event, default_feed, is_empty, cache_block, notification}

pub data Value : Type 0 where
  text : Bytes → Value
  number : ℕ → Value
  other_value : Value

abbrev pub Object : Type 0
Object = List (Bytes × Value)

-- json.Marshal, json.Unmarshal into a map and Decode, which reads the first value of a stream.
pub record Json : Type 0 where
  pub marshal : Object → Bytes
  pub unmarshal : Bytes → Option Object
  pub decode : Bytes → Option Object

-- "sender", "content", "feed_key", "response", "message", "timestamp" and "agentic"
abbrev pub sender_key : Bytes
sender_key = 115 ∷ 101 ∷ 110 ∷ 100 ∷ 101 ∷ 114 ∷ []

abbrev pub content_key : Bytes
content_key = 99 ∷ 111 ∷ 110 ∷ 116 ∷ 101 ∷ 110 ∷ 116 ∷ []

abbrev pub feed_key : Bytes
feed_key = 102 ∷ 101 ∷ 101 ∷ 100 ∷ 95 ∷ 107 ∷ 101 ∷ 121 ∷ []

abbrev pub response_key : Bytes
response_key = 114 ∷ 101 ∷ 115 ∷ 112 ∷ 111 ∷ 110 ∷ 115 ∷ 101 ∷ []

abbrev pub message_key : Bytes
message_key = 109 ∷ 101 ∷ 115 ∷ 115 ∷ 97 ∷ 103 ∷ 101 ∷ []

abbrev pub timestamp_key : Bytes
timestamp_key = 116 ∷ 105 ∷ 109 ∷ 101 ∷ 115 ∷ 116 ∷ 97 ∷ 109 ∷ 112 ∷ []

abbrev pub agentic : Bytes
agentic = 97 ∷ 103 ∷ 101 ∷ 110 ∷ 116 ∷ 105 ∷ 99 ∷ []

-- x, ok := o[key].(string)
unfoldable pub string_field : Object → Bytes → Option Bytes
string_field [] key = none
string_field ((k, text s) ∷ o) key = if bytes_eq k key then some s else string_field o key
string_field ((k, number n) ∷ o) key = if bytes_eq k key then none else string_field o key
string_field ((k, other_value) ∷ o) key = if bytes_eq k key then none else string_field o key

-- x, _ := o[key].(string)
abbrev pub or_empty : Option Bytes → Bytes
or_empty none = []
or_empty (some s) = s

abbrev pub string_or_empty : Object → Bytes → Bytes
string_or_empty o key = or_empty (string_field o key)

abbrev pub or_else : Option Bytes → Option Bytes → Option Bytes
or_else none other = other
or_else (some s) other = some s

-- The first of the three fields that is a text, also an empty one.
unfoldable pub reply_text : Object → Bytes
unfolding string_field
reply_text o = or_empty (
    or_else (string_field o response_key)
      (or_else (string_field o content_key) (string_field o message_key)))

-- Who is answered: not the agent itself.
unfoldable pub is_forwarded : Object → Bool
unfolding string_field
is_forwarded o =
    not (is_empty (string_or_empty o sender_key))
    && (not (bytes_eq (string_or_empty o sender_key) agentic)
        && not (is_empty (string_or_empty o content_key)))

abbrev pub post_body : Object → Object
post_body o =
    (sender_key, text (string_or_empty o sender_key))
    ∷ (content_key, text (string_or_empty o content_key))
    ∷ (feed_key, text default_feed)
    ∷ []

abbrev pub response_block : Bytes → ℕ → Object
response_block reply now =
    (sender_key, text agentic) ∷ (timestamp_key, number now) ∷ (content_key, text reply) ∷ []

-- What surrounds one block: the service, the clock in milliseconds, and the writes of the storage.
pub record Surroundings : Type 0 where
  pub agentic_url : Bytes
  pub post : Bytes → Option (ℕ × Bytes)
  pub now : ℕ
  pub data_write : WriteOutcome
  pub index_write : WriteOutcome

pub record Bridged (B : Type 0) : Type 0 where
  pub store : Storage
  pub blocks : Option B
  pub posted : List Bytes
  pub events : List Event

module _ {S B : Type 0} (sv : ClientServices S B) (json : Json) where
  abbrev pub appended_reply :
      Option B → ℕ → Bytes → Storage × Result StorageError (Unit {0}) → Bridged B
  appended_reply d index block (s, ok _) = record {
    store = s;
    blocks = cache_block sv d default_feed index block none;
    posted = [];
    events = notification sv default_feed index block;
  }
  appended_reply d index block (s, err e) = record {
    store = s;
    blocks = d;
    posted = [];
    events = [];
  }
  appended_reply d index block (s, panic) = record {
    store = s;
    blocks = d;
    posted = [];
    events = [];
  }

  abbrev pub untouched : Storage → Option B → Bridged B
  untouched s d = record { store = s; blocks = d; posted = []; events = [] }

  pub append_reply : Surroundings → Storage → Option B → Bytes → Bridged B
  append_reply env s d reply =
      let block = json.marshal (response_block reply env.now) in
      if is_empty reply
      then untouched s d
      else appended_reply d (len s) block (append s block env.data_write env.index_write)

  abbrev pub after_decoding : Surroundings → Storage → Option B → Option Object → Bridged B
  after_decoding env s d none = untouched s d
  after_decoding env s d (some o) = append_reply env s d (reply_text o)

  abbrev pub after_post : Surroundings → Storage → Option B → Option (ℕ × Bytes) → Bridged B
  after_post env s d none = untouched s d
  after_post env s d (some (status, body)) =
      if status == 200 || status == 201
      then after_decoding env s d (json.decode body)
      else untouched s d

  -- The goroutine.
  abbrev pub ask_agent : Surroundings → Storage → Option B → Object → Bridged B
  ask_agent env s d o =
      let body = json.marshal (post_body o) in
      record (after_post env s d (env.post body)) { posted = body ∷ [] }

  abbrev pub forward : Surroundings → Storage → Option B → Option Object → Bridged B
  forward env s d none = untouched s d
  forward env s d (some o) = if is_forwarded o then ask_agent env s d o else untouched s d

  pub on_append_block : Surroundings → Storage → Option B → ℕ → Bytes → Bridged B
  unfolding append_reply reply_text is_forwarded
  on_append_block env s d index value =
      let broadcast = notification sv default_feed index value in
      let b =
        if is_empty env.agentic_url
        then untouched s d
        else forward env s d (json.unmarshal value) in
      record b { events = broadcast ++ b.events }
