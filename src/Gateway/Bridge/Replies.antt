-- ===== src/Gateway/Bridge/Replies.antt =====
-- What the bridge to the agent (cmd/gateway/main.go) appends.
use keet_agent.Prelude.{
  ℕ, ◌<◌, true, false, All, List, [], ◌∷◌, ◌++◌, length, append-nil, Option, none, some, ◌≡◌, refl,
  sym, ap, subst, ◌∙◌, arith, bytes_eq, bytes_eq_refl, Bool-cases, inl, inr, ◌==◌, ◌||◌,
}
use keet_agent.Bytes.{Bytes}
use keet_agent.Hypercore.Storage.{Storage, complete}
use keet_agent.Hypercore.Storage.Refinement.{holding, append-holding}
use keet_agent.Hypercore.Sync.Leaves.{block_at-append}
use keet_agent.Ipc.Client.{
  number, Environment, Gateway, ClientServices, block_data, execute, is_empty, default_feed,
}
use keet_agent.Encoding.Base64
use keet_agent.Ipc.Client.Blocks.{get_request, execute-get}
use keet_agent.Gateway.Bridge
use keet_agent.Gateway.Bridge.{
  Object, Json, text, sender_key, content_key, feed_key, response_key, message_key, timestamp_key,
  string_field, string_or_empty, agentic, is_forwarded, response_block, reply_text, Surroundings,
  append_reply, after_decoding, after_post, post_body, forward, on_append_block,
}

-- A sender in ASCII is read back from what is marshalled.
pub record ReadsSender (json : Json) : Type 0 where
  pub read_back :
      (o : Object)
      → All (λ b. b < 128) (string_or_empty o sender_key)
      → (p : Object) × (json.unmarshal (json.marshal o) ≡ some p)
        × (string_or_empty p sender_key ≡ string_or_empty o sender_key)

-- The reply of the agent: the text in the first of the fields response, content and message that has one.
pub data IsReply (r : Object) (reply : Bytes) : Type 0 where
  in_response : string_field r response_key ≡ some reply → IsReply r reply
  in_content :
      string_field r response_key ≡ none → string_field r content_key ≡ some reply → IsReply r reply
  in_message :
      string_field r response_key ≡ none
      → string_field r content_key ≡ none
      → string_field r message_key ≡ some reply
      → IsReply r reply

reply_text-IsReply : (r : Object) (reply : Bytes) → IsReply r reply → reply_text r ≡ reply
unfolding reply_text
reply_text-IsReply r reply (in_response e) = rw e refl
reply_text-IsReply r reply (in_content a e) = rw (a, e) refl
reply_text-IsReply r reply (in_message a b e) = rw (a, b, e) refl

abbrev pub option_list : Option Bytes → List Bytes
option_list none = []
option_list (some b) = b ∷ []

abbrev option_or : Bytes → Option Bytes → Bytes
option_or b none = b
option_or b (some c) = c

module _ {S B : Type 0} (sv : ClientServices S B) (json : Json) where
  -- No gateway, in whatever state and surroundings, posts the block to its agent or appends anything for it.
  abbrev pub IsUnanswered : Bytes → Type 0
  IsUnanswered block =
      (env : Surroundings) (s : Storage) (d : Option B) (i : ℕ)
      → ((on_append_block sv json env s d i block).posted ≡ [])
        × ((on_append_block sv json env s d i block).store ≡ s)
        × ((on_append_block sv json env s d i block).blocks ≡ d)

  -- The storage of the blocks and at most one more, which is not answered.
  pub record Replied (bs : List Bytes) (s : Storage) : Type 0 where
    pub reply : Option Bytes
    pub holds : s ≡ holding (bs ++ option_list reply)
    pub unanswered : (block : Bytes) → reply ≡ some block → IsUnanswered block

  own-is_forwarded : (p : Object) → string_or_empty p sender_key ≡ agentic → is_forwarded p ≡ false
  unfolding is_forwarded
  own-is_forwarded p own = rw (own, bytes_eq_refl agentic) refl

  response_block-IsUnanswered :
      (reply : Bytes) (now : ℕ)
      → ReadsSender json
      → IsUnanswered (json.marshal (response_block reply now))
  unfolding on_append_block string_field bytes_eq
  response_block-IsUnanswered reply now reads env s d i =
      let (p, read, own) = reads.read_back (response_block reply now) (ground arith) in
      elim (Bool-cases (is_empty env.agentic_url)) [
        | inl off ↦ rw off (refl, refl, refl)
        | inr on ↦ rw (on, read, own-is_forwarded p own) (refl, refl, refl)
      ]

  unchanged-Replied : (bs : List Bytes) → Replied bs (holding bs)
  unchanged-Replied bs = record {
    reply = none;
    holds = ap holding (sym (append-nil bs));
    unanswered = λ block h. cc;
  }

  append_reply-Replied :
      (env : Surroundings) (bs : List Bytes) (d : Option B) (reply : Bytes)
      → env.data_write ≡ complete
      → env.index_write ≡ complete
      → ReadsSender json
      → Replied bs (append_reply sv json env (holding bs) d reply).store
  unfolding append_reply
  append_reply-Replied env bs d reply whole full reads =
      let block = json.marshal (response_block reply env.now) in
      elim (Bool-cases (is_empty reply)) [
        | inl empty ↦ rw empty (unchanged-Replied bs)
        | inr other ↦
            rw (whole, full, append-holding bs block, other)
              (record {
                reply = some block;
                holds = refl;
                unanswered = λ b h.
                    subst IsUnanswered (ap (option_or block) h)
                      (response_block-IsUnanswered reply env.now reads);
              })
      ]

  after_post-Replied :
      (env : Surroundings) (bs : List Bytes) (d : Option B) (answer : Option (ℕ × Bytes))
      → env.data_write ≡ complete
      → env.index_write ≡ complete
      → ReadsSender json
      → Replied bs (after_post sv json env (holding bs) d answer).store
  after_post-Replied env bs d none whole full reads = unchanged-Replied bs
  after_post-Replied env bs d (some (status, body)) whole full reads =
      elim (Bool-cases (status == 200 || status == 201)) [
        | inl fine ↦ rw fine (decoded (json.decode body))
        | inr other ↦ rw other (unchanged-Replied bs)
      ]
    where
      decoded : (o : Option Object) → Replied bs (after_decoding sv json env (holding bs) d o).store
      decoded none = unchanged-Replied bs
      decoded (some o) = append_reply-Replied env bs d (reply_text o) whole full reads

  forward-Replied :
      (env : Surroundings) (bs : List Bytes) (d : Option B) (o : Option Object)
      → env.data_write ≡ complete
      → env.index_write ≡ complete
      → ReadsSender json
      → Replied bs (forward sv json env (holding bs) d o).store
  forward-Replied env bs d none whole full reads = unchanged-Replied bs
  forward-Replied env bs d (some o) whole full reads = elim (Bool-cases (is_forwarded o)) [
    | inl there ↦
        rw there
          (after_post-Replied env bs d (env.post (json.marshal (post_body o))) whole full reads)
    | inr other ↦ rw other (unchanged-Replied bs)
  ]

  -- If the JSON library reads the sender of what it has written, when it is ASCII, and the writes of the
  -- storage are complete: on any block, the bridge appends at most one block to the storage, and no gateway,
  -- in whatever state, posts that block to its agent or appends anything for it.
  pub on_append_block-Replied :
      (env : Surroundings) (bs : List Bytes) (d : Option B) (i : ℕ) (value : Bytes)
      → env.data_write ≡ complete
      → env.index_write ≡ complete
      → ReadsSender json
      → Replied bs (on_append_block sv json env (holding bs) d i value).store
  unfolding on_append_block
  on_append_block-Replied env bs d i value whole full reads =
      elim (Bool-cases (is_empty env.agentic_url)) [
        | inl off ↦ rw off (unchanged-Replied bs)
        | inr on ↦ rw on (forward-Replied env bs d (json.unmarshal value) whole full reads)
      ]

  -- A replicated message with a sender, not the agent, and a content, both texts and not empty, whose post with
  -- these two and the feed the agent's service answers with a status of 200 or 201 and an object with a reply
  -- that is not empty, while the writes of the storage are complete: a client that asks the gateway for the
  -- block behind those that were there gets, in base64, the JSON object with the agent as the sender, the time
  -- and the reply as the content.
  pub on_append_block-answered :
      (env : Surroundings) (bs : List Bytes) (d : Option B) (i : ℕ) (value : Bytes) (o : Object)
      (sender content : Bytes) (status : ℕ) (body : Bytes) (r : Object) (reply : Bytes)
      (around : Environment) (g : Gateway S B) (feed : Bytes)
      → is_empty env.agentic_url ≡ false
      → json.unmarshal value ≡ some o
      → string_field o sender_key ≡ some sender
      → is_empty sender ≡ false
      → bytes_eq sender agentic ≡ false
      → string_field o content_key ≡ some content
      → is_empty content ≡ false
      → env.post (
          json.marshal (
            (sender_key, text sender)
            ∷ (content_key, text content)
            ∷ (feed_key, text default_feed)
            ∷ []))
        ≡ some (status, body)
      → (status == 200 || status == 201) ≡ true
      → json.decode body ≡ some r
      → IsReply r reply
      → is_empty reply ≡ false
      → env.data_write ≡ complete
      → env.index_write ≡ complete
      → g.store ≡ some (on_append_block sv json env (holding bs) d i value).store
      → execute sv around g (get_request feed (number (length bs)))
        ≡ some (record {
          gateway = g;
          response = block_data (
              Base64.encode_to_string (
                json.marshal (
                  (sender_key, text agentic)
                  ∷ (timestamp_key, Bridge.number env.now)
                  ∷ (content_key, text reply)
                  ∷ [])));
          events = [];
        })
  unfolding on_append_block append_reply is_forwarded
  on_append_block-answered env bs d i value o sender content status body r reply around g feed url
        read from named other said worded posted fine answer replied spoken whole full there =
      let block = json.marshal (response_block reply env.now) in
      execute-get sv around g (bs ++ (block ∷ [])) feed block (length bs)
        (there
          ∙ ap some (
              rw
                (
                  url,
                  read,
                  from,
                  named,
                  other,
                  said,
                  worded,
                  posted,
                  fine,
                  answer,
                  reply_text-IsReply r reply replied,
                  spoken,
                  whole,
                  full,
                  append-holding bs block,
                )
                refl))
        (block_at-append bs block [])
