-- ===== src/Ipc/Client/Blocks.antt =====
-- The blocks that a local client appends and reads (pkg/ipc/socket.go).
use keet_agent.Prelude.{
  ℕ, ◌+◌, ◌<◌, All, true, List, [], ◌∷◌, ◌++◌, length, append_assoc, append-nil, none, some,
  bytes_eq, ◌≡◌, refl, sym, ap, ap₂, subst, ◌∙◌, length-append,
}
use keet_agent.Prelude.Result.{ok}
use keet_agent.Bytes.{Bytes}
use keet_agent.Encoding.Base64
use keet_agent.Hypercore.Storage.{complete}
use keet_agent.Hypercore.Storage.Refinement.{holding, append-holding, block_at, get-holding}
use keet_agent.Hypercore.Sync.Leaves.{len-holding}
use keet_agent.Ipc.Client.{
  Request, IndexValue, number, Response, appended, block_data, Gateway, Environment, ClientServices,
  Handled, Transcript, append_command, get_command, execute, append_block, get_stored,
  after_storage, client_loop, handle_client,
}

-- The requests of a client: to append a block, and to read one.
abbrev pub append_request : Bytes → Bytes → Request
append_request feed block = record {
  command = append_command;
  peer_key = [];
  topic = [];
  payload = Base64.encode_to_string block;
  feed_key = feed;
  signature = none;
  index = none;
}

abbrev pub get_request : Bytes → IndexValue → Request
get_request feed index = record {
  command = get_command;
  peer_key = [];
  topic = [];
  payload = [];
  feed_key = feed;
  signature = none;
  index = some index;
}

-- Writes succeed, and the response is sent.
pub record IsSmooth (env : Environment) : Type 0 where
  pub data_complete : env.data_write ≡ complete
  pub index_complete : env.index_write ≡ complete
  pub sent : env.is_sent ≡ true

-- A session that is authenticated: appends of the blocks, and a request behind them.
abbrev pub appends :
    Environment → Bytes → List Bytes → Environment × Request → List (Environment × Request)
appends env feed [] last = last ∷ []
appends env feed (d ∷ ds) last = (env, append_request feed d) ∷ appends env feed ds last

-- The responses to the appends: the indices from `n` on.
abbrev pub indices : ℕ → List Bytes → List Response
indices n [] = []
indices n (d ∷ ds) = appended n ∷ indices (n + 1) ds

module _ {S B : Type 0} (sv : ClientServices S B) where
  pub execute-append :
      (env : Environment) (g : Gateway S B) (bs : List Bytes) (feed block : Bytes)
      → IsSmooth env
      → All (λ b. b < 256) block
      → g.store ≡ some (holding bs)
      → (h : Handled S B) × (execute sv env g (append_request feed block) ≡ some h)
        × (h.gateway.store ≡ some (holding (bs ++ (block ∷ []))))
        × (h.response ≡ appended (length bs))
  unfolding execute append_block bytes_eq
  execute-append env g bs feed block smooth bytes e = (
    after_storage sv g (append_request feed block) (length bs) block
        (holding (bs ++ (block ∷ [])), ok tt),
    rw
        (
          e,
          Base64.decode_string-encode_to_string block bytes,
          smooth.data_complete,
          smooth.index_complete,
          append-holding bs block,
          len-holding bs,
        )
        refl,
    refl,
    refl,
  )

  pub execute-get :
      (env : Environment) (g : Gateway S B) (bs : List Bytes) (feed block : Bytes) (i : ℕ)
      → g.store ≡ some (holding bs)
      → block_at bs i ≡ ok block
      → execute sv env g (get_request feed (number i))
        ≡ some (record {
          gateway = g;
          response = block_data (Base64.encode_to_string block);
          events = [];
        })
  unfolding execute get_stored bytes_eq
  execute-get env g bs feed block i e at_i = rw (e, get-holding bs i, at_i) refl

  appends_run :
      (env : Environment) (g : Gateway S B) (bs ds : List Bytes) (feed block : Bytes) (i : ℕ)
      → IsSmooth env
      → All (All (λ b. b < 256)) ds
      → g.store ≡ some (holding bs)
      → block_at (bs ++ ds) i ≡ ok block
      → (o : Transcript S B) × (client_loop sv [] g true
            (appends env feed ds (env, get_request feed (number i)))
          ≡ some o)
        × (o.gateway.store ≡ some (holding (bs ++ ds)))
        × (o.responses
            ≡ indices (length bs) ds ++ (block_data (Base64.encode_to_string block) ∷ []))
  unfolding client_loop
  appends_run env g bs [] feed block i smooth bytes e at_i =
      let full : block_at bs i ≡ ok block = rw (← append-nil bs) at_i in
      (
        record {
          gateway = g;
          responses = block_data (Base64.encode_to_string block) ∷ [];
          events = [];
        },
        rw (client_loop, execute-get env g bs feed block i e full, smooth.sent) refl,
        e ∙ ap (λ (xs : List Bytes). some (holding xs)) (sym (append-nil bs)),
        refl,
      )
  appends_run env g bs (d ∷ ds) feed block i smooth (b, bytes) e at_i =
      let (h, done, store, response) = execute-append env g bs feed d smooth b e in
      let snoc : (bs ++ (d ∷ [])) ++ ds ≡ bs ++ (d ∷ ds) = append_assoc bs (d ∷ []) ds in
      let (o, rest, final, replies) =
        appends_run env h.gateway (bs ++ (d ∷ [])) ds feed block i smooth bytes store
          (subst (λ (xs : List Bytes). block_at xs i ≡ ok block) (sym snoc) at_i) in
      (
        record {
          gateway = o.gateway;
          responses = h.response ∷ o.responses;
          events = h.events ++ o.events;
        },
        rw (client_loop, done, smooth.sent, rest) refl,
        final ∙ ap (λ (xs : List Bytes). some (holding xs)) snoc,
        ap₂ ◌∷◌ response (
            replies
            ∙ ap (λ (n : ℕ). indices n ds ++ (block_data (Base64.encode_to_string block) ∷ []))
                (length-append bs (d ∷ []))),
      )

  -- A client of a gateway without a whitelist, whose storage holds some blocks and whose writes succeed,
  -- appends blocks of bytes and asks for an index below the number of all: the responses are the indices
  -- of the appended blocks in order and the block of the index, in base64, and the storage holds the old
  -- blocks and behind them the new ones.
  pub handle_client-appends :
      (env : Environment) (g : Gateway S B) (bs ds : List Bytes) (feed block : Bytes) (i : ℕ)
      → IsSmooth env
      → All (All (λ b. b < 256)) ds
      → g.store ≡ some (holding bs)
      → block_at (bs ++ ds) i ≡ ok block
      → (o : Transcript S B) × (handle_client sv [] g
            (appends env feed ds (env, get_request feed (number i)))
          ≡ some o)
        × (o.gateway.store ≡ some (holding (bs ++ ds)))
        × (o.responses
            ≡ indices (length bs) ds ++ (block_data (Base64.encode_to_string block) ∷ []))
  unfolding handle_client
  handle_client-appends env g bs ds feed block i smooth bytes e at_i =
      appends_run env g bs ds feed block i smooth bytes e at_i
