-- ===== src/Dht/Dispatcher/Exchange.antt =====
-- A request of one dispatcher and the response of another (pkg/dht/dispatcher.go), where the transport
-- delivers both datagrams once.
use keet_agent.Prelude.{
  ℕ, ◌≤◌, true, false, Option, none, some, if◌then◌else◌, bytes_eq, bytes_eq_refl, ◌≡◌, ◌⊎◌, inl,
  inr, refl, ap, ◌∙◌, arith,
}
use keet_agent.Prelude.Result.{ok, >>=-eq-ok}
use keet_agent.Bytes.{Bytes}
use keet_agent.Dht.Rpc.{
  Message, encode_message, decode_message, msg_pong, msg_find_node_resp, msg_lookup_resp,
}
use keet_agent.Dht.Rpc.RoundTrip.{IsMessage, carried, decode_message-encode_message}
use keet_agent.Dht.Node.{Addr, handle_request}
use keet_agent.Dht.Node.Requests.{
  IsRequest, CanAnswer, IsReply, with_tx_id, handle_request-carried, handle_request-IsReply,
}
use keet_agent.Dht.Dispatcher.{
  PendingRequest, Dispatcher, store, is_response, offer_loaded, deliver, datagram, answer,
  handle_datagram, new_request, send_request, await_response,
}

abbrev relay : Option Bytes → Addr → Dispatcher → Dispatcher × Option Bytes
relay none src d = (d, none)
relay (some data_) src d = handle_datagram d data_ src

pub record Outcome : Type 0 where
  pub caller : Dispatcher
  pub callee : Dispatcher
  pub response : Option Message

-- The caller sends, the callee handles the datagram and writes one back, and the caller handles that.
pub exchange : ℕ → Dispatcher → Dispatcher → Message → Addr → Addr → Outcome
exchange now a b req src back =
    let sent = send_request now a req in
    let served = relay sent.1 src b in
    let heard = relay served.1 back sent.0 in
    let done = await_response heard.0 req.tx_id in
    record { caller = done.0; callee = served.0; response = done.1 }

encoded :
    (m : Message)
    → IsMessage m
    → 1 ≤ m.kind
    → m.kind ≤ 7
    → (data_ : Bytes) × (encode_message (some m) ≡ ok data_)
      × (decode_message data_ ≡ ok (carried m.kind m))
encoded m h l u =
    >>=-eq-ok (encode_message (some m)) decode_message (decode_message-encode_message m h l u)

request_range : (k : ℕ) → IsRequest k → (1 ≤ k) × (k ≤ 7) × (is_response k ≡ false)
request_range k (inl e) = rw e (omega arith, omega arith, refl)
request_range k (inr (inl e)) = rw e (omega arith, omega arith, refl)
request_range k (inr (inr (inl e))) = rw e (omega arith, omega arith, refl)
request_range k (inr (inr (inr e))) = rw e (omega arith, omega arith, refl)

response_range :
    (k : ℕ)
    → (k ≡ msg_pong) ⊎ ((k ≡ msg_find_node_resp) ⊎ (k ≡ msg_lookup_resp))
    → (1 ≤ k) × (k ≤ 7) × (is_response k ≡ true)
response_range k (inl e) = rw e (omega arith, omega arith, refl)
response_range k (inr (inl e)) = rw e (omega arith, omega arith, refl)
response_range k (inr (inr e)) = rw e (omega arith, omega arith, refl)

carried-kind : (k : ℕ) (m : Message) → (carried k m).kind ≡ m.kind
unfolding carried
carried-kind k m = ground arith

carried-tx_id : (k : ℕ) (m : Message) → (carried k m).tx_id ≡ m.tx_id
unfolding carried
carried-tx_id k m = ground arith

send_request-sent :
    (now : ℕ) (a : Dispatcher) (req : Message) (data_ : Bytes)
    → encode_message (some req) ≡ ok data_
    → send_request now a req
      ≡ (record a { pending = store a.pending req.tx_id (some (new_request now)) }, some data_)
unfolding send_request
send_request-sent now a req data_ e = rw e refl

handle_datagram-request :
    (b : Dispatcher) (req : Message) (data_ : Bytes) (src : Addr)
    → IsRequest req.kind
    → decode_message data_ ≡ ok (carried req.kind req)
    → handle_datagram b data_ src ≡ (
      record b { node = (handle_request b.node req src).0 },
      answer req.tx_id (handle_request b.node req src).1,
    )
unfolding handle_datagram carried
handle_datagram-request b req data_ src k e =
    let (_, _, asks) = request_range req.kind k in
    rw
      (
        e,
        carried-kind req.kind req,
        asks,
        carried-tx_id req.kind req,
        handle_request-carried b.node req src k,
      )
      refl

handle_datagram-response :
    (a : Dispatcher) (m : Message) (data_ : Bytes) (src : Addr)
    → is_response m.kind ≡ true
    → decode_message data_ ≡ ok m
    → handle_datagram a data_ src ≡ (deliver a m, none)
unfolding handle_datagram
handle_datagram-response a m data_ src k e = rw (e, k) refl

response_encoded :
    (tx_id : Bytes) (r : Message)
    → IsReply tx_id r
    → (data_ : Bytes) × (answer tx_id (some r) ≡ some data_)
      × (decode_message data_ ≡ ok (with_tx_id tx_id r))
response_encoded tx_id r h =
    let (low, high, _) = response_range r.kind h.kind in
    let (data_, enc, dec) = encoded (with_tx_id tx_id r) h.fits low high in
    (data_, ap datagram enc, dec ∙ ap ok h.whole)

-- The exchange of a request that its handler answers.
exchanged :
    (now : ℕ) (a b : Dispatcher) (req r : Message) (src back : Addr)
    → IsMessage req
    → IsRequest req.kind
    → (handle_request b.node req src).1 ≡ some r
    → IsReply req.tx_id r
    → let stored = store a.pending req.tx_id (some (new_request now)) in
      let after =
        await_response
          (deliver (record a { pending = stored }) (with_tx_id req.tx_id r))
          req.tx_id in
      exchange now a b req src back ≡ record {
        caller = after.0;
        callee = record b { node = (handle_request b.node req src).0 };
        response = after.1;
      }
unfolding exchange
exchanged now a b req r src back h k e reply =
    let (low, high, _) = request_range req.kind k in
    let (data_, enc, dec) = encoded req h low high in
    let (back_data, enc_back, dec_back) = response_encoded req.tx_id r reply in
    let (_, _, answers) = response_range r.kind reply.kind in
    let stored = store a.pending req.tx_id (some (new_request now)) in
    rw
      (
        send_request-sent now a req data_ enc,
        handle_datagram-request b req data_ src k dec,
        e,
        enc_back,
        handle_datagram-response (record a { pending = stored }) (with_tx_id req.tx_id r) back_data
            back answers dec_back,
      )
      refl

forgotten :
    (m : Bytes → Option PendingRequest) (k : Bytes) (u v : Option PendingRequest) (id : Bytes)
    → store (store (store m k u) k v) k none id ≡ (if bytes_eq id k then none else m id)
forgotten m k u v id = ground arith

-- SendRequest to a node that can answer: the callee's state is that of its handler, the response is the
-- handler's reply with the transaction ID of the request, and of the caller only the entry of that ID
-- is gone.
pub exchange_lem :
    (now : ℕ) (a b : Dispatcher) (req : Message) (src back : Addr)
    → IsMessage req
    → IsRequest req.kind
    → CanAnswer b.node req src
    → let done = exchange now a b req src back in
      let handled = handle_request b.node req src in
      (r : Message) × (handled.1 ≡ some r)
      × (done.response ≡ some (with_tx_id req.tx_id r))
      × (done.callee ≡ record b { node = handled.0 })
      × (done.caller.node ≡ a.node)
      × ((id : Bytes)
          → done.caller.pending id ≡ (if bytes_eq id req.tx_id then none else a.pending id))
unfolding await_response
exchange_lem now a b req src back h k can =
    let (r, e, reply) = handle_request-IsReply b.node req src can h.tx_size k in
    let run = exchanged now a b req r src back h k e reply in
    (
      r,
      e,
      rw (run, bytes_eq_refl req.tx_id) refl,
      ap (λ (o : Outcome). o.callee) run,
      ap (λ (o : Outcome). o.caller.node) run,
      λ id. rw run (
          forgotten a.pending req.tx_id (some (new_request now))
            (offer_loaded (with_tx_id req.tx_id r)
              (store a.pending req.tx_id (some (new_request now)) req.tx_id))
            id),
    )
