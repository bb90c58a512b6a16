-- ===== src/Dht/Dispatcher.antt =====
-- pkg/dht/dispatcher.go: requests, and the responses that are matched to them by the transaction ID.
-- The sync.Map is a function, whose entry is the channel that SendRequest waits at: the requests that
-- wait at one time have different transaction IDs, and no response is still to be read when an entry
-- expires. A datagram is handled at once, and its handler is one step.
pub mod Exchange
use keet_agent.Prelude.{
  ℕ, zero, suc, ◌+◌, Bool, true, false, ◌||◌, List, [], Option, none, some, ltb, ◌==◌,
  if◌then◌else◌, bytes_eq,
}
use keet_agent.Prelude.Result.{Result, ok, err, panic}
use keet_agent.Bytes.{Bytes}
use keet_agent.Dht.Node.{Addr, DhtNode, handle_request}
use keet_agent.Dht.Rpc.{
  Message, RpcError, encode_message, decode_message, msg_pong, msg_find_node_resp, msg_lookup_resp,
}

-- The channel, which holds one message, and the time in milliseconds.
pub record PendingRequest : Type 0 where
  pub response : Option Message
  pub expiry : ℕ

pub record Dispatcher : Type 0 where
  pub node : DhtNode
  pub pending : Bytes → Option PendingRequest

abbrev pub store :
    (Bytes → Option PendingRequest) → Bytes → Option PendingRequest → Bytes → Option PendingRequest
store m k v j = if bytes_eq j k then v else m j

abbrev pub is_response : ℕ → Bool
is_response kind = kind == msg_pong || kind == msg_find_node_resp || kind == msg_lookup_resp

-- select { case pr.responseChan <- m: default: }
abbrev pub offer : Message → PendingRequest → PendingRequest
offer m pr = elim pr.response [ none ↦ record pr { response = some m } | some first ↦ pr ]

abbrev pub offer_loaded : Message → Option PendingRequest → Option PendingRequest
offer_loaded m none = none
offer_loaded m (some pr) = some (offer m pr)

abbrev pub deliver : Dispatcher → Message → Dispatcher
deliver d m = record d { pending = store d.pending m.tx_id (offer_loaded m (d.pending m.tx_id)) }

abbrev pub datagram : Result RpcError Bytes → Option Bytes
datagram (ok data_) = some data_
datagram (err e) = none
datagram panic = none

-- What the goroutine of a request writes.
abbrev pub answer : Bytes → Option Message → Option Bytes
answer tx_id none = none
answer tx_id (some resp) = datagram (encode_message (some (record resp { tx_id = tx_id })))

abbrev pub serve : Dispatcher → Message → Addr → Dispatcher × Option Bytes
serve d m src =
    let handled = handle_request d.node m src in
    (record d { node = handled.0 }, answer m.tx_id handled.1)

abbrev pub dispatch : Dispatcher → Addr → Result RpcError Message → Dispatcher × Option Bytes
dispatch d src (err e) = (d, none)
dispatch d src panic = (d, none)
dispatch d src (ok m) = if is_response m.kind then (deliver d m, none) else serve d m src

-- One round of readLoop, and the datagram that is written back.
pub handle_datagram : Dispatcher → Bytes → Addr → Dispatcher × Option Bytes
handle_datagram d data_ src = dispatch d src (decode_message data_)

abbrev pub new_request : ℕ → PendingRequest
new_request now = record { response = none; expiry = now + 5000 }

-- Without a datagram the entry is deleted again.
abbrev pub sent_or_dropped : Dispatcher → Bytes → Option Bytes → Dispatcher × Option Bytes
sent_or_dropped d tx_id none = (record d { pending = store d.pending tx_id none }, none)
sent_or_dropped d tx_id (some data_) = (d, some data_)

-- SendRequest up to WriteTo: with no datagram it ends in the error of EncodeMessage.
pub send_request : ℕ → Dispatcher → Message → Dispatcher × Option Bytes
send_request now d req =
    let stored = record d { pending = store d.pending req.tx_id (some (new_request now)) } in
    sent_or_dropped stored req.tx_id (datagram (encode_message (some req)))

abbrev pub received : Option PendingRequest → Option Message
received none = none
received (some pr) = pr.response

-- The select of SendRequest, where the response is there before the timeout; `none` is the timeout.
pub await_response : Dispatcher → Bytes → Dispatcher × Option Message
await_response d tx_id =
    (record d { pending = store d.pending tx_id none }, received (d.pending tx_id))

abbrev pub unexpired : ℕ → Option PendingRequest → Option PendingRequest
unexpired now none = none
unexpired now (some pr) = if ltb pr.expiry now then none else some pr

-- A tick of cleanupLoop.
clean_up : ℕ → Dispatcher → Dispatcher
clean_up now d = record d { pending = λ tx_id. unexpired now (d.pending tx_id) }
