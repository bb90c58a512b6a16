-- ===== src/Lib.antt =====
-- Keet ADK gateway: the parts that decide what goes over a wire or onto a disk.
--
-- The program is a gateway that joins peer-to-peer swarms (pkg/dht), opens uTP connections to the peers
-- (pkg/utp), replicates feeds over them (pkg/hypercore) and keeps the feeds in files and in a database
-- (pkg/hypercore/storage.go, pkg/db). Local clients command it through pkg/ipc, and cmd/gateway/main.go passes
-- the replicated chat messages to them and to the HTTP service of an agent. A datagram is decoded by
-- pkg/utp/packet.go and handled by the connection of pkg/utp/conn.go; the retransmission queue and the timeout
-- of pkg/utp/reliability.go and the congestion window of pkg/utp/ledbat.go stand beside it and are not called
-- by it yet. The DHT datagrams are those of pkg/dht/rpc.go, which the dispatcher matches to its requests or
-- hands to the node; their senders go into the routing table and their peers into the swarm registry. Blocks
-- arrive in the messages of pkg/hypercore/wire.go at a session of pkg/hypercore/sync.go, which checks their
-- signatures under the Merkle root of pkg/hypercore/merkle.go and appends them to the storage; the session
-- writes to a connection that pkg/crypto/noise.go encrypts. pkg/network/protobuf.go has the same messages in
-- the protobuf form of the original protocol.
--
-- Bytes models encoding/binary and io.ReadFull, Prelude what all modules share. The other modules, each
-- with its proofs in child modules:
--
--   Hypercore/Wire         pkg/hypercore/wire.go         EncodeHandshake is encode_handshake, and so on
--   Hypercore/Storage      pkg/hypercore/storage.go      NewStorage, Append, Get, Len
--   Hypercore/Merkle       pkg/hypercore/merkle.go       HashLeaf, HashParent, ComputeRootHash
--   Hypercore/Extension    pkg/hypercore/extension.go    NegotiateExtensions
--   Hypercore/Sync         pkg/hypercore/sync.go         the handshake, readLoop, sendBlockData, the frames
--   Network/Protobuf       pkg/network/protobuf.go       the varints, the fields and the field loop
--   Network/Protobuf/Messages  the same file             Marshal and Unmarshal of the five messages
--   Network/Peers          pkg/network/tcp.go            the tables of PeerManager
--   Utp/Packet             pkg/utp/packet.go             Encode, DecodePacket
--   Utp/Reliability        pkg/utp/reliability.go        RTOCalculator, seqLessOrEqual, RetransmitQueue
--   Utp/Conn               pkg/utp/conn.go               UTPConn: DialUTP, handlePacket, Read, Write, Close
--   Utp/Mux                pkg/utp/mux.go, listener.go   SocketMux: readLoop and the tables; Accept
--   Utp/Relay              pkg/utp/conn.go               DialUTPWithTimeoutAndRelay
--   Utp/Congestion         pkg/utp/ledbat.go             LEDBATController
--   Utp/Stun               pkg/utp/stun.go, turn.go      the building and parsing of STUN and TURN messages
--   Crypto/Secure          pkg/crypto/noise.go           SecureConn: Write, Read and the frames
--   Logger/Rotator         pkg/logger/rotator.go         LogRotator: open, Write, rotate, pruneBackups
--   Db/Block               pkg/db/bbolt.go               encodeBlock, decodeBlock
--   Db/Bolt                pkg/db/bbolt.go               the two repositories, after Db/Repository (interfaces.go)
--   Ipc/Client             pkg/ipc/socket.go             HandleClient and its commands
--   Gateway/Bridge         cmd/gateway/main.go           OnAppendBlock, the bridge to the agent
--   Dht/Registry           pkg/dht/registry.go           SwarmRegistry
--   Dht/Routing            pkg/dht/routing.go            RoutingTable, the XOR distance
--   Dht/Rpc                pkg/dht/rpc.go                EncodeMessage, DecodeMessage
--   Dht/Node               pkg/dht/dht.go                handleRequest
--   Dht/Dispatcher         pkg/dht/dispatcher.go         readLoop, SendRequest and the pending requests
--   Dht/Search             pkg/dht/dht.go                iterativeFindNode
--   Dht/Swarm              pkg/dht/dht.go                Announce, Lookup, Leave
--   Dht/Bootstrap          pkg/dht/dht.go                Start, rehydrateSwarms, Stop
--   Dht/Topic              pkg/dht/topic.go              ResolveTopicKey
--   Dht/HostPort           Go's net and strconv          SplitHostPort, JoinHostPort, Itoa
--   Encoding               Go's encoding packages        base64 and hex, to texts and back
--   Examples               runs of all of these at concrete inputs
--
-- A Go string and a byte slice are a list of numbers below 256. A call returns a value, an error or a panic
-- (Prelude/Result). A method that locks its mutex is one step from state to state. Machine integers are
-- natural numbers with their wrap-around written out. Loops are recursion on the data, on the accessibility of
-- the order of the numbers (encodeVarint), or on a number of rounds: the length of the file for the index of a
-- storage, since a round takes 16 bytes of it, the number of leaves for the levels of a Merkle tree, since
-- every level is shorter, and the length of the frame for the field loop, since every round takes a byte at
-- least; likewise the length of the buffer for the chunks of Write. The hash, BLAKE2b, is a parameter, and so
-- are the bbolt database, the JSON library of the bridge and the floating-point arithmetic of LEDBAT.
--
-- What sockets, timers and a select with several ready cases do is an argument of the definitions. The
-- cipher states of a secure connection are functions of the number of the frame; the keys, zlib and the
-- database of a replication session are a record of functions (Services); what a contact answers to a query
-- of the search is a function of its ID, which is queried once at most; in the start of a node, of the target as
-- well, and its goroutines run one behind the other. The search takes a number of rounds,
-- and a round more than there are IDs is enough.
--
-- Not modelled: the goroutines and the deadlines around the connections, ICE (pkg/utp), the timers of the DHT
-- node and the choice of its bootstrap nodes, pkg/chat, the listening and the dialling of pkg/network/tcp.go;
-- the SQL databases (pkg/db), the calls of the Noise library in the handshake (pkg/crypto) and of slog
-- (pkg/logger), the socket of pkg/ipc, the configuration and the start-up code in cmd/gateway, which pass data
-- on or wait for it; and, of the files above, the opening and closing of files.
pub mod Prelude
pub mod Bytes
pub mod Gateway
pub mod Hypercore
pub mod Logger
pub mod Network
pub mod Utp
pub mod Db
pub mod Crypto
pub mod Dht
pub mod Encoding
pub mod Ipc
pub mod Examples
