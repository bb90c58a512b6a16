-- ===== src/Utp/Relay.antt =====
-- pkg/utp/conn.go, DialUTPWithTimeoutAndRelay: the dialling with a TURN relay behind a failed direct one.
-- The result of the direct dialling, dialUTPWithTimeout, is an argument: it is that of dial_utp for a random
-- number from 1000 to 60999 and another time limit. The environment says what the system calls do and what
-- comes from the STUN channel of the mux before the deadline, in each of the two waits. What is sent comes
-- back with the result.
use keet_agent.Prelude.{
  Bool, true, false, ◌&&◌, List, [], ◌∷◌, ◌++◌, length, Option, none, some, leb, ◌==◌, slice,
  bytes_eq, if◌then◌else◌, ◌≡◌, refl, arith,
}
use keet_agent.Prelude.Result.{Result, ok, err, panic, is_ok}
use keet_agent.Bytes.{Bytes, get_uint}
use keet_agent.Utp.Conn.{UtpConn, DialError}
use keet_agent.Utp.Stun.{
  Address, build_allocate_request, parse_allocate_response, build_create_permission_request,
}

-- net.Addr: a *net.UDPAddr with an IPv4 address, one with another, or something else.
pub data RemoteAddr : Type 0 where
  udp_ipv4 : Address → RemoteAddr
  udp_other other_addr : RemoteAddr

-- The transaction IDs are random; `none` is an error of the random source.
pub record RelayEnvironment : Type 0 where
  pub is_resolved : Bool
  pub allocate_id : Option Bytes
  pub is_allocate_sent : Bool
  pub allocate_responses : List Bytes
  pub permission_id : Option Bytes
  pub is_permission_sent : Bool
  pub permission_responses : List Bytes

pub data RelayError : Type 0 where
  direct : DialError → RelayError
  not_resolved no_random send_failed allocation_timed_out ipv4_only permission_timed_out
        handshake_timed_out_over_relay :
      RelayError

pub record RelayDial : Type 0 where
  pub sent : List Bytes
  pub result : Result RelayError UtpConn

abbrev pub sending : List Bytes → RelayError → RelayDial
sending sent e = record { sent = sent; result = err e }

-- A wait: whether one of the responses passes the test.
awaited : (Bytes → Bool) → List Bytes → Bool
awaited test [] = false
awaited test (r ∷ rs) = if test r then true else awaited test rs

is_permission : Bytes → Bytes → Bool
is_permission tx_id r =
    leb 20 (length r) && get_uint 0 (slice r 0 2) == 0x0108 && bytes_eq (slice r 8 20) tx_id

-- Behind a CreatePermission request.
abbrev permission_wait : RelayEnvironment → List Bytes → Bytes → RelayDial
permission_wait env sent tx_id =
    if awaited (is_permission tx_id) env.permission_responses
    then sending sent handshake_timed_out_over_relay
    else sending sent permission_timed_out

abbrev permission : RelayEnvironment → List Bytes → Address → Option Bytes → RelayDial
permission env sent addr none = sending sent no_random
permission env sent addr (some tx_id) =
    let both = sent ++ (build_create_permission_request tx_id addr ∷ []) in
    if env.is_permission_sent then permission_wait env both tx_id else sending both send_failed

-- The type assertion addr.(*net.UDPAddr), and what comes behind it.
abbrev create_permission : RelayEnvironment → List Bytes → RemoteAddr → RelayDial
create_permission env sent (udp_ipv4 addr) = permission env sent addr env.permission_id
create_permission env sent udp_other =
    sending sent (elim (env.permission_id) [ none ↦ no_random | some tx_id ↦ ipv4_only ])
create_permission env sent other_addr = record { sent = sent; result = panic }

abbrev allocate_wait : RelayEnvironment → RemoteAddr → List Bytes → Bytes → RelayDial
allocate_wait env addr sent tx_id =
    if awaited (λ r. is_ok (parse_allocate_response r tx_id)) env.allocate_responses
    then create_permission env sent addr
    else sending sent allocation_timed_out

abbrev allocate : RelayEnvironment → RemoteAddr → Option Bytes → RelayDial
allocate env addr none = sending [] no_random
allocate env addr (some tx_id) =
    let sent = build_allocate_request tx_id ∷ [] in
    if env.is_allocate_sent then allocate_wait env addr sent tx_id else sending sent send_failed

abbrev relayed : RelayEnvironment → RemoteAddr → Bytes → DialError → RelayDial
relayed env addr [] e = sending [] (direct e)
relayed env addr (r ∷ relay) e =
    if env.is_resolved then allocate env addr env.allocate_id else sending [] not_resolved

unfoldable pub dial_with_relay :
    RelayEnvironment → RemoteAddr → Bytes → Result DialError UtpConn → RelayDial
unfolding awaited is_permission
dial_with_relay env addr relay (ok c) = record { sent = []; result = ok c }
dial_with_relay env addr relay (err e) = relayed env addr relay e
dial_with_relay env addr relay panic = record { sent = []; result = panic }

-- Whatever the relay answers, no connection comes of it.
abbrev IsFailure : RelayDial → Type 0
IsFailure d = is_ok d.result ≡ false

permission-IsFailure :
    (env : RelayEnvironment) (sent : List Bytes) (addr : Address) (tx_id : Option Bytes)
    → IsFailure (permission env sent addr tx_id)
permission-IsFailure env sent addr none = refl
permission-IsFailure env sent addr (some tx_id) = ground arith

create_permission-IsFailure :
    (env : RelayEnvironment) (sent : List Bytes) (addr : RemoteAddr)
    → IsFailure (create_permission env sent addr)
create_permission-IsFailure env sent (udp_ipv4 addr) =
    permission-IsFailure env sent addr env.permission_id
create_permission-IsFailure env sent udp_other = refl
create_permission-IsFailure env sent other_addr = refl

allocate-IsFailure :
    (env : RelayEnvironment) (addr : RemoteAddr) (tx_id : Option Bytes)
    → IsFailure (allocate env addr tx_id)
allocate-IsFailure env addr none = refl
allocate-IsFailure env addr (some tx_id) =
    ground (arith, create_permission-IsFailure env (build_allocate_request tx_id ∷ []) addr)

relayed-IsFailure :
    (env : RelayEnvironment) (addr : RemoteAddr) (relay : Bytes) (e : DialError)
    → IsFailure (relayed env addr relay e)
relayed-IsFailure env addr [] e = refl
relayed-IsFailure env addr (r ∷ relay) e =
    ground (arith, allocate-IsFailure env addr env.allocate_id)

-- A dialling with a relay returns a connection if and only if the direct dialling does: whatever the relay
-- answers to the requests, a failed direct dialling stays failed.
pub dial_with_relay-is_ok :
    (env : RelayEnvironment) (addr : RemoteAddr) (relay : Bytes) (r : Result DialError UtpConn)
    → is_ok (dial_with_relay env addr relay r).result ≡ is_ok r
unfolding dial_with_relay
dial_with_relay-is_ok env addr relay (ok d) = refl
dial_with_relay-is_ok env addr relay (err why) = relayed-IsFailure env addr relay why
dial_with_relay-is_ok env addr relay panic = refl
