-- ===== src/Examples/Utp.antt =====
-- Examples for pkg/utp.
use keet_agent.Prelude.{ℕ, ◌*◌, ◌/◌, ◌≤◌, ◌<◌, ap₂, List, [], ◌∷◌, ◌≡◌, refl, arith}
use keet_agent.Prelude.Result.{ok}
use keet_agent.Bytes.{Bytes}
use native.Mathlib.Nat.{mul-le-mul, div-add-mod', le_of_mul-le-mul_right}
use keet_agent.Utp.Packet.{Packet, encode, decode_packet}
use keet_agent.Utp.Packet.Codec.{decode_packet-encode}
use keet_agent.Utp.Reliability.{millisecond}
use keet_agent.Utp.Congestion.{
  Change, growth, shrinkage, Floats, new_ledbat_controller, CongestionEvent, measured, acked,
  run_events,
}
use keet_agent.Utp.Congestion.Window.{IsFloats, delays, IsController, Steers, run_events-Steers}

abbrev numbered : ℕ → Packet
numbered n = record {
  header = record {
    msg_type = 0;
    version = 1;
    ext = 0;
    conn_id = 513;
    t_micro = 70000;
    t_diff = 2;
    wnd_size = 1000;
    seq_num = n;
    ack_num = 5;
  };
  payload = 1 ∷ 2 ∷ [];
}

decode_packet-encode_example : decode_packet (encode (numbered 9)) ≡ ok (numbered 9)
decode_packet-encode_example = decode_packet-encode (numbered 9) (ground arith)

abbrev datagram : Bytes
datagram =
    33 ∷ 0 ∷ 2 ∷ 1 ∷ 0 ∷ 0 ∷ 0 ∷ 7 ∷ 0 ∷ 0 ∷ 0 ∷ 2 ∷ 0 ∷ 0 ∷ 3 ∷ 232 ∷ 0 ∷ 9 ∷ 0 ∷ 5 ∷ 1 ∷ 2 ∷ []

abbrev received : Packet
received = record {
  header = record {
    msg_type = 2;
    version = 1;
    ext = 0;
    conn_id = 513;
    t_micro = 7;
    t_diff = 2;
    wnd_size = 1000;
    seq_num = 9;
    ack_num = 5;
  };
  payload = 1 ∷ 2 ∷ [];
}

decoded_datagram : decode_packet datagram ≡ ok received
unfolding decode_packet
decoded_datagram = refl

-- Numbers of so few digits that every result is cut to a whole number.
abbrev product : Change → Change → Change
product (growth a) (growth b) = growth (a * b)
product (growth a) (shrinkage b) = shrinkage (a * b)
product (shrinkage a) (growth b) = shrinkage (a * b)
product (shrinkage a) (shrinkage b) = growth (a * b)

abbrev quotient : Change → Change → Change
quotient (growth a) (growth b) = growth (a / b)
quotient (growth a) (shrinkage b) = shrinkage (a / b)
quotient (shrinkage a) (growth b) = shrinkage (a / b)
quotient (shrinkage a) (shrinkage b) = growth (a / b)

abbrev whole : Floats
whole = record { Float = Change; of_int = λ x. x; mul = product; div = quotient; to_int = λ x. x }

abbrev IsUp : Change → ℕ → Type 0
IsUp x n = (k : ℕ) × (k ≤ n) × (x ≡ growth k)

abbrev IsDown : Change → ℕ → Type 0
IsDown x n = (k : ℕ) × (k ≤ n) × (x ≡ shrinkage k)

quotient-le : (a b q : ℕ) → 0 < b → a ≤ q * b → a / b ≤ q
quotient-le a b q positive le =
    le_of_mul-le-mul_right (omega (arith, div-add-mod' a b, le)) positive

whole-IsFloats : IsFloats whole
whole-IsFloats = record {
  Up = IsUp;
  Down = IsDown;
  of_int-Up = λ k h. (k, omega arith, refl);
  mul-Up = λ x y n m (a, p, e) (b, q, f) h. (a * b, mul-le-mul p q, ap₂ product e f);
  mul-Up_Down = λ x y n m (a, p, e) (b, q, f) h. (a * b, mul-le-mul p q, ap₂ product e f);
  mul-Down_Up = λ x y n m (a, p, e) (b, q, f) h. (a * b, mul-le-mul p q, ap₂ product e f);
  div-Up = λ a b q _ positive _ _ le. (a / b, quotient-le a b q positive le, refl);
  div-Down = λ a b q _ _ positive _ _ le. (a / b, quotient-le a b q positive le, refl);
  to_int-Up = λ x n up h. up;
  to_int-Down = λ x n down h. down;
}

-- A queue that fills.
abbrev calls : List CongestionEvent
calls =
    measured (20 * millisecond)
    ∷ acked
    ∷ measured (90 * millisecond)
    ∷ acked
    ∷ measured (400 * millisecond)
    ∷ acked
    ∷ []

run_events-Steers_example :
    IsController 1400 (delays [] calls) (run_events whole (new_ledbat_controller 1400) calls)
    × Steers whole (run_events whole (new_ledbat_controller 1400) calls)
run_events-Steers_example =
    run_events-Steers whole whole-IsFloats 1400 calls (omega arith) (omega arith)
      ((omega arith, omega arith), ((omega arith, omega arith), ((omega arith, omega arith), tt)))
