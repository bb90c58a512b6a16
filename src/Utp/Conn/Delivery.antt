-- ===== src/Utp/Conn/Delivery.antt =====
-- From Write of one connection to handlePacket of the other (pkg/utp/conn.go).
use keet_agent.Prelude.{
  ℕ, zero, suc, ◌+◌, ◌%◌, ◌^◌, ◌≤◌, ◌<◌, true, false, List, [], ◌∷◌, ◌++◌, map, length, take, drop,
  All, Option, none, some, ◌≡◌, refl, sym, ap, ◌∙◌, arith, append_assoc, append-nil, length-append,
  Bool-cases, inl, inr,
}
use keet_agent.Prelude.Result.{Result, ok, ◌>>=◌}
use keet_agent.Bytes.{Bytes}
use keet_agent.Utp.Packet.{Packet, st_data, st_state}
use keet_agent.Utp.Conn.{
  UtpConn, is_connected, packet, WriteError, Reaction, Nothing, handle_packet, handle_data,
  ChunkFate, Transmission, Written, chunk_size, after_chunk, write_loop, write_conn,
}
use keet_agent.Utp.Conn.Stream.{concat, concat-append, pending, payloads, IsAcked, write_conn-acked}

-- The receiver's side: the packets of a list are handled one after the other.
pub deliver : UtpConn → List Packet → Result Nothing UtpConn
unfolding handle_packet
deliver c [] = ok c
deliver c (p ∷ ps) = handle_packet c p >>= λ r. deliver r.conn ps

abbrev pub IsData : Packet → Type 0
IsData p = p.header.msg_type ≡ st_data

handle_packet-data :
    (c : UtpConn) (p : Packet)
    → IsData p
    → length c.read_queue < 100
    → (r : Reaction) × (handle_packet c p ≡ ok r)
      × (r.conn.unread ≡ c.unread)
      × (r.conn.read_queue ≡ c.read_queue ++ (p.payload ∷ []))
unfolding handle_packet handle_data
handle_packet-data c p d room = (
  record {
    conn = record c { ack = p.header.seq_num; read_queue = c.read_queue ++ (p.payload ∷ []) };
    sent = packet st_state c.send_id 0 p.header.seq_num [] ∷ [];
    deregistered = false;
  },
  rw d (ground arith),
  refl,
  refl,
)

payloads_of : List Packet → List Bytes
payloads_of ps = map (λ (p : Packet). p.payload) ps

-- Data packets that find room are queued in their order.
deliver-pending :
    (c : UtpConn) (ps : List Packet)
    → All IsData ps
    → length c.read_queue + length ps ≤ 100
    → (c' : UtpConn) × (deliver c ps ≡ ok c') × (pending c' ≡ pending c ++ concat (payloads_of ps))
unfolding deliver payloads_of
deliver-pending c [] d room = (c, refl, sym (append-nil (pending c)))
deliver-pending c (p ∷ ps) (d, ds) room =
    let (r, reacted, unread, queue) = handle_packet-data c p d (omega arith) in
    let size : length r.conn.read_queue ≡ length c.read_queue + 1 =
      ap (λ (q : List Bytes). length q) queue ∙ length-append c.read_queue (p.payload ∷ []) in
    let (c', delivered, rest) = deliver-pending r.conn ps ds (omega (arith, size)) in
    let grown : pending r.conn ≡ pending c ++ p.payload =
      rw (unread, queue)
        (ap (◌++◌ c.unread) (concat-append c.read_queue p.payload)
          ∙ sym (append_assoc c.unread (concat c.read_queue) p.payload)) in
    (
      c',
      rw reacted delivered,
      rest
          ∙ ap (λ (b : Bytes). b ++ concat (payloads_of ps)) grown
          ∙ append_assoc (pending c) p.payload (concat (payloads_of ps)),
    )

abbrev pub packets : List Transmission → List Packet
packets ts = map (λ (t : Transmission). t.sent_packet) ts

payloads_of-packets : (ts : List Transmission) → payloads_of (packets ts) ≡ payloads ts
unfolding payloads_of
payloads_of-packets [] = refl
payloads_of-packets (t ∷ ts) = ap (◌∷◌ t.sent_packet.payload) (payloads_of-packets ts)

after_chunk-IsData :
    (next : UtpConn) (t : Transmission) (total : ℕ) (e : Option WriteError) (rest : Written)
    → IsData t.sent_packet
    → All IsData (packets rest.transmissions)
    → All IsData (packets (after_chunk next t total e rest).transmissions)
after_chunk-IsData next t total none rest d ds = (d, ds)
after_chunk-IsData next t total (some e) rest d ds = (d, tt)

write_loop-IsData :
    (fuel : ℕ) (c : UtpConn) (b : Bytes) (total : ℕ) (fate : ℕ → ChunkFate) (i : ℕ)
    → All IsData (packets (write_loop fuel c b total fate i).transmissions)
unfolding write_loop
write_loop-IsData fuel c [] total fate i = tt
write_loop-IsData zero c (x ∷ b) total fate i = tt
write_loop-IsData (suc fuel) c (x ∷ b) total fate i =
    let next : UtpConn = record c { seq = (c.seq + 1) % 2 ^ 16 } in
    let rest =
      write_loop-IsData fuel next (drop chunk_size (x ∷ b))
        (total + length (take chunk_size (x ∷ b))) fate (i + 1) in
    after_chunk-IsData next
      (record {
        sent_packet = packet st_data c.send_id next.seq c.ack (take chunk_size (x ∷ b));
        times = (fate i).sends;
      })
      total ((fate i).error)
      (write_loop fuel next (drop chunk_size (x ∷ b)) (total + length (take chunk_size (x ∷ b)))
        fate (i + 1))
      refl rest

write_conn-IsData :
    (c : UtpConn) (b : Bytes) (fate : ℕ → ChunkFate)
    → All IsData (packets (write_conn c b fate).transmissions)
unfolding write_conn
write_conn-IsData c b fate = elim (Bool-cases (is_connected c.state)) [
  | inl open_ ↦ rw open_ (write_loop-IsData (length b) c b 0 fate 0)
  | inr shut ↦ rw shut tt
]

-- The packets of a Write whose chunks are all acknowledged, handled once each and in order by a
-- connection with room for them, add exactly the bytes of the buffer to what can be read there.
pub write_conn-delivered :
    (sender receiver : UtpConn) (b : Bytes) (fate : ℕ → ChunkFate)
    → is_connected sender.state ≡ true
    → IsAcked fate
    → length receiver.read_queue + length (packets (write_conn sender b fate).transmissions) ≤ 100
    → (r : UtpConn) × (deliver receiver (packets (write_conn sender b fate).transmissions) ≡ ok r)
      × (pending r ≡ pending receiver ++ b)
write_conn-delivered sender receiver b fate open_ h room =
    let ts = (write_conn sender b fate).transmissions in
    let (_, _, whole, _) = write_conn-acked sender b fate open_ h in
    let (r, delivered, grown) =
      deliver-pending receiver (packets ts) (write_conn-IsData sender b fate) room in
    (
      r,
      delivered,
      grown
          ∙ ap (λ (x : List Bytes). pending receiver ++ concat x) (payloads_of-packets ts)
          ∙ ap (◌++◌ (pending receiver)) whole,
    )

-- A data packet that arrives twice, as after a lost acknowledgement, is read twice.
pub deliver_twice :
    (c : UtpConn) (p : Packet)
    → IsData p
    → length c.read_queue ≤ 98
    → (c' : UtpConn) × (deliver c (p ∷ p ∷ []) ≡ ok c')
      × (pending c' ≡ pending c ++ (p.payload ++ p.payload))
unfolding payloads_of
deliver_twice c p d room =
    let (c', delivered, grown) = deliver-pending c (p ∷ p ∷ []) (d, (d, tt)) (omega arith) in
    (
      c',
      delivered,
      grown ∙ ap (λ (x : Bytes). pending c ++ (p.payload ++ x)) (append-nil p.payload),
    )
