-- ===== src/Replay/Whole.antt =====
-- Packets that `replay` sends in one piece (preparePacketV1), read by DecodeBinaryPackets.
use hadock.Common.{
  ℕ, ◌+◌, ◌%◌, ◌≡◌, ◌<◌, refl, sym, ap, ◌∙◌, true, false, none, some, List, [], ◌∷◌, ◌++◌, arith,
  Bytes, length, append-nil, ◌||◌, elem, ◌==◌, u16, u32, append_assoc, All,
}
use hadock.Common.Endian.{be}
use hadock.Common.Reader.{ok}
use hadock.Proto.{Packet, preamble, decode_packet, decode_binary_packets}
use hadock.Proto.Instances.{accepts_instance-elem}
use hadock.Proto.RoundTrip.{packet_v1, packet_bytes, decode_packet_v1}
use hadock.Proto.Stream.{decode_binary_packets_cons, decode_binary_packets_empty}
use hadock.Replay.{
  Conn, Replay, packet_head, prepare_packet_v1, Run, run_replay, replay_round, write, write_packet,
  copy,
}

-- The packet that is to arrive.
abbrev pub sent_packet : (Bytes → ℕ) → Replay → Bytes → Packet
sent_packet sum1071_bis r bs = record (packet_v1 r.version) {
  sequence = r.counter;
  payload_length = length bs;
  payload = bs;
  sum = u16 (sum1071_bis (packet_head r bs));
}

packet_head_bytes :
    (r : Replay) (bs rest : Bytes) (sum : ℕ)
    → length bs < 4294967296
    → (packet_head r bs ++ be 2 sum) ++ rest
      ≡ be 4 preamble ++ (be 2 r.version ++ packet_bytes r.counter (length bs) bs sum rest)
unfolding packet_head packet_bytes
packet_head_bytes r bs rest sum h =
    let e : u32 (length bs) ≡ length bs = omega arith in rw e (simp append_assoc)

-- A packet sent whole is read back, with its payload and its number, and what follows is left.
pub decode_packet-prepare_packet_v1 :
    (sum1071_bis : Bytes → ℕ) (r : Replay) (bs rest : Bytes)
    → r.version < 4096
    → r.counter < 65536
    → length bs < 4294967296
    → decode_packet (prepare_packet_v1 sum1071_bis r bs ++ rest)
      ≡ (ok (sent_packet sum1071_bis r bs), rest)
unfolding prepare_packet_v1
decode_packet-prepare_packet_v1 sum1071_bis r bs rest hv hc hl =
    rw (packet_head_bytes r bs rest (u16 (sum1071_bis (packet_head r bs))) hl) (
      decode_packet_v1 r.version r.counter (length bs) bs (u16 (sum1071_bis (packet_head r bs)))
        rest hv hc hl refl (omega arith))

-- The packets of a queue, each under the number that its turn gives it.
unfoldable pub sent_packets : (Bytes → ℕ) → Replay → List Bytes → List Packet
sent_packets sum1071_bis r [] = []
sent_packets sum1071_bis r (bs ∷ queue) =
    sent_packet sum1071_bis r bs
    ∷ sent_packets sum1071_bis (record r { counter = u16 (r.counter + 1) }) queue

-- Payloads that a packet can carry.
abbrev pub IsSendable : Bytes → Type 0
IsSendable bs = (0 < length bs) × (length bs < 4294967296)

-- Over a connection that takes all it is sent, the bytes of a run are the packets one by one.
run_bytes : (Bytes → ℕ) → Replay → List Bytes → Bytes
run_bytes sum1071_bis r [] = []
run_bytes sum1071_bis r (bs ∷ queue) =
    prepare_packet_v1 sum1071_bis r bs
    ++ run_bytes sum1071_bis (record r { counter = u16 (r.counter + 1) }) queue

-- A round over such a connection, where the packet goes out whole.
replay_round_whole :
    (sum1071_bis : Bytes → ℕ) (s : Run) (bs : Bytes)
    → s.replay.size ≡ 0
    → s.conn.outcomes ≡ []
    → 0 < length bs
    → ((replay_round sum1071_bis s bs).1 ≡ false)
      × ((replay_round sum1071_bis s bs).0.replay
          ≡ record s.replay { counter = u16 (s.replay.counter + 1) })
      × ((replay_round sum1071_bis s bs).0.conn ≡ record s.conn {
        received = s.conn.received ++ prepare_packet_v1 sum1071_bis s.replay bs;
      })
unfolding replay_round write write_packet copy
replay_round_whole sum1071_bis s [] hs ho hb = absurd (omega arith)
replay_round_whole sum1071_bis s (b ∷ bs) hs ho hb = ground arith

run_replay-received :
    (sum1071_bis : Bytes → ℕ) (s : Run) (queue : List Bytes)
    → s.replay.size ≡ 0
    → s.conn.outcomes ≡ []
    → All IsSendable queue
    → (run_replay sum1071_bis none s queue).conn.received
      ≡ s.conn.received ++ run_bytes sum1071_bis s.replay queue
unfolding run_replay run_bytes
run_replay-received sum1071_bis s [] hs ho hq = sym (append-nil s.conn.received)
run_replay-received sum1071_bis s (bs ∷ queue) hs ho hq =
    let (go, er, ec) = replay_round_whole sum1071_bis s bs hs ho hq.0.0 in
    let s' = (replay_round sum1071_bis s bs).0 in
    rw go (
      run_replay-received sum1071_bis s' queue (cc) (cc) hq.1
      ∙ rw (er, ec) (append_assoc s.conn.received _ _))

decode_binary_packets-run_bytes :
    (sum1071_bis : Bytes → ℕ) (is : List ℕ) (r : Replay) (queue : List Bytes)
    → r.version < 4096
    → r.counter < 65536
    → (length is == 0 || elem ◌==◌ (r.version % 256) is) ≡ true
    → All IsSendable queue
    → decode_binary_packets is (run_bytes sum1071_bis r queue)
      ≡ some (sent_packets sum1071_bis r queue)
unfolding run_bytes sent_packets
decode_binary_packets-run_bytes sum1071_bis is r [] hv hc hi hq = decode_binary_packets_empty is
decode_binary_packets-run_bytes sum1071_bis is r (bs ∷ queue) hv hc hi hq =
    let next = record r { counter = u16 (r.counter + 1) } in
    decode_binary_packets_cons is _ (run_bytes sum1071_bis next queue)
      (sent_packet sum1071_bis r bs) _
      (decode_packet-prepare_packet_v1 sum1071_bis r bs _ hv hc hq.0.1)
      (accepts_instance-elem is (r.version % 256) ∙ hi)
      (decode_binary_packets-run_bytes sum1071_bis is next queue hv (omega arith) hi hq.1)

-- What `replay` sends without -s over a connection that takes all of it, DecodeBinaryPackets
-- delivers: each payload of the queue, whole and in order, as a packet numbered by its turn. The
-- packets' instance must be one that passes; payloads are neither empty nor 2^32 bytes long.
pub decode_binary_packets-run_replay :
    (sum1071_bis : Bytes → ℕ) (is : List ℕ) (s : Run) (queue : List Bytes)
    → s.replay.size ≡ 0
    → s.replay.version < 4096
    → s.replay.counter < 65536
    → s.conn ≡ record { received = []; outcomes = [] }
    → (length is == 0 || elem ◌==◌ (s.replay.version % 256) is) ≡ true
    → All IsSendable queue
    → decode_binary_packets is (run_replay sum1071_bis none s queue).conn.received
      ≡ some (sent_packets sum1071_bis s.replay queue)
decode_binary_packets-run_replay sum1071_bis is s queue hs hv hc ho hi hq =
    ap (decode_binary_packets is) (
      run_replay-received sum1071_bis s queue hs (ap (λ (c : Conn). c.outcomes) ho) hq
      ∙ ap (λ (c : Conn). c.received ++ run_bytes sum1071_bis s.replay queue) ho)
    ∙ decode_binary_packets-run_bytes sum1071_bis is s.replay queue hv hc hi hq
