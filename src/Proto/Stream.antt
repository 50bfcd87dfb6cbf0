-- ===== src/Proto/Stream.antt =====
-- A stream of packets through DecodeBinaryPackets: each round by itself, whatever the fuel.
use hadock.Common.{
  ℕ, zero, suc, ◌+◌, ◌<◌, ◌≡◌, ◌≢◌, refl, ap, ◌∙◌, true, List, [], ◌∷◌, ◌++◌, some, arith, Bytes,
  length,
}
use hadock.Common.Endian.{be}
use hadock.Common.Reader.{ok}
use hadock.Proto.{
  Packet, preamble, decode_packet, decode_loop, decode_binary_packets, deliver, ends_stream,
  skipped, accepts_instance,
}
use hadock.Proto.Progress.{decode_packet-Shrinks, decode_packet_empty}
use hadock.Proto.RoundTrip.{decode_packet_skip}

-- Any two amounts of fuel above the length of the input give the same.
decode_loop_fuel :
    (f g : ℕ) (is : List ℕ) (r : Bytes)
    → length r < f
    → length r < g
    → decode_loop f is r ≡ decode_loop g is r
unfolding decode_loop
decode_loop_fuel zero g is r h k = absurd (omega arith)
decode_loop_fuel (suc f) zero is r h k = absurd (omega arith)
decode_loop_fuel (suc f) (suc g) is [] h k =
    rw decode_packet_empty (unfold deliver ends_stream in refl)
decode_loop_fuel (suc f) (suc g) is (b ∷ r) h k =
    let shorter = decode_packet-Shrinks.strictly (b ∷ r) (omega arith) in
    rw (decode_loop_fuel f g is (decode_packet (b ∷ r)).1 (omega arith) (omega arith))

-- One round: what `decode_packet` returns is dealt with, and the rest of the input is the next
-- stream. (An empty input is no round.)
pub decode_binary_packets_step :
    (is : List ℕ) (r : Bytes)
    → 0 < length r
    → decode_binary_packets is r
      ≡ deliver is (decode_binary_packets is (decode_packet r).1) (decode_packet r).0
unfolding decode_binary_packets
decode_binary_packets_step is r h =
    let shorter = decode_packet-Shrinks.strictly r h in
    unfold decode_loop in
    ap (λ rest. deliver is rest (decode_packet r).0)
      (decode_loop_fuel (length r) (suc (length (decode_packet r).1)) is (decode_packet r).1
        (omega arith) (omega arith))

pub decode_binary_packets_empty : (is : List ℕ) → decode_binary_packets is [] ≡ some []
unfolding decode_binary_packets decode_loop
decode_binary_packets_empty is = rw decode_packet_empty (unfold deliver ends_stream in refl)

-- A packet that decodes is sent if its instance passes, and the stream goes on behind it.
pub decode_binary_packets_ok :
    (is : List ℕ) (r rest : Bytes) (p : Packet)
    → decode_packet r ≡ (ok p, rest)
    → decode_binary_packets is r ≡ deliver is (decode_binary_packets is rest) (ok p)
decode_binary_packets_ok is [] rest p e = cc (ap (λ x. x.0) decode_packet_empty, ap (λ x. x.0) e)
decode_binary_packets_ok is (b ∷ r) rest p e =
    decode_binary_packets_step is (b ∷ r) (omega arith) ∙ rw e

-- A packet whose instance passes comes before those behind it.
pub decode_binary_packets_cons :
    (is : List ℕ) (r rest : Bytes) (p : Packet) (ps : List Packet)
    → decode_packet r ≡ (ok p, rest)
    → accepts_instance is p.instance_id ≡ true
    → decode_binary_packets is rest ≡ some ps
    → decode_binary_packets is r ≡ some (p ∷ ps)
unfolding deliver
decode_binary_packets_cons is r rest p ps e a h =
    decode_binary_packets_ok is r rest p e ∙ rw h (rw (a, deliver))

length-be_append : (v : ℕ) (rest : Bytes) → length (be 4 v ++ rest) ≡ 4 + length rest
unfolding be
length-be_append v rest = omega arith

-- Four bytes that are not the preamble are lost, and the stream goes on behind them.
pub decode_binary_packets_resync :
    (is : List ℕ) (magic : ℕ) (rest : Bytes)
    → magic < 4294967296
    → magic ≢ preamble
    → decode_binary_packets is (be 4 magic ++ rest) ≡ decode_binary_packets is rest
unfolding deliver ends_stream skipped
decode_binary_packets_resync is magic rest h ne =
    decode_binary_packets_step is (be 4 magic ++ rest) (omega (arith, length-be_append magic rest))
    ∙ rw (decode_packet_skip magic rest h ne)
