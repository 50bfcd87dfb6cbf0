-- ===== src/Proto/Progress.antt =====
-- The decoders of proto.go on any input: they take input, and their loops end.
use hadock.Common.{
  ℕ, zero, suc, ◌+◌, ◌<◌, ◌≡◌, ◌≢◌, refl, ap, Option, List, [], ◌∷◌, ◌++◌, some, inl, inr,
  Bool-cases, arith, Bytes, length, ◌==◌, if◌then◌else◌,
}
use hadock.Common.Reader.{
  Result, Error, ok, err, eof, skip, out_of_fuel, version_mismatched, unsupported_protocol, Reader,
  pure, fail, ◌>>=◌, read_full, read_be,
}
use hadock.Common.Reader.Progress.{
  Takes, Takes-zero, Shrinks, Runs, fail-Takes, fail-Runs, runs_rules, bind-Shrinks, bind-Runs,
  bind-RunsBelow, RunsBelow, RunsBelow-le, Runs-RunsBelow, if-RunsBelow, pure-Runs, read_be-Shrinks,
  takes_rules, and_then-fuelled,
}
use hadock.Proto.{
  Packet, new_packet, read_preamble, read_packet, read_fragment, read_fragments, join_fragments,
  decode_body, packet_of_prefix, decode_packet, decode_loop, decode_binary_packets,
  accepts_instance, ends_stream, skipped, deliver,
}

skip-Runs : {A : Type 0} → Runs {A = A} (fail skip)
skip-Runs = fail-Runs skip (λ e. cc)

mismatch-Runs : {A : Type 0} (x y : ℕ) → Runs {A = A} (fail (version_mismatched x y))
mismatch-Runs x y = fail-Runs (version_mismatched x y) (λ e. cc)

unsupported-Runs : {A : Type 0} → Runs {A = A} (fail unsupported_protocol)
unsupported-Runs = fail-Runs unsupported_protocol (λ e. cc)

pub read_preamble-Takes : Takes 4 read_preamble
unfolding read_preamble
read_preamble-Takes = search takes_rules

read_preamble-Runs : Runs read_preamble
unfolding read_preamble
read_preamble-Runs = search (runs_rules, skip-Runs)

pub read_packet-Takes : (p : Packet) → Takes 2 (read_packet p)
unfolding read_packet
read_packet-Takes p = search takes_rules

read_packet-Takes_zero : (p : Packet) → Takes 0 (read_packet p)
read_packet-Takes_zero p = Takes-zero 2 (read_packet p) (read_packet-Takes p)

read_packet-Runs : (p : Packet) → Runs (read_packet p)
unfolding read_packet
read_packet-Runs p = search runs_rules

read_fragment-Takes : (p : Packet) → Takes 2 (read_fragment p)
unfolding read_fragment
read_fragment-Takes p = search (takes_rules, read_packet-Takes_zero)

read_fragment-Takes_zero : (p : Packet) → Takes 0 (read_fragment p)
read_fragment-Takes_zero p = Takes-zero 2 (read_fragment p) (read_fragment-Takes p)

read_fragment-Runs : (p : Packet) → Runs (read_fragment p)
unfolding read_fragment
read_fragment-Runs p = search (runs_rules, read_packet-Runs)

read_preamble-Takes_zero : Takes 0 read_preamble
read_preamble-Takes_zero = Takes-zero 4 read_preamble read_preamble-Takes

read_fragments-Takes :
    (fuel prefix : ℕ) (ps : List Packet) → Takes 0 (read_fragments fuel prefix ps)
unfolding read_fragments
read_fragments-Takes zero prefix ps = fail-Takes out_of_fuel
read_fragments-Takes (suc fuel) prefix ps =
    search
      (takes_rules, read_fragment-Takes_zero, read_preamble-Takes_zero, read_fragments-Takes fuel)

-- What follows a fragment that is not the last, over any continuation of the loop.
next_fragment-RunsBelow :
    (fuel prefix : ℕ) (m : Reader (List Packet × Packet))
    → RunsBelow fuel m
    → RunsBelow fuel
        (read_preamble >>= λ x. if x == prefix then m else fail (version_mismatched prefix x))
next_fragment-RunsBelow fuel prefix m h = RunsBelow-le fuel (fuel + 4) _ (omega arith) (
    bind-RunsBelow 4 fuel read_preamble _ read_preamble-Takes read_preamble-Runs
      (λ x. if-RunsBelow fuel (x == prefix) m _ h (Runs-RunsBelow fuel _ (mismatch-Runs prefix x))))

-- Each fragment takes two bytes at least, so fuel above the length of the input is enough.
read_fragments-RunsBelow :
    (fuel prefix : ℕ) (ps : List Packet) → RunsBelow fuel (read_fragments fuel prefix ps)
unfolding read_fragments
read_fragments-RunsBelow zero prefix ps = record { fuelled_below = λ r lt. absurd (omega arith) }
read_fragments-RunsBelow (suc fuel) prefix ps = RunsBelow-le (suc fuel) (fuel + 2) _ (omega arith) (
    bind-RunsBelow 2 fuel (read_fragment new_packet) _ (read_fragment-Takes new_packet)
      (read_fragment-Runs new_packet)
      (λ a. if-RunsBelow fuel a.1 _ _ (Runs-RunsBelow fuel _ (pure-Runs (ps ++ (a.0 ∷ []), a.0))) (
        next_fragment-RunsBelow fuel prefix _
          (read_fragments-RunsBelow fuel prefix (ps ++ (a.0 ∷ []))))))

-- The fragmented branch of `decode_body`, at the fuel that it is given.
fragmented-Takes :
    (p : Packet) (fuel prefix : ℕ)
    → Takes 0 (read_fragments fuel prefix [] >>= λ a. pure (join_fragments p a.0 a.1))
fragmented-Takes p fuel prefix = search (takes_rules, read_fragments-Takes fuel)

fragmented-RunsBelow :
    (p : Packet) (fuel prefix : ℕ)
    → RunsBelow fuel (read_fragments fuel prefix [] >>= λ a. pure (join_fragments p a.0 a.1))
unfolding ◌>>=◌
fragmented-RunsBelow p fuel prefix = record {
  fuelled_below = λ r lt.
      and_then-fuelled (read_fragments fuel prefix [] r).0 _ _
        ((read_fragments-RunsBelow fuel prefix []).fuelled_below r lt)
        (λ a e. (pure-Runs (join_fragments p a.0 a.1)).fuelled _);
}

decode_body-Takes : (p : Packet) (prefix : ℕ) → Takes 0 (decode_body p prefix)
unfolding decode_body
decode_body-Takes p prefix = record {
  shorter = λ r. ground (
    arith,
    (read_packet-Takes_zero p).shorter r,
    (fragmented-Takes p (suc (length r)) prefix).shorter r,
    (fail-Takes {A = Packet} unsupported_protocol).shorter r,
  );
  takes = λ r a e. ground (
    arith,
    (read_packet-Takes_zero p).takes r a,
    (fragmented-Takes p (suc (length r)) prefix).takes r a,
    (fail-Takes {A = Packet} unsupported_protocol).takes r a,
  );
}

decode_body-Runs : (p : Packet) (prefix : ℕ) → Runs (decode_body p prefix)
unfolding decode_body
decode_body-Runs p prefix = record {
  fuelled = λ r. ground (
    arith,
    (read_packet-Runs p).fuelled r,
    (fragmented-RunsBelow p (suc (length r)) prefix).fuelled_below r,
    (unsupported-Runs {A = Packet}).fuelled r,
  );
}

pub decode_packet-Takes : Takes 4 decode_packet
unfolding decode_packet
decode_packet-Takes = search (takes_rules, read_preamble-Takes, decode_body-Takes)

read_preamble-Shrinks : Shrinks read_preamble
unfolding read_preamble
read_preamble-Shrinks =
    bind-Shrinks (read_be 4) _ (read_be-Shrinks 4 (omega arith)) (λ magic. search takes_rules)

pub decode_packet-Shrinks : Shrinks decode_packet
unfolding decode_packet
decode_packet-Shrinks =
    bind-Shrinks read_preamble _ read_preamble-Shrinks
      (λ prefix. decode_body-Takes (packet_of_prefix prefix) prefix)

-- On every input the loop over the fragments of a packet ends before its fuel does.
decode_packet-fuelled : (r : Bytes) → (decode_packet r).0 ≢ err out_of_fuel
unfolding decode_packet
decode_packet-fuelled =
    (bind-Runs read_preamble _ read_preamble-Runs
      (λ prefix. decode_body-Runs (packet_of_prefix prefix) prefix)).fuelled

pub decode_packet_empty : decode_packet [] ≡ (err eof, [])
unfolding decode_packet read_preamble read_be read_full ◌>>=◌
decode_packet_empty = refl

skipped-rest : (e : Error) (rest : Option (List Packet)) → e ≢ out_of_fuel → skipped e rest ≡ rest
unfolding skipped
skipped-rest out_of_fuel rest h = absurd (h refl)
skipped-rest _ rest h = refl

deliver_total :
    (is : List ℕ) (qs : List Packet) (x : Result Packet)
    → x ≢ err out_of_fuel
    → (ps : List Packet) × (deliver is (some qs) x ≡ some ps)
unfolding deliver
deliver_total is qs (ok p) l = elim (Bool-cases (accepts_instance is p.instance_id)) [
  | inl e ↦ (p ∷ qs, rw (e, deliver))
  | inr e ↦ (qs, rw (e, deliver))
]
deliver_total is qs (err e) l = elim (Bool-cases (ends_stream e)) [
  | inl h ↦ ([], rw (h, deliver))
  | inr h ↦ (qs, rw (h, deliver) (skipped-rest e (some qs) (λ q. l (ap err q))))
]

pub decode_loop_total :
    (fuel : ℕ) (is : List ℕ) (r : Bytes)
    → length r < fuel
    → (ps : List Packet) × (decode_loop fuel is r ≡ some ps)
unfolding decode_loop
decode_loop_total zero is r h = absurd (omega arith)
decode_loop_total (suc fuel) is [] h =
    ([], rw (decode_packet_empty, decode_loop) (unfold deliver ends_stream in refl))
decode_loop_total (suc fuel) is (b ∷ r) h =
    let shorter = decode_packet-Shrinks.strictly (b ∷ r) (omega arith) in
    let (qs, e) = decode_loop_total fuel is (decode_packet (b ∷ r)).1 (omega arith) in
    let (ps, d) = deliver_total is qs (decode_packet (b ∷ r)).0 (decode_packet-fuelled (b ∷ r)) in
    (ps, rw e d)

-- DecodeBinaryPackets comes to the end of every finite stream: neither its loop nor any of its loops
-- over the fragments of a packet runs out of fuel.
pub decode_binary_packets_total :
    (is : List ℕ) (r : Bytes) → (ps : List Packet) × (decode_binary_packets is r ≡ some ps)
unfolding decode_binary_packets
decode_binary_packets_total is r = decode_loop_total (suc (length r)) is r (omega arith)
