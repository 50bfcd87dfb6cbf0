-- ===== src/Tests/ProtoRuns.antt =====
-- proto.go at concrete inputs.
use hadock.Common.{◌≤◌, replicate, take, ◌≡◌, refl, List, [], ◌∷◌, ◌++◌, some, arith, Bytes}
use hadock.Common.Endian.{be, of_be}
use hadock.Common.Reader.{ok, ◌>>=◌, pure, fail, read_full, read_be}
use hadock.Common.Search.{found, search}
use hadock.Common.Sort.{sort_by}
use hadock.Proto.{
  Packet, new_packet, preamble, encode_packet, decode_packet, decode_binary_packets,
  accepts_instance, decode_loop, deliver, skipped, decode_body, packet_of_prefix, read_preamble,
  read_packet, ends_stream,
}
use hadock.Proto.Compressed.{View, new_decoder, payload_of, run}
use hadock.Proto.Compressed.Overwriting.{as_reads, views, run-overwrites}
use hadock.Proto.Progress.{decode_binary_packets_total}
use hadock.Proto.RoundTrip.{IsWritable, IsVersion1, decode_packet-encode_packet}

-- A packet of OPS with three bytes.
abbrev sample : Packet
sample = record new_packet {
  instance_id = 255;
  sequence = 7;
  payload_length = 3;
  payload = 1 ∷ 2 ∷ 3 ∷ [];
  sum = 513;
}

abbrev sample_bytes : Bytes
sample_bytes = 0 ∷ 255 ∷ 0 ∷ 7 ∷ 0 ∷ 0 ∷ 0 ∷ 3 ∷ 1 ∷ 2 ∷ 3 ∷ 2 ∷ 1 ∷ []

encode_sample : encode_packet sample ≡ ok sample_bytes
unfolding encode_packet be
encode_sample = refl

sample-IsWritable : IsWritable sample
sample-IsWritable = record {
  instance_fits = omega arith;
  sequence_fits = omega arith;
  length_fits = omega arith;
  length_exact = refl;
  sum_fits = omega arith;
}

sample-IsVersion1 : IsVersion1 sample
sample-IsVersion1 = record {
  protocol_v1 = refl;
  version_v1 = refl;
  curr_zero = refl;
  last_zero = refl;
}

-- Four lost bytes, a packet of OPS, and one of SIM1 that is filtered out.
decode_stream :
    decode_binary_packets (255 ∷ []) (
      (9 ∷ 9 ∷ 9 ∷ 9 ∷ [])
      ++ (be 4 preamble
          ++ (sample_bytes ++ (be 4 preamble ++ (0 ∷ 1 ∷ 0 ∷ 8 ∷ 0 ∷ 0 ∷ 0 ∷ 0 ∷ 0 ∷ 0 ∷ [])))))
    ≡ some (sample ∷ [])
unfolding decode_binary_packets decode_loop decode_packet decode_body packet_of_prefix read_preamble
    read_packet deliver ends_stream skipped accepts_instance found search sort_by ◌>>=◌ pure fail
    read_full read_be of_be be
decode_stream = refl

decode_binary_packets_total_example :
    (ps : List Packet) × (decode_binary_packets [] sample_bytes ≡ some ps)
decode_binary_packets_total_example = decode_binary_packets_total [] sample_bytes

decode_packet-encode_packet_example :
    decode_packet (be 4 preamble ++ (sample_bytes ++ (9 ∷ []))) ≡ (ok sample, 9 ∷ [])
decode_packet-encode_packet_example =
    decode_packet-encode_packet sample sample_bytes (9 ∷ []) sample-IsWritable sample-IsVersion1
      encode_sample

-- Two reads of a compressed stream, the second longer than the first.
abbrev first_read : Bytes × Bytes
first_read = (1 ∷ 2 ∷ [], 2 ∷ 255 ∷ [])

run-overwrites_example :
    let s =
      run
        (new_decoder (replicate 8 0))
        (as_reads (first_read ∷ (7 ∷ 8 ∷ 9 ∷ [], 2 ∷ 255 ∷ []) ∷ [])) in
    (s.sent ≡ views (first_read ∷ (7 ∷ 8 ∷ 9 ∷ [], 2 ∷ 255 ∷ []) ∷ []))
    × ((v : View) → v.size ≤ 3 → payload_of s.array v ≡ take v.size (7 ∷ 8 ∷ 9 ∷ []))
run-overwrites_example =
    run-overwrites (replicate 8 0) (7 ∷ 8 ∷ 9 ∷ []) (2 ∷ 255 ∷ []) (first_read ∷ [])
      (omega arith, (omega arith, tt))
