-- ===== src/Tests/ReplayRuns.antt =====
-- replay.go at concrete inputs.
use hadock.Common.{ℕ, ◌≡◌, refl, [], ◌∷◌, ◌++◌, none, some, arith, Bytes, concat}
use hadock.Common.Reader.{ok, err, eof}
use hadock.Proto.{Packet, decode_packet, decode_binary_packets}
use hadock.Replay.{Replay, Run, version_word, prepare_packet_v2, run_replay}
use hadock.Replay.Delivery.{
  IsReassembled, decode_packet-prepare_packet_v2, decode_packet-prepare_packet_v2_full,
}
use hadock.Replay.Reassembly.{IsFragmenting}
use hadock.Replay.Whole.{sent_packets, decode_binary_packets-run_replay}

-- -m 255, -t 2, -s 4
abbrev sender : Replay
sender = record { size = 4; counter = 0; version = 5119 }

sender_version : version_word 1 3 255 ≡ 5119
unfolding version_word
sender_version = refl

abbrev pub no_sum : Bytes → ℕ
no_sum bs = 0

sender-IsFragmenting : IsFragmenting sender
sender-IsFragmenting = record {
  size_pos = omega arith;
  counter_fits = omega arith;
  version_low = omega arith;
  version_high = omega arith;
}

abbrev pub five : Bytes
five = 1 ∷ 2 ∷ 3 ∷ 4 ∷ 5 ∷ []

abbrev pub eight : Bytes
eight = 1 ∷ 2 ∷ 3 ∷ 4 ∷ 5 ∷ 6 ∷ 7 ∷ 8 ∷ []

decode_packet-prepare_packet_v2_example :
    (p : Packet) × (decode_packet (concat (prepare_packet_v2 no_sum sender five) ++ [])
      ≡ (ok p, []))
    × IsReassembled sender five p
decode_packet-prepare_packet_v2_example =
    decode_packet-prepare_packet_v2 no_sum sender five [] sender-IsFragmenting (omega arith)
      (omega arith) (omega arith)

decode_packet-prepare_packet_v2_full_example :
    decode_packet (concat (prepare_packet_v2 no_sum sender eight)) ≡ (err eof, [])
decode_packet-prepare_packet_v2_full_example =
    decode_packet-prepare_packet_v2_full no_sum sender eight sender-IsFragmenting (omega arith)
      (omega arith) (omega arith) (omega arith)

-- The same without -s, to a connection that has received nothing.
abbrev pub start : Run
start = record {
  replay = record { size = 0; counter = 65535; version = 1023 };
  conn = record { received = []; outcomes = [] };
  packets = 0;
  bytes = 0;
}

decode_binary_packets-run_replay_example :
    decode_binary_packets
      (255 ∷ [])
      (run_replay no_sum none start (five ∷ eight ∷ [])).conn.received
    ≡ some (sent_packets no_sum start.replay (five ∷ eight ∷ []))
decode_binary_packets-run_replay_example =
    decode_binary_packets-run_replay no_sum (255 ∷ []) start (five ∷ eight ∷ []) refl (omega arith)
      (omega arith) refl refl (omega arith)
