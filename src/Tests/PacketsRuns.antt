-- ===== src/Tests/PacketsRuns.antt =====
-- ListenPackets of listen.go with two connections, at a concrete input.
use hadock.Common.{false, ℕ, ◌≡◌, refl, ap, ◌==◌, List, [], ◌∷◌, Bytes, arith, if◌then◌else◌}
use hadock.Listen.Main.Pipeline.{delivered}
use hadock.Listen.Packets.{Server, new_server, Reach, start, later, accepts, sends, takes}
use hadock.Listen.Packets.Origins.{
  IsServed, IsSender, Sender, bytes_sent, decoded, sent_at, of_conn, reach-IsServed, reach-sent_at,
}
use hadock.Proto.{Packet}
use hadock.Replay.{Run}
use hadock.Replay.Whole.{sent_packet, sent_packets, decode_binary_packets-run_replay}
use hadock.Tests.ReplayRuns.{no_sum, five, eight, start as first_run}

abbrev second_run : Run
second_run = record first_run { replay = record { size = 0; counter = 3; version = 767 } }

abbrev instances : List ℕ
instances = 255 ∷ []

abbrev first : Sender
first = (first_run, five ∷ [])

abbrev second : Sender
second = (second_run, eight ∷ [])

abbrev first_packet : Packet
first_packet = sent_packet no_sum first_run.replay five

abbrev second_packet : Packet
second_packet = sent_packet no_sum second_run.replay eight

abbrev bytes_of_sender : Sender → Bytes
bytes_of_sender = bytes_sent no_sum instances

abbrev decoder : Bytes → List Packet
decoder = decoded no_sum instances

first-IsSender : IsSender no_sum instances first
first-IsSender = record {
  whole = refl;
  version_fits = omega arith;
  counter_fits = omega arith;
  connected = refl;
  passes = refl;
  sendable = omega arith;
}

second-IsSender : IsSender no_sum instances second
second-IsSender = record {
  whole = refl;
  version_fits = omega arith;
  counter_fits = omega arith;
  connected = refl;
  passes = refl;
  sendable = omega arith;
}

first_decoded : decoder (bytes_of_sender first) ≡ first_packet ∷ []
unfolding sent_packets
first_decoded = ap delivered (
    decode_binary_packets-run_replay no_sum instances first_run (five ∷ []) refl (omega arith)
      (omega arith) refl refl (omega arith))

second_decoded : decoder (bytes_of_sender second) ≡ second_packet ∷ []
unfolding sent_packets
second_decoded = ap delivered (
    decode_binary_packets-run_replay no_sum instances second_run (eight ∷ []) refl (omega arith)
      (omega arith) refl refl (omega arith))

-- The second connection is served first.
abbrev after_sends : Server
after_sends = record {
  accepted = bytes_of_sender first ∷ bytes_of_sender second ∷ [];
  pending = λ k.
      if k == 0
      then []
      else if k == 1
      then []
      else if k == 1
      then decoder (bytes_of_sender second)
      else if k == 0
      then decoder (bytes_of_sender first)
      else [];
  queue = (1, second_packet) ∷ (0, first_packet) ∷ [];
  received = [];
  closed = false;
  panicked = false;
}

after_sends-Reach : Reach 2 decoder after_sends
after_sends-Reach =
    later
      (later
        (later (later start (accepts (bytes_of_sender first) new_server refl refl))
          (accepts (bytes_of_sender second) _ refl refl))
        (sends 1 second_packet [] _ second_decoded (omega arith) refl refl))
      (sends 0 first_packet [] _ first_decoded (omega arith) refl refl)

abbrev at_the_end : Server
at_the_end = record after_sends {
  queue = [];
  received = (1, second_packet) ∷ (0, first_packet) ∷ [];
}

at_the_end-Reach : Reach 2 decoder at_the_end
at_the_end-Reach =
    later (later after_sends-Reach (takes (1, second_packet) ((0, first_packet) ∷ []) _ refl refl))
      (takes (0, first_packet) [] _ refl refl)

reach-IsServed_example : IsServed 2 decoder at_the_end
reach-IsServed_example = reach-IsServed 2 decoder at_the_end at_the_end-Reach

reach-sent_at_example :
    of_conn 0 at_the_end.received ≡ sent_at no_sum instances 0 (first ∷ second ∷ [])
reach-sent_at_example =
    reach-sent_at no_sum instances 2 (first ∷ second ∷ []) at_the_end at_the_end-Reach
      (first-IsSender, (second-IsSender, tt)) refl refl (λ k. ground arith) 0
