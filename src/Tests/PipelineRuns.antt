-- ===== src/Tests/PipelineRuns.antt =====
-- The way from replay.go to archives.go by way of listen.go, at a concrete input.
use hadock.Common.{
  ℕ, ◌+◌, ◌≡◌, refl, ap, true, none, some, Option, List, [], ◌∷◌, Bytes, ◌==◌, arith, if◌then◌else◌,
}
use hadock.Common.Texts.{codes}
use hadock.Listen.{new_converter, run}
use hadock.Listen.Main.{Listener, Step, handles, processes, take_steps}
use hadock.Listen.Main.Pipeline.{
  keeping_up, handled, delivered, decodable, archive_handler, run_replay-take_steps,
}
use hadock.Listen.Setup.{Handler}
use hadock.Notifier.Pool.{Item}
use hadock.Panda.{HrPacket, table, sdh_v1}
use hadock.Proto.{decode_binary_packets}
use hadock.Replay.{Run, run_replay}
use hadock.Storage.Archive.{Caches, ArchiveError}
use hadock.Storage.Archive.Archives.{entries, entries_for, no_caches}
use hadock.Tests.ArchiveRuns.{a_world, a_tarstore, a_key, of_kind}

abbrev payloads : List Bytes
payloads = (1 ∷ []) ∷ (2 ∷ 3 ∷ []) ∷ []

abbrev sum_of : Bytes → ℕ
sum_of bs = 0

abbrev two_decoder : ℕ → Bytes → Option HrPacket
two_decoder v bs = if v == 2 then some (of_kind (table sdh_v1) (codes "a")) else none

abbrev counting_module : Handler ℕ
counting_module i p s = (none, s + 1)

abbrev sender : Run
sender = record {
  replay = record { size = 0; counter = 9; version = 767 };
  conn = record { received = []; outcomes = [] };
  packets = 0;
  bytes = 0;
}

abbrev listener : Listener Caches ℕ
listener = record {
  stored = no_caches;
  modules = 0;
  pool = record { limit = 0; queue = some []; cache = [] };
  queue = some [];
  store_errors = [];
  module_errors = [];
}

-- The goroutine of the modules has a turn behind each item.
abbrev in_turn : List Item → List Step
in_turn [] = []
in_turn (i ∷ is) = handles 5 true i ∷ processes ∷ in_turn is

handled-in_turn : (is : List Item) → handled (in_turn is) ≡ is
handled-in_turn [] = refl
handled-in_turn (i ∷ is) = ap (λ is. i ∷ is) (handled-in_turn is)

abbrev items : List Item
items =
    (run 1 two_decoder new_converter (
      keeping_up (
        delivered (
          decode_binary_packets (255 ∷ [])
            (run_replay sum_of none sender payloads).conn.received)))).received

abbrev error_number : ArchiveError → ℕ
error_number e = 1

run_replay-take_steps_example :
    entries (
      (take_steps 1
          (archive_handler a_world a_tarstore error_number)
          counting_module
          listener
          (in_turn items)).stored
        a_key)
    ≡ entries_for a_world a_tarstore a_key (decodable two_decoder 2 255 payloads)
run_replay-take_steps_example =
    run_replay-take_steps a_world a_tarstore error_number sum_of two_decoder 1 counting_module
      listener (255 ∷ []) sender payloads (in_turn items) a_key
      (record { rolls = λ k. refl; appends = λ k es e. refl }) refl (omega arith) (omega arith) refl
      refl (omega arith) (handled-in_turn items) refl
