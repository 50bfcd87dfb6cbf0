-- ===== src/Tests/ListenRuns.antt =====
-- listen.go at concrete inputs.
use hadock.Common.{
  ℕ, ◌+◌, ◌≡◌, refl, true, false, Bool, List, [], ◌∷◌, none, some, Option, Bytes, ◌==◌,
  if◌then◌else◌,
}
use hadock.Common.Texts.{codes}
use hadock.Notifier.{Source}
use hadock.Panda.{HrPacket, table, sdh_v1}
use hadock.Proto.{Packet, new_packet}
use hadock.Listen.{Event, arrives, receives, ticks, resets, new_converter, run}
use hadock.Listen.Order.{IsOrdered, items_behind, run-IsOrdered}
use hadock.Listen.Setup.{
  Handler, multistore, store_all, NotifierOptions, has_writer, choice_of, makes, archive,
}
use hadock.Listen.Setup.Pools.{IsMade, logs}

abbrev a_packet : HrPacket
a_packet = record {
  kind = table sdh_v1;
  origin = codes "51";
  stream = 2;
  realtime = true;
  sequence = 7;
  filename = codes "a.dat";
  payload = 1 ∷ 2 ∷ [];
  timestamp = 0;
  vmu_timestamp = 0;
  generated = none;
}

-- A decoder that knows version 2.
abbrev decoder : ℕ → Bytes → Option HrPacket
decoder v bs = if v == 2 then some a_packet else none

abbrev framed : ℕ → Packet
framed v = record new_packet { version = v; payload = 1 ∷ 2 ∷ [] }

abbrev busy : List Event
busy =
    arrives (framed 2) false
    ∷ arrives (framed 2) false
    ∷ arrives (framed 1) false
    ∷ ticks
    ∷ resets
    ∷ receives
    ∷ arrives (framed 2) false
    ∷ []

run-IsOrdered_example :
    IsOrdered 1 decoder (run 1 decoder new_converter busy) (items_behind 1 decoder [] busy)
run-IsOrdered_example = run-IsOrdered 1 decoder busy

-- Two storages that fail and one that does not, over a count of packets.
abbrev counting : Option ℕ → Handler ℕ
counting e i p s = (e, s + 1)

abbrev stores : List (Handler ℕ)
stores = counting (some 4) ∷ counting none ∷ counting (some 5) ∷ []

stores_run : multistore stores 255 a_packet 0 ≡ (some 5, 3)
unfolding multistore store_all
stores_run = refl

abbrev a_logger : Bytes → NotifierOptions
a_logger l = record {
  scheme = codes "logger";
  location = l;
  options = record { source = Source.any_source; instance_id = 255; channels = [] };
}

abbrev refused : Bytes → Bool
refused l = false

abbrev makes_one : NotifierOptions → Option ℕ
makes_one o = some 1

logger-IsMade : IsMade makes_one makes_one refused (a_logger [])
unfolding has_writer
logger-IsMade = logs 1 refl refl refl refl

choices : choice_of (codes "archive") ≡ makes archive
unfolding choice_of
choices = refl
