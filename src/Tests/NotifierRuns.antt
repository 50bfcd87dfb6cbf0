-- ===== src/Tests/NotifierRuns.antt =====
-- notifier.go at concrete inputs.
use hadock.Common.{ℕ, ◌+◌, ◌≡◌, ◌<◌, refl, true, List, [], ◌∷◌, ◌++◌, none, some, arith}
use hadock.Common.Reader.{ok}
use hadock.Common.Search.{found, search}
use hadock.Common.Texts.{codes}
use hadock.Notifier.{
  Message, Options, Source, encode_message, decode_message, accept, accepts_source, accepts_channel,
}
use hadock.Notifier.Codec.{IsWritable, decode_message-encode_message}
use hadock.Notifier.Pool.{
  Item, Key, Pool, Event, step, notify, receive, tick, notified, received, ticked, run, summary,
}
use hadock.Notifier.Pool.Conservation.{run_conserves, counted, cached, queued, admitted}
use hadock.Notifier.Pool.Groups.{IsGrouped, IsSummary, run-IsGrouped, summary-IsSummary}
use hadock.Panda.{HrPacket, table, sdh_v1}

abbrev sample : Message
sample = record {
  origin = codes "51";
  sequence = 12;
  instance_id = 255;
  channel = 2;
  realtime = true;
  count = 3;
  elapsed = 5000;
  generated = 1000;
  acquired = 2000;
  reference = codes "a.dat";
  upi = codes "SCIENCE";
}

sample-IsWritable : IsWritable sample
sample-IsWritable = record {
  origin_fits = omega arith;
  sequence_fits = omega arith;
  instance_fits = omega arith;
  channel_fits = omega arith;
  count_fits = omega arith;
  elapsed_fits = omega arith;
  generated_fits = omega arith;
  acquired_fits = omega arith;
  reference_fits = omega arith;
  upi_fits = omega arith;
}

decode_message-encode_message_example :
    decode_message (encode_message sample ++ (1 ∷ [])) ≡ (ok sample, 1 ∷ [])
decode_message-encode_message_example =
    decode_message-encode_message sample (1 ∷ []) sample-IsWritable

abbrev descending : Options
descending = record { source = Source.realtime; instance_id = 255; channels = 3 ∷ 2 ∷ [] }

abbrev ascending : Options
ascending = record { source = Source.any_source; instance_id = 255; channels = 1 ∷ 2 ∷ 3 ∷ [] }

accept-sample : accept (some descending) sample ≡ true
unfolding accept accepts_source accepts_channel found search
accept-sample = refl

abbrev packet : ℕ → HrPacket
packet n = record {
  kind = table sdh_v1;
  origin = codes "51";
  stream = 3;
  realtime = true;
  sequence = n;
  filename = codes "f";
  payload = [];
  timestamp = 3000000000 + n;
  vmu_timestamp = 2000000000;
  generated = none;
}

abbrev item : ℕ → Item
item n = record { instance_id = 255; packet = packet n }

abbrev started : Pool
started = record { limit = 0; queue = some []; cache = [] }

abbrev events : List Event
events =
    notified 0 (item 5)
    ∷ notified 0 (item 4)
    ∷ received
    ∷ received
    ∷ ticked
    ∷ notified 0 (item 6)
    ∷ []

events_fit : 0 + admitted started events < 4294967296
unfolding admitted step notify receive tick
events_fit = omega arith

run_conserves_example :
    counted (run started events).1
      + (cached (run started events).0.cache + queued (run started events).0.queue)
    ≡ 0 + admitted started events
run_conserves_example = run_conserves started events events_fit

run-IsGrouped_example : IsGrouped (run started events).0.cache
run-IsGrouped_example = run-IsGrouped started events tt

abbrev key : Key
key = record { realtime = true; origin = codes "51"; instance_id = 255 }

summary-IsSummary_example :
    (m : Message) × (summary (key, packet 5 ∷ packet 4 ∷ []) ≡ some m)
    × IsSummary key (packet 5 ∷ packet 4 ∷ []) m
summary-IsSummary_example = summary-IsSummary key (packet 5 ∷ packet 4 ∷ []) (omega arith)
