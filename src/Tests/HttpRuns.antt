-- ===== src/Tests/HttpRuns.antt =====
-- distrib/ and cascading/ at concrete inputs.
use hadock.Common.{
  get_or, ◌+◌, ◌%◌, ℕ, ◌≡◌, refl, true, List, [], ◌∷◌, ◌++◌, none, some, Option, Bytes, arith,
  IsByte, ◌*◌, All,
}
use hadock.Common.Texts.{codes}
use hadock.Cascade.{new_proxy, Event, writes, dials, discard, run, write, step}
use hadock.Cascade.Delivery.{ignored, refused, run-sends_again}
use hadock.Common.Reader.{◌>>=◌, read_be, read_full, pure}
use hadock.Distrib.{
  read_file, read_fields, Codes, Export, StoredFile, Layout, opened, serve, only_status,
}
use hadock.Distrib.Monitor
use hadock.Distrib.Monitor.Recent.{run-recent}
use hadock.Distrib.Monitor.Refinement.{Entry, shown, Shows, no_logs, log_events, run-Shows}
use hadock.Notifier.{Message, read_or}

abbrev failing : List Event
failing = writes (1 ∷ 2 ∷ []) none ∷ writes (3 ∷ 4 ∷ []) (some 1) ∷ []

abbrev while_down : List Event
while_down = writes (5 ∷ []) none ∷ dials 0 none ∷ []

failing-discards : (run (new_proxy 7) failing).writer ≡ discard
unfolding run step write
failing-discards = refl

run-sends_again_example :
    (run
      (new_proxy 7)
      (failing ++ (while_down ++ (dials 0 (some 8) ∷ writes (6 ∷ []) none ∷ [])))).sent
    ≡ (8, 6 ∷ []) ∷ (run (new_proxy 7) failing).sent
run-sends_again_example =
    run-sends_again 7 8 failing while_down (6 ∷ []) failing-discards
      (ignored (5 ∷ []) none, (refused 0, tt))

abbrev some_codes : Codes
some_codes = record {
  sync = codes "SYNC";
  mma = codes "MMA ";
  svs = codes "SVS ";
  jpeg = codes "JPEG";
  png = codes "PNG ";
  yuy2 = codes "YUY2";
  y800 = codes "Y800";
  i420 = codes "I420";
  rgb = codes "RGB ";
  y16b = codes "Y16B";
  y16l = codes "Y16L";
}

abbrev no_export : Export → StoredFile → Option Bytes
no_export e f = none

abbrev no_image : Layout → ℕ → ℕ → Bytes → Option Bytes
no_image l x y bs = none

abbrev no_encoding : Bytes → Bytes → Option Bytes
no_encoding t i = none

abbrev raw_file : Bytes
raw_file = 83 ∷ 89 ∷ 78 ∷ 67 ∷ 0 ∷ 0 ∷ 0 ∷ 9 ∷ 0 ∷ 0 ∷ 0 ∷ 0 ∷ 1 ∷ 2 ∷ 3 ∷ 4 ∷ 255 ∷ []

abbrev takes_both : Bytes
takes_both = codes "text/csv, application/octet-stream"

raw_bytes : All IsByte raw_file
raw_bytes = ground arith

-- A client that takes anything is refused.
any_refused :
    serve some_codes no_export no_image no_encoding (codes "*/*") (opened raw_file)
    ≡ only_status 406
unfolding serve read_file read_fields ◌>>=◌ read_or read_be read_full pure
any_refused = refl

abbrev told : ℕ → Message
told n = record {
  origin = codes "51";
  sequence = n;
  instance_id = 255;
  channel = 2;
  realtime = true;
  count = 3;
  elapsed = 5000;
  generated = 1000;
  acquired = 2000;
  reference = codes "a.dat";
  upi = codes "SCIENCE";
}

abbrev minute : ℕ
minute = 60000000000

abbrev traffic : List Monitor.Event
traffic =
    Monitor.decodes 0 minute (codes "a") (told 1)
    ∷ Monitor.decodes 1 (2 * minute) (codes "b") (told 2)
    ∷ Monitor.decodes 0 (3 * minute) (codes "c") (told 3)
    ∷ Monitor.ticks (10 * minute)
    ∷ []

run-Shows_example :
    Shows 2
      (λ t. t)
      (Monitor.run 2 (λ t. t) Monitor.new_monitor traffic)
      (log_events 2 (λ t. t) no_logs traffic)
run-Shows_example = run-Shows 2 (λ t. t) traffic

-- The traffic of one reader, at two slots: the last two messages are there.
abbrev one_reader : List Monitor.Event
one_reader =
    Monitor.decodes 0 minute (codes "a") (told 1)
    ∷ Monitor.decodes 0 (2 * minute) (codes "b") (told 2)
    ∷ Monitor.ticks (10 * minute)
    ∷ Monitor.decodes 0 (11 * minute) (codes "c") (told 3)
    ∷ []

abbrev an_entry : ℕ → ℕ → Bytes → ℕ → Entry
an_entry i t u n = record {
  index = i;
  when = t;
  uid = u;
  number = i + 1;
  message = Monitor.adjusted 2 (λ t. t) (told n);
}

run-recent_example :
    (w : Monitor.Slots) × ((Monitor.run 2 (λ t. t) Monitor.new_monitor one_reader).messages
        (Monitor.monkey_of (told 1))
      ≡ some w)
    × (get_or w.ms (1 % 2) none ≡ some (shown 2 (λ t. t) (an_entry 1 (2 * minute) (codes "b") 2)))
unfolding Monitor.monkey_eq
run-recent_example =
    run-recent 2 (λ t. t) 0 one_reader (Monitor.monkey_of (told 1))
      (an_entry 2 (11 * minute) (codes "c") 3 ∷ []) (an_entry 0 minute (codes "a") 1 ∷ [])
      (an_entry 1 (2 * minute) (codes "b") 2) (refl, (refl, (tt, (refl, tt)))) refl (omega arith)
