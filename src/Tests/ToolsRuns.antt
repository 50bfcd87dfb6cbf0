-- ===== src/Tests/ToolsRuns.antt =====
-- cmd/vmucat/vmucat.go and cmd/vmuzip/vmuzip.go at concrete inputs.
use hadock.Common.{◌≡◌, refl, true, false, none, List, [], ◌∷◌, ◌++◌, Bytes}
use hadock.Common.Texts.{codes}
use hadock.Panda.{HrPacket, table, sdh_v1}
use hadock.Storage.{lower}
use hadock.Tools.{split_commas, add_channels, set_formats, sort_texts, channel_of}
use hadock.Tools.Counts.{count_all}
use hadock.Storage.Paths.{Calendar}
use hadock.Tools.Workers.{Calls, Step, goes_on, ends, new_zip, work, dir_of, end_at, step, run}
use hadock.Tools.Workers.Bounds.{IsBounded, run-IsBounded}
use hadock.Tools.Counts.Totals.{IsTallied, count_all-IsTallied}

abbrev vic_packet : HrPacket
vic_packet = record {
  kind = table sdh_v1;
  origin = codes "39";
  stream = 3;
  realtime = false;
  sequence = 7;
  filename = codes "b.dat";
  payload = 1 ∷ 2 ∷ [];
  timestamp = 0;
  vmu_timestamp = 0;
  generated = none;
}

two_named : add_channels 1 2 3 [] (split_commas (codes "vic1,lrsd")) ≡ (1 ∷ 3 ∷ [], true)
unfolding add_channels split_commas channel_of
two_named = refl

abbrev two_formats : List Bytes
two_formats = codes "jpeg" ∷ codes "png" ∷ []

two_formats_set : set_formats [] (codes "PNG,jpeg") ≡ two_formats
unfolding set_formats sort_texts split_commas lower
two_formats_set = refl

count_all-IsTallied_example :
    IsTallied
      (count_all [] (record { count = 0; size = 0; counters = [] }) (vic_packet ∷ vic_packet ∷ []))
count_all-IsTallied_example = count_all-IsTallied [] (vic_packet ∷ vic_packet ∷ [])

abbrev slashed : Bytes → Bytes → Bytes
slashed a b = a ++ (47 ∷ b)

abbrev a_day : Calendar
a_day = record { year_of = λ t. 2017; year_day_of = λ t. 5; hour_of = λ t. 6; minute_of = λ t. 7 }

abbrev no_failure : Calls
no_failure = record {
  mkdir_fails = false;
  create_fails = false;
  export_fails = false;
  raw_create_fails = false;
  raw_export_fails = false;
}

-- A worker for two packets: the loop has to wait for the first.
abbrev one_worker : List Step
one_worker = goes_on ∷ goes_on ∷ ends 0 no_failure ∷ goes_on ∷ []

run-IsBounded_example :
    IsBounded slashed a_day
      (λ p. codes "lrsd")
      (λ p. codes "dat")
      true
      false
      5
      1
      (codes "/data")
      (vic_packet ∷ vic_packet ∷ [])
      (run slashed a_day
        (λ p. codes "lrsd")
        (λ p. codes "dat")
        true
        false
        5
        1
        (codes "/data")
        (new_zip (vic_packet ∷ vic_packet ∷ []))
        one_worker)
run-IsBounded_example =
    run-IsBounded slashed a_day (λ p. codes "lrsd") (λ p. codes "dat") true false 5 1
      (codes "/data") (vic_packet ∷ vic_packet ∷ []) one_worker

files_left :
    (run slashed a_day
      (λ p. codes "lrsd")
      (λ p. codes "dat")
      true
      true
      5
      1
      (codes "/data")
      (new_zip (vic_packet ∷ vic_packet ∷ []))
      one_worker).files
    ≡ codes "/data/b.dat" ∷ codes "/data/b.dat.raw" ∷ []
unfolding run step end_at work dir_of
files_left = refl
