-- ===== src/Tests/ArchiveRuns.antt =====
-- storage/archives.go at concrete inputs.
use hadock.Common.{ℕ, ◌≡◌, refl, true, false, none, some, List, [], ◌∷◌, ◌++◌, Bytes}
use hadock.Common.Texts.{codes}
use hadock.Panda.{HrPacket, table, image, sdh_v1, idh_v1, Kind}
use hadock.Storage.Files.{World}
use hadock.Storage.Archive.{Tarstore, store_all}
use hadock.Storage.Archive.Archives.{entries, entries_for, no_caches, store_all-entries_for}

abbrev pub a_world : World
a_world = record {
  join = λ a b. a ++ (47 ∷ b);
  base = λ p. p;
  calendar = record {
    year_of = λ t. 2017;
    year_day_of = λ t. 5;
    hour_of = λ t. 6;
    minute_of = λ t. 7;
  };
  adjust = λ s. s;
  no_vmu_time = 0;
  channel_name = λ c. codes "lrsd";
  raw = record {
    fcc_of = λ p. some (codes "SYNC");
    sequence_of = λ p. [];
    acquisition_of = λ p. [];
    x_of = λ p. [];
    y_of = λ p. [];
    export_raw = λ p. none;
  };
  export_packet = λ p. none;
  metadata = λ p. some (codes "<m/>");
  is_directory = λ p. true;
  refusals = record { mkdir_fails = λ p. false; write_fails = λ p. none; link_fails = λ p. false };
}

abbrev pub a_tarstore : Tarstore
a_tarstore = record {
  control = none;
  tardir = record { levels = codes "source" ∷ []; location = []; time = []; interval = 0 };
  roll_fails = λ k. false;
  prepare_fails = λ i p. false;
  write_data = λ k es e. (false, es ++ (e ∷ []));
}

abbrev pub of_kind : Kind → Bytes → HrPacket
of_kind k n = record {
  kind = k;
  origin = codes "51";
  stream = 1;
  realtime = true;
  sequence = 7;
  filename = n;
  payload = 1 ∷ [];
  timestamp = 0;
  vmu_timestamp = 0;
  generated = none;
}

abbrev some_packets : List (ℕ × HrPacket)
some_packets =
    (255, of_kind (table sdh_v1) (codes "a"))
    ∷ (255, of_kind (image (idh_v1 [])) (codes "b"))
    ∷ (1, of_kind (table sdh_v1) (codes "c"))
    ∷ []

abbrev pub a_key : Bytes
a_key = codes "/OPS/realtime/images/51"

store_all-entries_for_example :
    entries (store_all a_world a_tarstore some_packets no_caches a_key)
    ≡ entries_for a_world a_tarstore a_key some_packets
store_all-entries_for_example =
    store_all-entries_for a_world a_tarstore some_packets a_key
      (record { rolls = λ k. refl; appends = λ k es e. refl })
