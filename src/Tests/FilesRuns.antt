-- ===== src/Tests/FilesRuns.antt =====
-- storage/files.go at concrete inputs.
use hadock.Common.{if◌then◌else◌, ◌≡◌, refl, true, false, none, some, inl, [], ◌∷◌, ◌++◌, Bytes}
use hadock.Common.Texts.{codes, text_eq}
use hadock.Panda.{HrPacket, table, sdh_v1}
use hadock.Storage.{can, can_origin, origin_of, level_of, lower}
use hadock.Storage.Paths.{Calendar, prepare, prepare_directory, level_dir}
use hadock.Storage.Hadock.{RawMethods}
use hadock.Storage.Disk.{Disk, inode}
use hadock.Storage.Files.{
  World, Filestore, Linkstore, Dirmaker, dir_of, encode_with, is_superseded, is_bad, store,
}
use hadock.Storage.Files.Links.{IsReady, Avoids}
use hadock.Storage.Files.Stored.{IsWritable, IsStored, store-IsStored}

abbrev no_calendar : Calendar
no_calendar = record {
  year_of = λ t. 2017;
  year_day_of = λ t. 5;
  hour_of = λ t. 6;
  minute_of = λ t. 7;
}

abbrev no_methods : RawMethods
no_methods = record {
  fcc_of = λ p. none;
  sequence_of = λ p. [];
  acquisition_of = λ p. [];
  x_of = λ p. [];
  y_of = λ p. [];
  export_raw = λ p. none;
}

abbrev a_world : World
a_world = record {
  join = λ a b. a ++ (47 ∷ b);
  base = λ p. codes "a.dat";
  calendar = no_calendar;
  adjust = λ s. s;
  no_vmu_time = 0;
  channel_name = λ c. codes "lrsd";
  raw = no_methods;
  export_packet = λ p. some p.payload;
  metadata = λ p. none;
  is_directory = λ p. true;
  refusals = record { mkdir_fails = λ p. false; write_fails = λ p. none; link_fails = λ p. false };
}

abbrev some_dirs : Bytes → Dirmaker
some_dirs location = record {
  levels = codes "source" ∷ [];
  location = location;
  time = [];
  interval = 0;
}

abbrev a_share : Linkstore
a_share = record { link_type = codes "hard"; rembad = true; dirs = some_dirs (codes "s") }

abbrev a_store : Filestore
a_store = record {
  control = record { type_name = []; accepts = []; rejects = [] };
  dirs = some_dirs (codes "d");
  rembad = true;
  is_raw = false;
  links = a_share ∷ [];
}

abbrev named_packet : Bytes → Bytes → HrPacket
named_packet name payload = record {
  kind = table sdh_v1;
  origin = codes "51";
  stream = 3;
  realtime = false;
  sequence = 7;
  filename = name;
  payload = payload;
  timestamp = 0;
  vmu_timestamp = 0;
  generated = none;
}

abbrev good : HrPacket
good = named_packet (codes "a.dat") (1 ∷ 2 ∷ [])

abbrev worse : HrPacket
worse = named_packet (codes "a.dat.bad") (1 ∷ [])

-- A disk with the bad version.
abbrev with_bad : Disk
with_bad = record {
  names = λ q. if text_eq (codes "d/51/a.dat.bad") q then some (inode 0) else none;
  contents = λ j. 1 ∷ [];
  next = 1;
}

good-IsWritable : IsWritable a_world a_store 255 good with_bad
unfolding can origin_of can_origin dir_of prepare prepare_directory level_dir level_of lower
good-IsWritable = record {
  taken = refl;
  made = refl;
  written = refl;
  plain = inl refl;
  distinct = refl;
  distinct' = refl;
  apart = ((record { made = refl; allowed = refl; known = refl }, (refl, refl), (refl, refl)), tt);
}

good_encoded : encode_with a_world false good ≡ some (1 ∷ 2 ∷ [])
unfolding encode_with
good_encoded = refl

good_current :
    is_superseded a_world a_store (dir_of a_world a_store.dirs 255 good) good with_bad ≡ false
unfolding is_superseded is_bad
good_current = refl

store-IsStored_example :
    (e : Disk) × (store a_world a_store 255 good with_bad ≡ (none, e))
    × IsStored a_world a_store 255 good (1 ∷ 2 ∷ []) e
store-IsStored_example =
    store-IsStored a_world a_store 255 good with_bad (1 ∷ 2 ∷ []) good-IsWritable good_encoded tt
      good_current

-- A disk with the good version.
abbrev with_good : Disk
with_good = record {
  names = λ q. if text_eq (codes "d/51/a.dat") q then some (inode 0) else none;
  contents = λ j. 1 ∷ 2 ∷ [];
  next = 1;
}

with_good-IsStored : IsStored a_world a_store 255 good (1 ∷ 2 ∷ []) with_good
unfolding dir_of prepare prepare_directory level_dir level_of lower
with_good-IsStored = record {
  index = 0;
  stored = record { named = refl; holds = refl };
  cleaned = λ r. refl;
}

share_ready : IsReady a_world a_share 255 good (codes "d/51/a.dat")
share_ready = record { made = refl; allowed = refl; known = refl }

share-Avoids : Avoids a_world a_share 255 good (codes "d/51/a.dat") (codes "d/51/a.dat")
unfolding dir_of prepare prepare_directory level_dir level_of lower
share-Avoids = (refl, refl)
