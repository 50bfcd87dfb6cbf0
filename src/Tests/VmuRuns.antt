-- ===== src/Tests/VmuRuns.antt =====
-- vmu/ at concrete inputs.
use hadock.Common.{
  ℕ, ◌≡◌, refl, none, some, false, List, [], ◌∷◌, replicate, arith, map, Bytes, length,
}
use hadock.Common.Endian.{be, le}
use hadock.Proto.{decode_binary_packets}
use hadock.Replay.{run_replay}
use hadock.Replay.Walk.{walk_paths}
use hadock.Replay.Walk.Archives.{IsScannable, archive_file, all_bodies, run_replay-walk_paths}
use hadock.Replay.Whole.{sent_packets}
use hadock.Tests.ReplayRuns.{no_sum, start}
use hadock.Vmu.{
  table, image, Channel, science, video1, video2, unknown, VmuPacket, VmuHeader, SdhV2, IdhV2,
  Split, ok, encode_body, encode_vmu_header, encode_sdh, encode_idh, sum_append, write_sum,
}
use hadock.Vmu.Sizes.{IsSized}
use hadock.Vmu.Checksum.{IsFramed, encode_body-IsFramed}

abbrev some_header : VmuHeader
some_header = record {
  channel = 1 ∷ [];
  source = 51 ∷ [];
  sequence = le 4 7;
  coarse = le 4 1000;
  fine = le 2 3;
}

abbrev some_sdh : SdhV2
some_sdh = record {
  properties = 34 ∷ [];
  sequence = le 4 7;
  originator = le 4 1;
  acquisition = le 8 5;
  auxiliary = le 6 9;
  id = 51 ∷ [];
  info = replicate 32 65;
}

abbrev some_idh : IdhV2
some_idh = record {
  properties = 34 ∷ [];
  sequence = le 4 7;
  originator = le 4 1;
  acquisition = le 8 5;
  auxiliary = le 8 9;
  id = 51 ∷ [];
  format = 3 ∷ [];
  pixels = le 4 4;
  region = le 8 0;
  dropping = le 2 0;
  scaling = le 2 0;
  ratio = 1 ∷ [];
  info = replicate 32 66;
}

abbrev some_split : Split
some_split = record { fine = 1200; coarse = 5 }

abbrev a_table : VmuPacket
a_table = record {
  kind = table some_header (some some_sdh);
  channel = science;
  payload = 1 ∷ 2 ∷ 3 ∷ [];
  acquired = some_split;
}

abbrev an_image : VmuPacket
an_image = record {
  kind = image some_header (some some_idh);
  channel = video1;
  payload = 9 ∷ 8 ∷ [];
  acquired = some_split;
}

abbrev byte_of : Channel → ℕ
byte_of science = 3
byte_of video1 = 1
byte_of video2 = 2
byte_of unknown = 9

table-IsSized : IsSized (table some_header (some some_sdh)) science
unfolding IsSized encode_vmu_header encode_sdh le be
table-IsSized = (refl, refl)

image-IsSized : IsSized (image some_header (some some_idh)) video1
unfolding IsSized encode_vmu_header encode_idh le be
image-IsSized = (refl, refl)

encode_body-IsFramed_example :
    (bs : Bytes) × ((encode_body (image some_header (some some_idh)) (9 ∷ 8 ∷ []) ≡ ok bs)
      × (IsFramed 70 bs × (length bs ≡ 106)))
encode_body-IsFramed_example =
    encode_body-IsFramed (image some_header (some some_idh)) video1 (9 ∷ 8 ∷ []) image-IsSized
      (omega arith)

-- hash.Hash asks that Sum leave the state; hrdlSum.Sum writes its argument into it.
sum_changes : sum_append 0 (7 ∷ []) ≡ (le 4 7, 7)
unfolding sum_append write_sum
sum_changes = refl

-- Two directories: one with a file of two packets and one without, and one with a file of one.
abbrev some_archives : List (List (List VmuPacket))
some_archives = ((a_table ∷ an_image ∷ []) ∷ [] ∷ []) ∷ ((a_table ∷ []) ∷ []) ∷ []

table-IsScannable : IsScannable a_table
table-IsScannable = ((table-IsSized, omega arith), omega arith)

image-IsScannable : IsScannable an_image
image-IsScannable = ((image-IsSized, omega arith), omega arith)

run_replay-walk_paths_example :
    let queue = walk_paths 14 8 (map (map (archive_file byte_of some_split)) some_archives) in
    (queue.1 ≡ false)
    × (decode_binary_packets (255 ∷ []) (run_replay no_sum none start queue.0).conn.received
        ≡ some (sent_packets no_sum start.replay (all_bodies some_archives)))
run_replay-walk_paths_example =
    run_replay-walk_paths byte_of some_split no_sum (255 ∷ []) start some_archives refl
      (omega arith) (omega arith) refl refl
      (
        ((table-IsScannable, (image-IsScannable, tt)), (tt, tt)),
        (((table-IsScannable, tt), tt), tt),
      )
