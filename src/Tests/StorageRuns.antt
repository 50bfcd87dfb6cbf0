-- ===== src/Tests/StorageRuns.antt =====
-- storage/storage.go and cmd/hdk2udp/main.go at concrete inputs.
use hadock.Common.{
  ◌≤◌, List, map, concat, ap, arith, replicate, ℕ, ◌+◌, ◌-◌, ◌*◌, ◌/◌, ◌%◌, ◌≡◌, length, refl, true,
  false, none, some, [], ◌∷◌, ◌++◌, Bytes,
}
use hadock.Common.Decimal.{dec}
use hadock.Common.Search.{found, search}
use hadock.Common.Texts.{codes}
use hadock.Notifier.{Message}
use hadock.Notifier.Pool.{trim_nuls}
use hadock.Panda.{HrPacket, table, sdh_v1}
use hadock.Storage.{level_of, lower, Control, check_origin, get_upi, upi_info}
use hadock.Storage.Hadock.{RawMethods, encode_raw_packet, encode_raw_kind}
use hadock.Common.Scanner.{contents}
use hadock.Storage.Dispatch.{dispatch, dispatched, store_hadock_all}
use hadock.Storage.Dispatch.Stored.{records, dispatch-store_hadock_all}
use hadock.Storage.Paths.{Calendar, prepare_directory, get_vmu_time}
use hadock.Hdk2udp.{prepare_reference}
use hadock.Hdk2udp.Agreement.{AreToldFor, SameFields, prepare_reference-prepare_directory}
use hadock.Common.Signed.{int64_div}

abbrev joined_by_slash : Bytes → Bytes → Bytes
joined_by_slash a b = a ++ (47 ∷ b)

-- Days of 2017 alone.
abbrev one_year : Calendar
one_year = record {
  year_of = λ t. 2017;
  year_day_of = λ t. (t / 1000000000 - 1483228800) / 86400 + 1;
  hour_of = λ t. t / 1000000000 % 86400 / 3600;
  minute_of = λ t. t / 1000000000 % 3600 / 60;
}

abbrev in_nanoseconds : ℕ → ℕ
in_nanoseconds s = s * 1000000000

abbrev in_milliseconds : ℕ → ℕ
in_milliseconds s = s * 1000

abbrev channel_name : ℕ → Bytes
channel_name c = codes "vic" ++ dec c

abbrev a_packet : HrPacket
a_packet = record {
  kind = table sdh_v1;
  origin = codes "51";
  stream = 3;
  realtime = true;
  sequence = 7;
  filename = codes "a.dat";
  payload = 1 ∷ [];
  timestamp = 1490000000 * 1000000000;
  vmu_timestamp = 1490000060 * 1000000000;
  generated = none;
}

abbrev a_control : Control
a_control = record {
  type_name = codes "origin";
  accepts = codes "39" ∷ codes "51" ∷ [];
  rejects = codes "40" ∷ [];
}

abbrev a_message : Message
a_message = record {
  origin = codes "51";
  sequence = 7;
  instance_id = 255;
  channel = 3;
  realtime = true;
  count = 1;
  elapsed = 0;
  generated = 1490000060;
  acquired = 1490000000;
  reference = codes "a.dat";
  upi = codes "SCIENCES";
}

-- In a list that is not in ascending order an origin is not found.
unordered_misses : check_origin (codes "39") (codes "51" ∷ codes "39" ∷ []) ≡ false
unfolding check_origin found search
unordered_misses = refl

-- Neither the type nor the instance of the message is that of the packet: the levels ask for none.
abbrev other_message : Message
other_message = record a_message { channel = 1; instance_id = 3 }

other_message-told :
    AreToldFor joined_by_slash one_year one_year in_nanoseconds in_milliseconds 0 255 a_packet
      other_message
      (codes "UPI" ∷ codes "acq" ∷ codes "vmu" ∷ [])
unfolding level_of lower get_upi get_vmu_time trim_nuls int64_div
other_message-told = (refl, (refl, (refl, tt)))

one_year-SameFields : SameFields one_year one_year
one_year-SameFields = record {
  years = λ t. refl;
  days = λ t. refl;
  hours = λ t. refl;
  minutes = λ t. refl;
}

prepare_reference-prepare_directory_example :
    prepare_reference joined_by_slash one_year in_milliseconds 2
      (codes "d")
      (codes "UPI" ∷ codes "acq" ∷ codes "vmu" ∷ [])
      5
      other_message
      0
    ≡ prepare_directory joined_by_slash one_year in_nanoseconds 0 2
        (codes "d")
        (codes "UPI" ∷ codes "acq" ∷ codes "vmu" ∷ [])
        5
        255
        a_packet
        0
prepare_reference-prepare_directory_example =
    prepare_reference-prepare_directory joined_by_slash one_year one_year in_nanoseconds
      in_milliseconds 0 255 a_packet other_message 2 (codes "UPI" ∷ codes "acq" ∷ codes "vmu" ∷ [])
      (codes "d") 5 0 one_year-SameFields other_message-told

no_info : trim_nuls (upi_info a_packet.kind) ≡ []
unfolding trim_nuls
no_info = refl

abbrev some_methods : RawMethods
some_methods = record {
  fcc_of = λ p. some (codes "MMA ");
  sequence_of = λ p. 0 ∷ 0 ∷ 0 ∷ 7 ∷ [];
  acquisition_of = λ p. replicate 8 1;
  x_of = λ p. 0 ∷ 4 ∷ [];
  y_of = λ p. 0 ∷ 3 ∷ [];
  export_raw = λ p. none;
}

abbrev some_raw : Bytes
some_raw = codes "MMA " ++ (0 ∷ 0 ∷ 0 ∷ 7 ∷ replicate 8 1) ++ (1 ∷ [])

abbrev from_origin : Bytes → HrPacket
from_origin o = record a_packet { origin = o }

raw_of_packet : (o : Bytes) → encode_raw_packet some_methods (from_origin o) ≡ some some_raw
unfolding encode_raw_packet encode_raw_kind
raw_of_packet o = refl

raw_of_packet-fits :
    (o b : Bytes)
    → encode_raw_packet some_methods (from_origin o) ≡ some b
    → 48 + length b ≤ 8388608
raw_of_packet-fits o b h = let e : some_raw ≡ b = cc (raw_of_packet o) in omega (arith, ap length e)

-- The second file holds nothing of the packet whose origin is no hexadecimal byte.
abbrev some_files : List (List (ℕ × HrPacket))
some_files =
    ((255, from_origin (codes "51")) ∷ (1, from_origin (codes "3F")) ∷ [])
    ∷ ((255, from_origin (codes "zz")) ∷ (2, from_origin (codes "51")) ∷ [])
    ∷ []

dispatch-store_hadock_all_example :
    dispatch (map (λ ips. contents (store_hadock_all some_methods [] ips)) some_files)
    ≡ (concat (map (λ ips. records some_methods ips ++ ([] ∷ [])) some_files), dispatched)
dispatch-store_hadock_all_example = dispatch-store_hadock_all some_methods some_files (
  (raw_of_packet-fits (codes "51"), (raw_of_packet-fits (codes "3F"), tt)),
  ((raw_of_packet-fits (codes "zz"), (raw_of_packet-fits (codes "51"), tt)), tt),
)
