-- ===== src/Svs.antt =====
-- internal/science/svs.go and plugins/svs/svs.go: two programs that take the data of the SVS experiment
-- apart. The lists of cells are what goes to the csv.Writer; floats stand by their bit patterns.
pub mod Agreement
pub mod Rounds
use hadock.Common.{
  ℕ, zero, suc, ◌+◌, ◌-◌, Bool, true, false, not, ◌&&◌, ◌||◌, Option, none, some, List, [], ◌∷◌,
  ◌++◌, Bytes, map, length, take, drop, leb, ltb, ◌==◌, if◌then◌else◌,
}
use hadock.Common.Decimal.{dec}
use hadock.Common.Endian.{of_le}
use hadock.Common.Reader.{
  Reader, Result, Error, out_of_fuel, eof, ok, err, pure, ◌>>=◌, and_then, read_full, read_le,
}
use hadock.Common.Texts.{codes, text_eq}
use hadock.Panda.{HrPacket}

abbrev pub meta_length : ℕ
meta_length = 74

abbrev pub svs_magic : ℕ
svs_magic = 0x90

abbrev pub Table : Type 0
Table = List (List Bytes) × Option Error

-- n little-endian values of w bytes.
unfoldable pub read_values : ℕ → ℕ → Reader (List ℕ)
read_values w zero = pure []
read_values w (suc n) = do v ← read_le w; vs ← read_values w n; pure (v ∷ vs)

-- fmt.Sprintf("g2(t, %d)", v)
abbrev pub column_name : ℕ → Bytes
column_name v = codes "g2(t, " ++ (dec v ++ codes ")")

-- The values of processData of the plugin, whose loops are its own: n little-endian values of w bytes.
unfoldable pub data_values : ℕ → ℕ → Reader (List ℕ)
data_values w zero = pure []
data_values w (suc n) = do v ← read_le w; vs ← data_values w n; pure (v ∷ vs)

abbrev pub data_column : ℕ → Bytes
data_column v = codes "g2(t, " ++ (dec v ++ codes ")")

abbrev pub add_line : List Bytes → Table → Table
add_line vs t = (vs ∷ t.0, t.1)

-- What ExportSVSData does: it panics, writes the bytes as they are, or a table.
pub data Export : Type 0 where
  panics : Export
  copies : Bytes → Export
  writes : Table → Export

-- `format` is strconv.FormatFloat(float64(v), 'f', -1, 32) of the float32 with a bit pattern.
module _ (format : ℕ → Bytes) where
  add_round : ℕ → Result (List ℕ) → Table → Table
  add_round i (err e) rest = ([], some e)
  add_round i (ok vs) rest = add_line (dec i ∷ map format vs) rest

  -- `for i := 0; r.Len() > 0; i++`, for rounds that read n floats.
  unfoldable pub svs_rounds : ℕ → ℕ → ℕ → Bytes → Table
  unfolding add_round
  svs_rounds fuel n i [] = ([], none)
  svs_rounds zero n i (b ∷ r) = ([], some out_of_fuel)
  svs_rounds (suc fuel) n i (b ∷ r) =
      let rest = svs_rounds fuel n (i + 1) (read_values 4 n (b ∷ r)).1 in
      add_round i (read_values 4 n (b ∷ r)).0 rest

  with_columns : ℕ → ℕ → Result (List ℕ) → Bytes → Table
  with_columns fuel n (err e) r = ([], some e)
  with_columns fuel n (ok vs) r = add_line (codes "t" ∷ map column_name vs) (svs_rounds fuel n 0 r)

  -- The table that is read behind the metadata.
  unfoldable pub svs_table : ℕ → Bytes → Table
  unfolding with_columns
  svs_table fuel [] = ([], some eof)
  svs_table fuel (n ∷ r) = with_columns fuel n (read_values 2 n r).0 (read_values 2 n r).1

  -- ExportSVSData
  unfoldable pub export_svs_data : ℕ → Bytes → Export
  export_svs_data fuel [] = panics
  export_svs_data fuel (b ∷ bs) =
      if b == svs_magic
      then (if leb meta_length (length (b ∷ bs))
          then writes (svs_table fuel (drop meta_length (b ∷ bs)))
          else panics)
      else copies (b ∷ bs)

-- The loops of processData of the plugin, with `format` as above.
module _ (format : ℕ → Bytes) where
  add_data_round : ℕ → Result (List ℕ) → Table → Table
  add_data_round i (err e) rest = ([], some e)
  add_data_round i (ok vs) rest = add_line (dec i ∷ map format vs) rest

  -- `for i := 0; rs.Len() > 0; i++`, for rounds that read n floats.
  unfoldable pub data_rounds : ℕ → ℕ → ℕ → Bytes → Table
  unfolding add_data_round
  data_rounds fuel n i [] = ([], none)
  data_rounds zero n i (b ∷ r) = ([], some out_of_fuel)
  data_rounds (suc fuel) n i (b ∷ r) =
      let rest = data_rounds fuel n (i + 1) (data_values 4 n (b ∷ r)).1 in
      add_data_round i (data_values 4 n (b ∷ r)).0 rest

  with_data_columns : ℕ → ℕ → Result (List ℕ) → Bytes → Table
  with_data_columns fuel n (err e) r = ([], some e)
  with_data_columns fuel n (ok vs) r =
      add_line (codes "t" ∷ map data_column vs) (data_rounds fuel n 0 r)

  -- processData, from the first byte behind the metadata.
  unfoldable pub process_data : ℕ → Bytes → Table
  unfolding with_data_columns
  process_data fuel [] = ([], some eof)
  process_data fuel (n ∷ r) = with_data_columns fuel n (data_values 2 n r).0 (data_values 2 n r).1

-- type metadata struct of the plugin.
pub record Metadata : Type 0 where
  pub magic : ℕ
  pub acquisition : ℕ
  pub sequence : ℕ
  pub auxiliary : ℕ
  pub source : ℕ
  pub x : ℕ
  pub y : ℕ
  pub format : ℕ
  pub drop_rate : ℕ
  pub offset_x : ℕ
  pub size_x : ℕ
  pub offset_y : ℕ
  pub size_y : ℕ
  pub scale_x : ℕ
  pub scale_y : ℕ
  pub ratio : ℕ
  pub upi : Bytes

-- w bytes at an offset, least significant first.
abbrev field_at : ℕ → ℕ → Bytes → ℕ
field_at o w bs = of_le (take w (drop o bs))

unfoldable pub metadata_of : Bytes → Metadata
metadata_of bs = record {
  magic = field_at 0 1 bs;
  acquisition = field_at 1 8 bs;
  sequence = field_at 9 4 bs;
  auxiliary = field_at 13 8 bs;
  source = field_at 21 1 bs;
  x = field_at 22 2 bs;
  y = field_at 24 2 bs;
  format = field_at 26 1 bs;
  drop_rate = field_at 27 2 bs;
  offset_x = field_at 29 2 bs;
  size_x = field_at 31 2 bs;
  offset_y = field_at 33 2 bs;
  size_y = field_at 35 2 bs;
  scale_x = field_at 37 2 bs;
  scale_y = field_at 39 2 bs;
  ratio = field_at 41 1 bs;
  upi = take 32 (drop 42 bs);
}

-- binary.Read of a metadata.
unfoldable pub read_metadata : Reader Metadata
read_metadata = do bs ← read_full meta_length; pure (metadata_of bs)

-- What Process of the plugin does with a packet. `stopped` is an error of a file, with the metadata that
-- were written before, if any; `failed` is one of the metadata's bytes.
pub data Processed : Type 0 where
  ignored : Processed
  panicked : Processed
  stopped : Option Metadata → Processed
  failed : Error → Processed
  intro : Bytes → Processed
  converted : Metadata → Table → Processed

abbrev pub origin : Bytes
origin = codes "90"

-- `is_v2` says that a packet has panda's VMUProtocol2; the others, which of the calls Prepare, os.Create
-- (or ioutil.WriteFile) of the file with an extension, fail.
module _ (format : ℕ → Bytes) (is_v2 prepare_fails : HrPacket → Bool)
    (create_fails : Bytes → HrPacket → Bool) where
  -- processIntro
  unfoldable pub process_intro : HrPacket → Processed
  process_intro p =
      if prepare_fails p
      then stopped none
      else if ltb (length p.payload) 4
      then panicked
      else if create_fails (codes ".ini") p
      then stopped none
      else intro (take (length p.payload - 4) p.payload)

  -- processMeta, and processData behind it.
  process_files : ℕ → HrPacket → Result Metadata → Bytes → Processed
  process_files fuel p (err e) r = failed e
  process_files fuel p (ok m) r =
      if create_fails (codes ".xml") p
      then stopped none
      else if create_fails (codes ".csv") p
      then stopped (some m)
      else converted m (process_data format fuel r)

  unfoldable pub process : ℕ → HrPacket → Processed
  unfolding process_files
  process fuel p =
      if not (is_v2 p) || not (text_eq p.origin origin)
      then ignored
      else if p.sequence == 1
      then process_intro p
      else if prepare_fails p
      then stopped none
      else process_files fuel p (read_metadata p.payload).0 (read_metadata p.payload).1
