-- ===== src/Distrib/Browse.antt =====
-- distrib/browse.go: the listing of a directory.
pub mod Names
use hadock.Common.{
  ℕ, Bool, true, false, not, ◌||◌, Option, none, some, List, [], ◌∷◌, ◌++◌, Bytes, ◌==◌,
  if◌then◌else◌,
}
use hadock.Common.Texts.{codes}
use hadock.Distrib.{is_acceptable}
use hadock.Storage.Files.{has_suffix, xml}

-- os.FileInfo of an entry; its name has no slash, so that filepath.Base keeps it.
pub record FileInfo : Type 0 where
  pub name : Bytes
  pub size : ℕ
  pub mod_time : ℕ
  pub is_dir : Bool

-- type info struct
pub record Info : Type 0 where
  pub name : Bytes
  pub mod_time : ℕ
  pub size : ℕ
  pub regular : Bool
  pub acquisition : ℕ
  pub origin : ℕ
  pub sequence : ℕ
  pub format : Bytes

abbrev pub is_separator : ℕ → Bool
is_separator b = b == 95 || b == 46

abbrev pub cons_field : Bytes → List Bytes → List Bytes
cons_field [] fs = fs
cons_field (b ∷ f) fs = (b ∷ f) ∷ fs

-- The field that a text begins with, and those behind it.
abbrev pub split_fields : Bytes → Bytes × List Bytes
split_fields [] = ([], [])
split_fields (b ∷ s) =
    let r = split_fields s in if is_separator b then ([], cons_field r.0 r.1) else (b ∷ r.0, r.1)

-- strings.FieldsFunc(s, split)
abbrev pub fields : Bytes → List Bytes
fields s = cons_field (split_fields s).0 (split_fields s).1

abbrev pub bare_info : FileInfo → Info
bare_info i = record {
  name = i.name;
  mod_time = i.mod_time;
  size = i.size;
  regular = not i.is_dir;
  acquisition = 0;
  origin = 0;
  sequence = 0;
  format = [];
}

pub data Encoding : Type 0 where
  json xml_text csv : Encoding

-- The switch of ServeHTTP: none is the status 406.
unfoldable pub encoding_of : Bytes → Option Encoding
encoding_of a =
    if is_acceptable a (codes "application/json" ∷ [])
    then some json
    else if is_acceptable a (codes "application/xml" ∷ [])
    then some xml_text
    else if is_acceptable a (codes "text/csv" ∷ [])
    then some csv
    else none

-- The answers of ServeHTTP: the statuses 404, 406 and 400, the bytes of a listing, and the panic of the
-- goroutine of readDir, from which nothing recovers.
pub data Answer : Type 0 where
  not_found not_acceptable bad_request ends_server : Answer
  listing : Bytes → Answer

cons_info : Option Info → Option (List Info) → Option (List Info)
cons_info none r = none
cons_info (some n) none = none
cons_info (some n) (some ns) = some (n ∷ ns)

-- `atoi` is strconv.Atoi and `parse_time` time.Parse, whose errors are dropped.
module _ (atoi parse_time : Bytes → ℕ) where
  -- The fields of a file's name: none is a panic, where there are fewer than five.
  abbrev pub named_info : List Bytes → Info → Option Info
  named_info [] n = none
  named_info (a ∷ []) n = none
  named_info (a ∷ b ∷ []) n = none
  named_info (a ∷ b ∷ c ∷ []) n = none
  named_info (a ∷ b ∷ c ∷ d ∷ []) n = none
  named_info (a ∷ b ∷ c ∷ d ∷ e ∷ fs) n = some (record n {
    origin = atoi a;
    sequence = atoi b;
    acquisition = parse_time (c ++ (codes "_" ++ d));
    format = e;
  })

  unfoldable pub info_of : FileInfo → Option Info
  info_of i = if i.is_dir then some (bare_info i) else named_info (fields i.name) (bare_info i)

  -- The goroutine of readDir: what it sends, or none, where it panics.
  unfoldable pub read_dir : List FileInfo → Option (List Info)
  unfolding cons_info
  read_dir [] = some []
  read_dir (i ∷ is) =
      let rest = read_dir is in if has_suffix i.name xml then rest else cons_info (info_of i) rest

  -- `encode` is the encoder of a type: none is an error.
  module _ (encode : Encoding → List Info → Option Bytes) where
    abbrev pub encoded : Option Bytes → Answer
    encoded none = bad_request
    encoded (some bs) = listing bs

    -- What follows the switch of ServeHTTP.
    abbrev pub encoded_as : Option Encoding → List Info → Answer
    encoded_as none ns = not_acceptable
    encoded_as (some e) ns = encoded (encode e ns)

    abbrev pub answer_listing : Bytes → Option (List Info) → Answer
    answer_listing a none = ends_server
    answer_listing a (some ns) = encoded_as (encoding_of a) ns

    -- ServeHTTP of a request that accepts some types: none is a directory that ioutil.ReadDir fails on.
    unfoldable pub serve : Bytes → Option (List FileInfo) → Answer
    serve a none = not_found
    serve a (some is) = answer_listing a (read_dir is)
