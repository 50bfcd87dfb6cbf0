-- ===== src/Storage/Files.antt =====
-- storage/files.go: the store that writes a packet to a file, and the shares that link to it.
pub mod Links
pub mod Stored
use hadock.Common.{
  ℕ, ◌-◌, Bool, true, false, not, ◌&&◌, ◌||◌, Option, none, some, List, [], ◌∷◌, ◌++◌, Bytes,
  length, take, drop, leb, ◌==◌, if◌then◌else◌,
}
use hadock.Common.Texts.{codes, text_eq}
use hadock.Panda.{HrPacket, Kind, table, image, other}
use hadock.Storage.{Control, can, check_levels}
use hadock.Storage.Paths.{Calendar, prepare}
use hadock.Storage.Hadock.{RawMethods, encode_raw_packet}
use hadock.Storage.Disk.{
  Disk, Refusals, DiskError, Action, ◌>>◌, done, fail_with, not_encoded, no_metadata, is_regular,
  remove, mkdir_all, write_file, link, symlink_to,
}

-- What the stores take from elsewhere: path.Join and path.Base, the fields of times, panda's times,
-- names and exports, encoding/xml for encodeMetadata, and what the system refuses.
pub record World : Type 0 where
  pub join : Bytes → Bytes → Bytes
  pub base : Bytes → Bytes
  pub calendar : Calendar
  pub adjust : ℕ → ℕ
  pub no_vmu_time : ℕ
  pub channel_name : ℕ → Bytes
  pub raw : RawMethods
  pub export_packet : HrPacket → Option Bytes
  pub metadata : HrPacket → Option Bytes
  pub is_directory : Bytes → Bool
  pub refusals : Refusals

abbrev pub bad : Bytes
bad = codes ".bad"

abbrev pub xml : Bytes
xml = codes ".xml"

abbrev pub has_suffix : Bytes → Bytes → Bool
has_suffix s t = leb (length t) (length s) && text_eq (drop (length s - length t) s) t

-- path.Ext(s) == ".bad": BAD starts with its only dot and has no slash.
unfoldable pub is_bad : Bytes → Bool
is_bad s = has_suffix s bad

-- strings.TrimSuffix(s, BAD)
unfoldable pub trim_bad : Bytes → Bytes
trim_bad s = if has_suffix s bad then take (length s - length bad) s else s

-- dirmaker
pub record Dirmaker : Type 0 where
  pub levels : List Bytes
  pub location : Bytes
  pub time : Bytes
  pub interval : ℕ

-- linkstore
pub record Linkstore : Type 0 where
  pub link_type : Bytes
  pub rembad : Bool
  pub dirs : Dirmaker

-- filestore
pub record Filestore : Type 0 where
  pub control : Control
  pub dirs : Dirmaker
  pub rembad : Bool
  pub is_raw : Bool
  pub links : List Linkstore

-- The options of a share that newLinkStorage reads, and those that NewLocalStorage reads.
pub record ShareOptions : Type 0 where
  pub location : Bytes
  pub epoch : Bytes
  pub levels : List Bytes
  pub interval : ℕ
  pub link_type : Bytes
  pub keep_bad : Bool

pub record StoreOptions : Type 0 where
  pub control : Control
  pub location : Bytes
  pub epoch : Bytes
  pub levels : List Bytes
  pub interval : ℕ
  pub keep_bad : Bool
  pub format : Bytes
  pub shares : List ShareOptions

-- NewDirectory
unfoldable pub new_directory : Bytes → Bytes → List Bytes → ℕ → Dirmaker
new_directory base time levels interval = record {
  levels = check_levels levels (codes "classic" ∷ codes "vmu" ∷ []);
  location = base;
  time = time;
  interval = interval;
}

module _ (w : World) where
  -- newLinkStorage: `none` is an error.
  unfoldable pub new_link_storage : ShareOptions → Option Linkstore
  new_link_storage o =
      if not (w.is_directory o.location)
      then none
      else if text_eq o.link_type []
          || text_eq o.link_type (codes "hard")
          || text_eq o.link_type (codes "soft")
      then some (record {
        link_type = o.link_type;
        rembad = not o.keep_bad;
        dirs =
            new_directory o.location o.epoch
              (check_levels o.levels (codes "classic" ∷ codes "acq" ∷ [])) o.interval;
      })
      else none

  unfoldable pub new_links : List ShareOptions → Option (List Linkstore)
  new_links [] = some []
  new_links (o ∷ os) = elim (new_link_storage o) [
    | none ↦ none
    | some k ↦ elim (new_links os) [ none ↦ none | some ks ↦ some (k ∷ ks) ]
  ]

  -- NewLocalStorage
  unfoldable pub new_local_storage : StoreOptions → Option Filestore
  new_local_storage o =
      if not (w.is_directory o.location) then none else (elim (new_links o.shares) [
        | none ↦ none
        | some ks ↦ some (record {
          control = o.control;
          dirs = new_directory o.location o.epoch o.levels o.interval;
          rembad = not o.keep_bad;
          is_raw = text_eq o.format (codes "raw");
          links = ks;
        })
      ])

  -- The directory of dirmaker.Prepare.
  unfoldable pub dir_of : Dirmaker → ℕ → HrPacket → Bytes
  dir_of m i p =
      prepare w.join w.calendar w.adjust w.no_vmu_time m.location m.levels m.time m.interval i p

  unfoldable pub encode_with : Bool → HrPacket → Option Bytes
  encode_with is_raw p = if is_raw then encode_raw_packet w.raw p else w.export_packet p

  unfoldable pub remove_if : Bool → Bytes → Action
  remove_if b p = if b then remove p else done

  -- The switch on the type of a link.
  unfoldable pub link_by : Bytes → Bytes → Bytes → Action
  link_by t old p =
      if text_eq t (codes "hard") || text_eq t []
      then link w.refusals old p
      else if text_eq t (codes "soft")
      then symlink_to w.refusals old p
      else done

  -- linkstore.Link
  unfoldable pub link_share : Linkstore → Bytes → ℕ → HrPacket → Action
  link_share s old i p =
      let dir = dir_of s.dirs i p in
      let filename = w.base old in
      mkdir_all w.refusals dir
      >> remove (w.join dir filename)
      >> remove_if (not p.realtime && s.rembad) (w.join dir (filename ++ bad))
      >> link_by s.link_type old (w.join dir filename)

  -- linkToShare
  unfoldable pub link_shares : List Linkstore → Bytes → ℕ → HrPacket → Action
  link_shares [] old i p = done
  link_shares (s ∷ ss) old i p = link_share s old i p >> link_shares ss old i p

  -- writeMetadata
  unfoldable pub write_metadata : Filestore → Bytes → ℕ → HrPacket → Action
  write_metadata f dir i p = elim (w.metadata p) [
    | none ↦ fail_with no_metadata
    | some bs ↦
        let filename = p.filename ++ xml in
        if length bs == 0
        then done
        else (remove_if (not p.realtime && f.rembad) (w.join dir (filename ++ bad))
            >> write_file w.refusals (w.join dir filename) bs
            >> link_shares f.links (w.join dir filename) i p)
  ]

  -- The last step of Store: metadata for an image.
  unfoldable pub finish : Kind → Filestore → Bytes → ℕ → HrPacket → Action
  finish (image h) f dir i p = write_metadata f dir i p
  finish (table h) f dir i p = done
  finish other f dir i p = done

  -- Store from the encoding on.
  unfoldable pub write_packet : Filestore → Bytes → ℕ → HrPacket → Action
  write_packet f dir i p = elim (encode_with f.is_raw p) [
    | none ↦ fail_with not_encoded
    | some bs ↦
        remove_if f.rembad (w.join dir (p.filename ++ bad))
        >> write_file w.refusals (w.join dir p.filename) bs
        >> link_shares f.links (w.join dir p.filename) i p
        >> finish p.kind f dir i p
  ]

  -- Whether Store leaves a bad packet out, since the good one is there.
  unfoldable pub is_superseded : Filestore → Bytes → HrPacket → Disk → Bool
  is_superseded f dir p d =
      f.rembad && (is_bad p.filename && is_regular d (w.join dir (trim_bad p.filename)))

  -- filestore.Store
  unfoldable pub store : Filestore → ℕ → HrPacket → Action
  store f i p d =
      if not (can w.channel_name (some f.control) p)
      then (none, d)
      else (mkdir_all w.refusals (dir_of f.dirs i p) >> λ d.
            if is_superseded f (dir_of f.dirs i p) p d
            then (none, d)
            else write_packet f (dir_of f.dirs i p) i p d)
          d
