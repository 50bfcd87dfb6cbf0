-- ===== src/Storage/Archive.antt =====
-- storage/archives.go: the store that appends packets to tar archives, one for each instance, mode, type
-- and origin. An archive is what its roller was given, the oldest entry first; into which files the
-- roller splits it is up to the library.
pub mod Archives
use hadock.Common.{
  ℕ, Bool, true, false, not, Option, none, some, List, [], ◌∷◌, ◌++◌, Bytes, length, if◌then◌else◌,
}
use hadock.Common.Texts.{text_eq}
use hadock.Panda.{HrPacket, Kind, table, image, other}
use hadock.Storage.{Control, can, instance_name, mode_name, type_name_of}
use hadock.Storage.Files.{World, Dirmaker, dir_of, xml}
use hadock.Storage.Hadock.{encode_raw_packet}

-- A tar.Header with the bytes behind it; the owner and the mode are the same for all.
pub record Entry : Type 0 where
  pub name : Bytes
  pub time : ℕ
  pub contents : Bytes

-- The caches of a tarstore: a map from keys to archives.
abbrev pub Caches : Type 0
Caches = Bytes → Option (List Entry)

pub data ArchiveError : Type 0 where
  not_rolled not_encoded not_written no_metadata : ArchiveError

abbrev pub Outcome : Type 0
Outcome = Option ArchiveError × Caches

-- The fields of a tarstore that do not change. `roll_fails` says for which keys roll.Roll fails,
-- `prepare_fails` for which packets os.MkdirAll does, and `write_data` is WriteData of the roller of a
-- key: whether it fails, and the entries behind the call.
pub record Tarstore : Type 0 where
  pub control : Option Control
  pub tardir : Dirmaker
  pub roll_fails : Bytes → Bool
  pub prepare_fails : ℕ → HrPacket → Bool
  pub write_data : Bytes → List Entry → Entry → Bool × List Entry

module _ (w : World) where
  -- cacheKey
  unfoldable pub cache_key : ℕ → HrPacket → Bytes
  cache_key i p =
      w.join
        (w.join (w.join (w.join [] (instance_name i)) (mode_name p.realtime)) (type_name_of p.kind))
        p.origin

  abbrev pub set_cache : Bytes → List Entry → Caches → Caches
  set_cache k es c = λ j. if text_eq j k then some es else c j

  module _ (t : Tarstore) where
    -- The header that `before` writes; an error of Prepare is dropped, with its directory.
    unfoldable pub entry_of : ℕ → HrPacket → Bytes → Bytes → Entry
    entry_of i p ext bs =
        let dir = if t.prepare_fails i p then [] else dir_of w t.tardir i p in
        record { name = w.join dir (p.filename ++ ext); time = p.timestamp; contents = bs }

    abbrev pub written :
        Bytes → Bool × List Entry → Caches → (List Entry → Caches → Outcome) → Outcome
    written k (true, es) c next = (some not_written, set_cache k es c)
    written k (false, es) c next = next es (set_cache k es c)

    write_metadata : Option Bytes → Bytes → ℕ → HrPacket → List Entry → Caches → Outcome
    write_metadata none k i p es c = (some no_metadata, c)
    write_metadata (some bs) k i p es c =
        written k (t.write_data k es (entry_of i p xml bs)) c (λ fs d. (none, d))

    -- storeMetadata, for images.
    store_metadata : Kind → Bytes → ℕ → HrPacket → List Entry → Caches → Outcome
    unfolding write_metadata
    store_metadata (image h) k i p es c = write_metadata (w.metadata p) k i p es c
    store_metadata (table h) k i p es c = (none, c)
    store_metadata other k i p es c = (none, c)

    write_raw : Option Bytes → Bytes → ℕ → HrPacket → List Entry → Caches → Outcome
    unfolding store_metadata
    write_raw none k i p es c = (some not_encoded, c)
    write_raw (some bs) k i p es c =
        written k (t.write_data k es (entry_of i p [] bs)) c
          (λ fs d. store_metadata p.kind k i p fs d)

    -- Store behind the look-up of the roller.
    store_open : Option (List Entry) → Bytes → ℕ → HrPacket → Caches → Outcome
    unfolding write_raw
    store_open none k i p c =
        if t.roll_fails k
        then (some not_rolled, c)
        else write_raw (encode_raw_packet w.raw p) k i p [] (set_cache k [] c)
    store_open (some es) k i p c = write_raw (encode_raw_packet w.raw p) k i p es c

    -- Store
    unfoldable pub store : ℕ → HrPacket → Caches → Outcome
    unfolding store_open
    store i p c =
        if can w.channel_name t.control p
        then store_open (c (cache_key i p)) (cache_key i p) i p c
        else (none, c)

    -- Packets that are stored one behind the other, whatever errors come.
    unfoldable pub store_all : List (ℕ × HrPacket) → Caches → Caches
    store_all [] c = c
    store_all ((i, p) ∷ ps) c = store_all ps (store i p c).1
