-- ===== src/Storage.antt =====
-- storage/storage.go: which packets a storage takes, and in which directory it puts them.
pub mod Accept
pub mod Archive
pub mod Paths
pub mod Directories
pub mod Disk
pub mod Dispatch
pub mod Files
pub mod Hadock
pub mod HadockScan
use hadock.Common.{
  ℕ, zero, suc, ◌+◌, ◌*◌, ◌-◌, ◌/◌, ◌%◌, Bool, true, false, not, ◌&&◌, ◌||◌, Option, none, some,
  List, [], ◌∷◌, ◌++◌, Bytes, length, ltb, leb, ◌==◌, if◌then◌else◌, map,
}
use hadock.Common.Decimal.{dec, padded}
use hadock.Common.Search.{found}
use hadock.Common.Texts.{codes, text_eq, text_le}
use hadock.Panda.{HrPacket, Kind, table, image, other, sdh_v1, sdh_v2, idh_v1, idh_v2}
use hadock.Notifier.Pool.{trim_nuls}

-- type Control struct
pub record Control : Type 0 where
  pub type_name : Bytes
  pub accepts : List Bytes
  pub rejects : List Bytes

-- checkOrigin: sort.SearchStrings and the test behind it.
unfoldable pub check_origin : Bytes → List Bytes → Bool
check_origin o [] = true
check_origin o (v ∷ vs) = found text_eq text_le [] o (v ∷ vs)

-- The origin of a packet that Control.Type names; `channel_name` is panda's Channel.String.
unfoldable pub origin_of : (ℕ → Bytes) → Bytes → HrPacket → Option Bytes
origin_of channel_name type_name p =
    if text_eq type_name [] || text_eq type_name (codes "channel")
    then some (channel_name p.stream)
    else if text_eq type_name (codes "origin") || text_eq type_name (codes "source")
    then some p.origin
    else none

-- Can behind the switch.
unfoldable pub can_origin : Bytes → List Bytes → List Bytes → Bool
can_origin o [] [] = true
can_origin o [] (r ∷ rs) = not (check_origin o (r ∷ rs))
can_origin o (a ∷ xs) rs = check_origin o (a ∷ xs) || not (check_origin o rs)

-- Can: `none` is a nil Control.
unfoldable pub can : (ℕ → Bytes) → Option Control → HrPacket → Bool
can channel_name none p = true
can channel_name (some c) p = elim (origin_of channel_name c.type_name p) [
  | none ↦ false
  | some o ↦ can_origin o c.accepts c.rejects
]

-- The levels of a directory.
pub data Level : Type 0 where
  classic upi source instance_dir type_dir mode_dir year day hour minute vmu_time acq_time : Level
  named : Level

-- strings.ToLower, on ASCII.
unfoldable pub lower : Bytes → Bytes
lower bs = map (λ b. if leb 65 b && leb b 90 then b + 32 else b) bs

-- The first entry of a table that has the text.
abbrev pub lookup : List (Bytes × Level) → Bytes → Level
lookup [] n = named
lookup ((t, l) ∷ ts) n = if text_eq t n then l else lookup ts n

abbrev pub level_names : List (Bytes × Level)
level_names =
    (codes "classic", classic)
    ∷ (codes "upi", upi)
    ∷ (codes "source", source)
    ∷ (codes "instance", instance_dir)
    ∷ (codes "type", type_dir)
    ∷ (codes "mode", mode_dir)
    ∷ (codes "year", year)
    ∷ (codes "doy", day)
    ∷ (codes "hour", hour)
    ∷ (codes "minute", minute)
    ∷ (codes "vmu", vmu_time)
    ∷ (codes "acq", acq_time)
    ∷ []

-- The case that the switch on strings.ToLower(n) takes.
unfoldable pub level_of : Bytes → Level
level_of n = lookup level_names (lower n)

abbrev pub classic_levels : List Bytes
classic_levels = codes "instance" ∷ codes "type" ∷ codes "mode" ∷ codes "source" ∷ []

abbrev pub time_levels : List Bytes
time_levels = codes "year" ∷ codes "doy" ∷ codes "hour" ∷ codes "minute" ∷ []

without_empty : List Bytes → List Bytes
without_empty [] = []
without_empty ([] ∷ ls) = without_empty ls
without_empty ((b ∷ bs) ∷ ls) = (b ∷ bs) ∷ without_empty ls

unfoldable pub check_levels : List Bytes → List Bytes → List Bytes
unfolding without_empty
check_levels ls ds = elim (without_empty ls) [ [] ↦ ds | v ∷ vs ↦ v ∷ vs ]

-- hadock's instances; instanceDir, without the join.
unfoldable pub instance_name : ℕ → Bytes
instance_name i =
    if i == 0
    then codes "TEST"
    else if i == 1 || i == 2
    then codes "SIM" ++ dec i
    else if i == 255
    then codes "OPS"
    else codes "DATA-" ++ dec i

unfoldable pub type_name_of : Kind → Bytes
type_name_of (table s) = codes "sciences"
type_name_of (image i) = codes "images"
type_name_of other = codes "unknown"

unfoldable pub mode_name : Bool → Bytes
mode_name realtime = if realtime then codes "realtime" else codes "playback"

-- strings.Replace(s, " ", "-", -1)
abbrev pub dashed : Bytes → Bytes
dashed bs = map (λ b. if b == 32 then 45 else b) bs

abbrev pub upi_info : Kind → Bytes
upi_info (table (sdh_v2 info)) = info
upi_info (table sdh_v1) = []
upi_info (image (idh_v1 info)) = info
upi_info (image (idh_v2 info)) = info
upi_info other = []

abbrev pub upi_default : Kind → Bytes
upi_default (table s) = codes "SCIENCES"
upi_default (image i) = codes "IMAGES"
upi_default other = []

abbrev pub unless_empty : Bytes → Bytes → Bytes
unless_empty [] d = d
unless_empty (b ∷ bs) d = b ∷ bs

unfoldable pub get_upi : HrPacket → Bytes
get_upi p = unless_empty (dashed (trim_nuls (upi_info p.kind))) (upi_default p.kind)
