-- ===== src/Vmu.antt =====
-- vmu/: packets encoded as in the archive of the HRDP. The fields of panda's headers, whose types
-- are not in the repository, stand as the bytes that binary.Write makes of them.
pub mod Archive
pub mod Checksum
pub mod Scan
pub mod Sizes
pub mod Sum
use hadock.Common.{
  concat, ℕ, ◌+◌, ◌-◌, ◌%◌, Bool, true, false, Option, none, some, List, [], ◌∷◌, ◌++◌, Bytes,
  length, if◌then◌else◌, u32,
}
use hadock.Common.Endian.{be, le}

abbrev pub hrdl_magic : ℕ
hrdl_magic = 0xf82e3553

abbrev pub fsl_magic : ℕ
fsl_magic = 2

abbrev pub hrdp_header_len : ℕ
hrdp_header_len = 14

abbrev pub hrdl_sync_len : ℕ
hrdl_sync_len = 8

abbrev pub vmu_h_len : ℕ
vmu_h_len = 16

abbrev pub sdh_len_v2 : ℕ
sdh_len_v2 = 56

abbrev pub idh_len_v2 : ℕ
idh_len_v2 = 76

-- hrdlSum.Write: the state after bs.
unfoldable pub write_sum : ℕ → Bytes → ℕ
write_sum sum [] = sum
write_sum sum (b ∷ bs) = write_sum (u32 (sum + b)) bs

-- SumHRD
unfoldable pub sum_hrd : Bytes → ℕ
sum_hrd bs = write_sum 0 bs

-- hrdlSum.Sum: what it returns, and the state behind it.
unfoldable pub sum_append : ℕ → Bytes → Bytes × ℕ
sum_append sum bs = (le 4 (write_sum sum bs), write_sum sum bs)

pub record VmuHeader : Type 0 where
  pub channel : Bytes
  pub source : Bytes
  pub sequence : Bytes
  pub coarse : Bytes
  pub fine : Bytes

pub record SdhV2 : Type 0 where
  pub properties : Bytes
  pub sequence : Bytes
  pub originator : Bytes
  pub acquisition : Bytes
  pub auxiliary : Bytes
  pub id : Bytes
  pub info : Bytes

pub record IdhV2 : Type 0 where
  pub properties : Bytes
  pub sequence : Bytes
  pub originator : Bytes
  pub acquisition : Bytes
  pub auxiliary : Bytes
  pub id : Bytes
  pub format : Bytes
  pub pixels : Bytes
  pub region : Bytes
  pub dropping : Bytes
  pub scaling : Bytes
  pub ratio : Bytes
  pub info : Bytes

-- The type of a packet: *panda.Table and *panda.Image with their headers (none for one of another
-- version), or another type.
pub data VmuKind : Type 0 where
  table : VmuHeader → Option SdhV2 → VmuKind
  image : VmuHeader → Option IdhV2 → VmuKind
  other : VmuKind

-- panda.Channel
pub data Channel : Type 0 where
  science video1 video2 unknown : Channel

-- A time as timutil.Split5 splits it.
pub record Split : Type 0 where
  pub fine : ℕ
  pub coarse : ℕ

-- What EncodePacket asks of a packet; `acquired` is its Generated(), or the time of the call.
pub record VmuPacket : Type 0 where
  pub kind : VmuKind
  pub channel : Channel
  pub payload : Bytes
  pub acquired : Split

pub data VmuError : Type 0 where
  unknown_channel unsupported_type invalid_sdh invalid_idh : VmuError

-- The bytes that are written, or an error.
pub data VmuResult : Type 0 where
  ok : Bytes → VmuResult
  err : VmuError → VmuResult

unfoldable pub encode_vmu_header : VmuHeader → Bytes
encode_vmu_header v =
    concat (v.channel ∷ v.source ∷ be 2 0 ∷ v.sequence ∷ v.coarse ∷ v.fine ∷ be 2 0 ∷ [])

-- What encodeTable and encodeImage write of a header of version 2.
unfoldable pub encode_sdh : SdhV2 → Bytes
encode_sdh s =
    concat
      (s.properties ∷ s.sequence ∷ s.originator ∷ s.acquisition ∷ s.auxiliary ∷ s.id ∷ s.info ∷ [])

unfoldable pub encode_idh : IdhV2 → Bytes
encode_idh i = concat (
    i.properties ∷ i.sequence ∷ i.originator ∷ i.acquisition ∷ i.auxiliary ∷ i.id ∷ i.format
    ∷ i.pixels ∷ i.region ∷ i.dropping ∷ i.scaling ∷ i.ratio ∷ i.info ∷ [])

-- The sync word and the size that encodeTable and encodeImage write: both by the length of the
-- science header.
unfoldable pub hrdl_header : Bytes → Bytes
hrdl_header body = be 4 hrdl_magic ++ le 4 (u32 (vmu_h_len + sdh_len_v2 + length body - 4))

-- What follows the size: the body and its checksum.
unfoldable pub summed : Bytes → Bytes
summed bs = bs ++ le 4 (sum_hrd bs)

unfoldable pub encode_table : VmuHeader → Option SdhV2 → Bytes → VmuResult
encode_table v none body = err invalid_sdh
encode_table v (some s) body =
    ok (hrdl_header body ++ summed (encode_vmu_header v ++ (encode_sdh s ++ body)))

unfoldable pub encode_image : VmuHeader → Option IdhV2 → Bytes → VmuResult
encode_image v none body = err invalid_idh
encode_image v (some i) body =
    ok (hrdl_header body ++ summed (encode_vmu_header v ++ (encode_idh i ++ body)))

-- The length of the header that encodeHRDPHeader counts.
abbrev pub header_len : Channel → Option ℕ
header_len science = some sdh_len_v2
header_len video1 = some idh_len_v2
header_len video2 = some idh_len_v2
header_len unknown = none

abbrev pub then_bytes : Bytes → VmuResult → VmuResult
then_bytes head (ok bs) = ok (head ++ bs)
then_bytes head (err e) = err e

-- The switch of EncodePacket on the type.
unfoldable pub encode_body : VmuKind → Bytes → VmuResult
encode_body (table v s) body = encode_table v s body
encode_body (image v i) body = encode_image v i body
encode_body other body = err unsupported_type

-- `channel_byte` gives the values of panda's channels, and `now` is the time of the call.
module _ (channel_byte : Channel → ℕ) (now : Split) where
  unfoldable pub encode_hrdp_header : VmuPacket → VmuResult
  encode_hrdp_header p = elim (header_len p.channel) [
    | none ↦ err unknown_channel
    | some n ↦ ok (
        le 4 (u32 (hrdp_header_len + hrdl_sync_len + vmu_h_len + 4 + n + length p.payload))
        ++ (be 2 0
            ++ (be 1 fsl_magic
                ++ (be 1 (channel_byte p.channel)
                    ++ (be 4 p.acquired.fine
                        ++ (be 1 p.acquired.coarse ++ (be 4 now.fine ++ be 1 now.coarse)))))))
  ]

  -- EncodePacket: on an error nothing is written.
  unfoldable pub encode_vmu_packet : VmuPacket → Bool → VmuResult
  encode_vmu_packet p true = elim (encode_hrdp_header p) [
    | ok head ↦ then_bytes head (encode_body p.kind p.payload)
    | err e ↦ err e
  ]
  encode_vmu_packet p false = encode_body p.kind p.payload
