-- ===== src/Storage/Hadock.antt =====
-- encodeRawPacket of storage/storage.go and encodeHadock of storage/hrdp.go, and scanPackets of
-- cmd/hadock/dispatch.go, which takes apart what the store wrote.
use hadock.Common.{
  ℕ, ◌+◌, ◌-◌, ◌*◌, ◌/◌, Bool, true, false, ◌&&◌, Option, none, some, [], ◌∷◌, ◌++◌, Bytes, length,
  take, drop, replicate, ltb, leb, u8, u32, if◌then◌else◌,
}
use hadock.Common.Endian.{be, of_be}
use hadock.Notifier.{bool_byte}
use hadock.Panda.{HrPacket, Kind, table, image, other}
use hadock.Storage.{get_upi}
use hadock.Common.Scanner.{Scan, more, token, final, copy_of}

-- What panda's methods give for raw packets: the FCC of a header that is a Four or a Bitmap, the
-- acquisition time (that of a header of version 2, or Timestamp().Unix()), the sizes of an image
-- and ExportRaw, as the bytes that are written.
pub record RawMethods : Type 0 where
  pub fcc_of : HrPacket → Option Bytes
  pub sequence_of : HrPacket → Bytes
  pub acquisition_of : HrPacket → Bytes
  pub x_of : HrPacket → Bytes
  pub y_of : HrPacket → Bytes
  pub export_raw : HrPacket → Option Bytes

-- The value of a hexadecimal digit.
abbrev hex_digit : ℕ → Option ℕ
hex_digit b =
    if leb 48 b && leb b 57
    then some (b - 48)
    else if leb 97 b && leb b 102
    then some (b - 87)
    else if leb 65 b && leb b 70
    then some (b - 55)
    else none

abbrev hex_from : ℕ → Bytes → Option ℕ
hex_from acc [] = if ltb acc 256 then some acc else none
hex_from acc (b ∷ bs) = elim (hex_digit b) [ some d ↦ hex_from (acc * 16 + d) bs | none ↦ none ]

-- strconv.ParseUint(s, 16, 8)
abbrev pub parse_origin : Bytes → Option ℕ
parse_origin [] = none
parse_origin (b ∷ bs) = hex_from 0 (b ∷ bs)

-- copy(make([]byte, 32), s)
unfoldable pub upi_field : Bytes → Bytes
upi_field s = take 32 s ++ replicate (32 - length (take 32 s)) 0

abbrev pub hrdp_header_size : ℕ
hrdp_header_size = 44

module _ (raw : RawMethods) where
  -- encodeRawPacket: `none` is an error. Another packet has no bytes and no error.
  unfoldable pub encode_raw_kind : Kind → HrPacket → Option Bytes
  encode_raw_kind (table s) p = elim (raw.fcc_of p) [
    | none ↦ raw.export_raw p
    | some fcc ↦ some (fcc ++ (raw.sequence_of p ++ (raw.acquisition_of p ++ p.payload)))
  ]
  encode_raw_kind (image i) p = elim (raw.fcc_of p) [
    | none ↦ raw.export_raw p
    | some fcc ↦ some (
        fcc
        ++ (raw.sequence_of p
            ++ (raw.acquisition_of p ++ (raw.x_of p ++ (raw.y_of p ++ p.payload)))))
  ]
  encode_raw_kind other p = some []

  unfoldable pub encode_raw_packet : HrPacket → Option Bytes
  encode_raw_packet p = encode_raw_kind p.kind p

  -- The fields of encodeHadock behind the size.
  unfoldable pub hadock_fields : ℕ → ℕ → HrPacket → Bytes
  hadock_fields i o p =
      be 1 i
      ++ (be 1 (u8 p.stream)
          ++ (be 1 (bool_byte p.realtime)
              ++ (be 1 o
                  ++ (be 4 (u32 p.sequence)
                      ++ (be 4 (u32 (p.timestamp / 1000000000)) ++ upi_field (get_upi p))))))

  -- encodeHadock: what it hands to the writer, whose error it drops.
  unfoldable pub encode_hadock : ℕ → HrPacket → Option Bytes
  encode_hadock i p = elim (parse_origin p.origin) [
    | none ↦ none
    | some o ↦ elim (encode_raw_packet p) [
      | none ↦ none
      | some b ↦ some (be 4 (u32 (length b + hrdp_header_size)) ++ (hadock_fields i o p ++ b))
    ]
  ]

unfoldable pub scan_packets : Bytes → Bool → Scan
scan_packets bs true = final (length bs) bs
scan_packets bs false =
    if ltb (length bs) 4
    then more
    else (let size = of_be (take 4 bs) + 4 in
        if ltb (length bs) size then more else token size (copy_of (size - 4) (drop 4 bs)))
