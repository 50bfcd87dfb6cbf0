-- ===== src/Proto.antt =====
-- proto.go: the hadock protocol. A packet is framed by a preamble and a prefix, in one piece
-- (version 1) or in numbered fragments (version 2).
-- The checksum of a packet is read and compared, but the comparison has an empty body in
-- DecodeBinaryPackets: it has no effect and is left out.
pub mod Compressed
pub mod Instances
pub mod Progress
pub mod RoundTrip
pub mod Stream
use hadock.Common.{
  ℕ, zero, suc, ◌+◌, ◌*◌, ◌/◌, ◌%◌, ◌≡◌, refl, Bool, true, false, not, ◌&&◌, Option, none, some,
  List, [], ◌∷◌, ◌++◌, map, arith, Bytes, length, concat, ltb, leb, ◌==◌, if◌then◌else◌, u8,
}
use hadock.Common.Endian.{be}
use hadock.Common.Reader.{
  Error, Result, ok, err, eof, unexpected_eof, skip, unsupported_protocol, unsupported_vmu_version,
  not_implemented, version_mismatched, out_of_fuel, Reader, pure, fail, ◌>>=◌, and_then, read_full,
  read_be,
}
use hadock.Common.Search.{found}
use hadock.Common.Sort.{sort_by}

abbrev pub preamble : ℕ
preamble = 0xf82e3553

abbrev pub hadock_version_1 : ℕ
hadock_version_1 = 0

abbrev pub hadock_version_2 : ℕ
hadock_version_2 = 1

-- type Packet struct; `payload_length` is its field Length.
pub record Packet : Type 0 where
  pub protocol : ℕ
  pub version : ℕ
  pub instance_id : ℕ
  pub sequence : ℕ
  pub payload_length : ℕ
  pub payload : Bytes
  pub sum : ℕ
  pub curr : ℕ
  pub last : ℕ

-- new(Packet)
abbrev pub new_packet : Packet
new_packet = record {
  protocol = 0;
  version = 0;
  instance_id = 0;
  sequence = 0;
  payload_length = 0;
  payload = [];
  sum = 0;
  curr = 0;
  last = 0;
}

-- EncodePacket: the preamble is not written.
unfoldable pub encode_packet : Packet → Result Bytes
encode_packet p =
    if p.version == hadock_version_1
    then ok (
        be 1 (u8 (p.protocol * 16 + p.version))
        ++ (be 1 p.instance_id
            ++ (be 2 p.sequence ++ (be 4 p.payload_length ++ (p.payload ++ be 2 p.sum)))))
    else err not_implemented

unfoldable pub read_preamble : Reader ℕ
read_preamble = do magic ← read_be 4; if magic == preamble then read_be 2 else fail skip

unfoldable pub read_packet : Packet → Reader Packet
read_packet p = do
  sequence ← read_be 2
  payload_length ← read_be 4
  payload ← read_full payload_length
  sum ← read_be 2
  pure (record p {
    sequence = sequence;
    payload_length = payload_length;
    payload = payload;
    sum = sum;
  })

-- The Boolean says that the fragment is the last one.
unfoldable pub read_fragment : Packet → Reader (Packet × Bool)
read_fragment p = do
  curr ← read_be 2
  last ← read_be 2
  v ← read_packet (record p { curr = curr; last = last })
  pure (v, curr == last)

-- The `for` loop over fragments: `ps` holds those that came before, and the last one is returned
-- beside them all.
unfoldable pub read_fragments : ℕ → ℕ → List Packet → Reader (List Packet × Packet)
read_fragments zero prefix ps = fail out_of_fuel
read_fragments (suc fuel) prefix ps = do
  (v, final) ← read_fragment new_packet
  let ps' = ps ++ (v ∷ [])
  let more = do
    x ← read_preamble
    if x == prefix then read_fragments fuel prefix ps' else fail (version_mismatched prefix x)
  if final then pure (ps', v) else more

-- The fragments of a packet, ordered by number and joined.
unfoldable pub join_fragments : Packet → List Packet → Packet → Packet
join_fragments p ps v = record p {
  sequence = v.sequence;
  payload_length = v.payload_length;
  payload = concat (map (λ (q : Packet). q.payload) (sort_by (λ (q : Packet). q.curr) ps));
}

-- The `switch` on the protocol. Each fragment takes a byte at least, so the fuel is enough.
unfoldable pub decode_body : Packet → ℕ → Reader Packet
decode_body p prefix r =
    let fragmented : Reader Packet = do
      (ps, v) ← read_fragments (suc (length r)) prefix []
      pure (join_fragments p ps v)
    in if p.protocol == hadock_version_1
      then read_packet p r
      else if p.protocol == hadock_version_2
      then fragmented r
      else fail unsupported_protocol r

-- uint8(prefix>>12), uint8(prefix>>8)&0x0F, uint8(prefix&0xFF)
unfoldable pub packet_of_prefix : ℕ → Packet
packet_of_prefix prefix = record new_packet {
  protocol = u8 (prefix / 4096);
  version = u8 (prefix / 256) % 16;
  instance_id = prefix % 256;
}

unfoldable pub decode_packet : Reader Packet
decode_packet = do prefix ← read_preamble; decode_body (packet_of_prefix prefix) prefix

-- The instances are sorted and searched; an empty list lets every packet pass.
unfoldable pub accepts_instance : List ℕ → ℕ → Bool
accepts_instance is x =
    let sorted = sort_by (λ i. i) is in
    not (ltb 0 (length sorted) && not (found ◌==◌ leb 0 x sorted))

-- The errors on which DecodeBinaryPackets returns; on the others it goes on reading.
unfoldable pub ends_stream : Error → Bool
ends_stream eof = true
ends_stream unsupported_protocol = true
ends_stream unsupported_vmu_version = true
ends_stream _ = false

-- What follows an error that is skipped. `out_of_fuel` is no error of the program: it stands for a loop
-- over fragments that does not end, behind which nothing comes.
unfoldable pub skipped : Error → Option (List Packet) → Option (List Packet)
skipped out_of_fuel rest = none
skipped _ rest = rest

-- The `switch` of DecodeBinaryPackets on the outcome of a round, over what the later rounds send.
unfoldable pub deliver : List ℕ → Option (List Packet) → Result Packet → Option (List Packet)
deliver is rest (ok p) = elim (accepts_instance is p.instance_id) [
  | true ↦ elim rest [ none ↦ none | some ps ↦ some (p ∷ ps) ]
  | false ↦ rest
]
deliver is rest (err e) = elim (ends_stream e) [ true ↦ some [] | false ↦ skipped e rest ]

-- The goroutine of DecodeBinaryPackets: the packets that it sends, in order. `none` says that the
-- fuel of this loop or of one over fragments ran out.
unfoldable pub decode_loop : ℕ → List ℕ → Bytes → Option (List Packet)
decode_loop zero is r = none
decode_loop (suc fuel) is r =
    let rest = decode_loop fuel is (decode_packet r).1 in deliver is rest (decode_packet r).0

-- Each round but the last takes a byte at least.
unfoldable pub decode_binary_packets : List ℕ → Bytes → Option (List Packet)
decode_binary_packets is r = decode_loop (suc (length r)) is r
