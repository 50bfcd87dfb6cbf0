-- ===== src/Proto/RoundTrip.antt =====
-- What the decoders of proto.go read back of what was written, and what they refuse.
use hadock.Common.{
  ℕ, ◌+◌, ◌*◌, ◌/◌, ◌%◌, ◌<◌, ◌≡◌, ◌≢◌, refl, sym, ◌∙◌, [], ◌++◌, arith, Bytes, length,
  append_assoc, u8,
}
use hadock.Common.Endian.{be}
use hadock.Common.Reader.{
  ok, err, eof, skip, pure, fail, ◌>>=◌, read_full, read_be, read_be-be, read_full-append,
}
use hadock.Proto.{
  Packet, new_packet, preamble, encode_packet, read_preamble, read_packet, decode_body,
  packet_of_prefix, decode_packet,
}

-- The fields fit the widths that they are written in, and the length is that of the payload.
pub record IsWritable (p : Packet) : Type 0 where
  pub instance_fits : p.instance_id < 256
  pub sequence_fits : p.sequence < 65536
  pub length_fits : p.payload_length < 4294967296
  pub length_exact : p.payload_length ≡ length p.payload
  pub sum_fits : p.sum < 65536

-- What `read_packet` reads.
unfoldable pub packet_bytes : ℕ → ℕ → Bytes → ℕ → Bytes → Bytes
packet_bytes sequence size payload sum rest =
    be 2 sequence ++ (be 4 size ++ (payload ++ (be 2 sum ++ rest)))

pub read_packet_lem :
    (p : Packet) (sequence size : ℕ) (payload : Bytes) (sum : ℕ) (rest : Bytes)
    → sequence < 65536
    → size < 4294967296
    → size ≡ length payload
    → sum < 65536
    → read_packet p (packet_bytes sequence size payload sum rest) ≡ (
      ok (record p { sequence = sequence; payload_length = size; payload = payload; sum = sum }),
      rest,
    )
unfolding read_packet packet_bytes ◌>>=◌ pure
read_packet_lem p sequence size payload sum rest h1 h2 h3 h4 =
    rw (read_be-be 2 sequence (be 4 size ++ (payload ++ (be 2 sum ++ rest))) h1) (
      rw (read_be-be 4 size (payload ++ (be 2 sum ++ rest)) h2) (
        rw (read_full-append payload (be 2 sum ++ rest) size (sym h3))
          (rw (read_be-be 2 sum rest h4))))

pub read_preamble_lem :
    (prefix : ℕ) (rest : Bytes)
    → prefix < 65536
    → read_preamble (be 4 preamble ++ (be 2 prefix ++ rest)) ≡ (ok prefix, rest)
unfolding read_preamble ◌>>=◌
read_preamble_lem prefix rest h =
    rw (read_be-be 4 preamble (be 2 prefix ++ rest) (omega arith)) (read_be-be 2 prefix rest h)

-- Four bytes that are not the preamble are passed over.
pub read_preamble_skip :
    (magic : ℕ) (rest : Bytes)
    → magic < 4294967296
    → magic ≢ preamble
    → read_preamble (be 4 magic ++ rest) ≡ (err skip, rest)
unfolding read_preamble ◌>>=◌ fail
read_preamble_skip magic rest h ne = rw (read_be-be 4 magic rest h) (ground arith)

pub decode_packet_skip :
    (magic : ℕ) (rest : Bytes)
    → magic < 4294967296
    → magic ≢ preamble
    → decode_packet (be 4 magic ++ rest) ≡ (err skip, rest)
unfolding decode_packet ◌>>=◌
decode_packet_skip magic rest h ne = rw (read_preamble_skip magic rest h ne)

-- What `decode_packet` does behind a preamble and a prefix.
pub decode_packet_prefix :
    (prefix : ℕ) (rest : Bytes)
    → prefix < 65536
    → decode_packet (be 4 preamble ++ (be 2 prefix ++ rest))
      ≡ decode_body (packet_of_prefix prefix) prefix rest
unfolding decode_packet ◌>>=◌
decode_packet_prefix prefix rest h = rw (read_preamble_lem prefix rest h)

abbrev pub packet_v1 : ℕ → Packet
packet_v1 prefix = record new_packet { version = prefix / 256; instance_id = prefix % 256 }

packet_of_prefix_v1 : (prefix : ℕ) → prefix < 4096 → packet_of_prefix prefix ≡ packet_v1 prefix
unfolding packet_of_prefix
packet_of_prefix_v1 prefix h = ground arith

-- A prefix below 4096 is that of version 1 of the protocol.
pub decode_packet_v1 :
    (prefix sequence size : ℕ) (payload : Bytes) (sum : ℕ) (rest : Bytes)
    → prefix < 4096
    → sequence < 65536
    → size < 4294967296
    → size ≡ length payload
    → sum < 65536
    → decode_packet (be 4 preamble ++ (be 2 prefix ++ packet_bytes sequence size payload sum rest))
      ≡ (
        ok (record (packet_v1 prefix) {
          sequence = sequence;
          payload_length = size;
          payload = payload;
          sum = sum;
        }),
        rest,
      )
unfolding decode_body
decode_packet_v1 prefix sequence size payload sum rest h h1 h2 h3 h4 =
    rw (decode_packet_prefix prefix (packet_bytes sequence size payload sum rest) (omega arith)) (
      rw (packet_of_prefix_v1 prefix h)
        (read_packet_lem (packet_v1 prefix) sequence size payload sum rest h1 h2 h3 h4))

be-join_bytes :
    (a b : ℕ) (rest : Bytes)
    → a < 256
    → b < 256
    → be 1 a ++ (be 1 b ++ rest) ≡ be 2 (a * 256 + b) ++ rest
unfolding be
be-join_bytes a b rest h k = ground arith

be-join_words :
    (a b : ℕ) (rest : Bytes)
    → a < 65536
    → b < 65536
    → be 2 a ++ (be 2 b ++ rest) ≡ be 4 (a * 65536 + b) ++ rest
unfolding be
be-join_words a b rest h k = ground arith

-- The packets that EncodePacket accepts and that a decoder of version 1 makes.
pub record IsVersion1 (p : Packet) : Type 0 where
  pub protocol_v1 : p.protocol ≡ 0
  pub version_v1 : p.version ≡ 0
  pub curr_zero : p.curr ≡ 0
  pub last_zero : p.last ≡ 0

encode_packet_ok :
    (p : Packet) (bs : Bytes)
    → encode_packet p ≡ ok bs
    → (p.version ≡ 0)
      × (bs
          ≡ be 1 (u8 (p.protocol * 16 + p.version))
            ++ (be 1 p.instance_id
                ++ (be 2 p.sequence ++ (be 4 p.payload_length ++ (p.payload ++ be 2 p.sum)))))
unfolding encode_packet
encode_packet_ok p bs h = ground arith

-- The same with what follows, the first two bytes joined.
encode_packet_bytes :
    (p : Packet) (bs rest : Bytes)
    → encode_packet p ≡ ok bs
    → p.instance_id < 256
    → bs ++ rest
      ≡ be 2 (u8 (p.protocol * 16) * 256 + p.instance_id)
        ++ packet_bytes p.sequence p.payload_length p.payload p.sum rest
unfolding packet_bytes
encode_packet_bytes p bs rest h fits =
    let (v, e) = encode_packet_ok p bs h in
    let first : u8 (p.protocol * 16 + p.version) ≡ u8 (p.protocol * 16) = omega arith in
    rw (e, first)
      (simp append_assoc (be-join_bytes (u8 (p.protocol * 16)) p.instance_id _ (omega arith) fits))

-- Behind a preamble, DecodePacket reads back the packet that EncodePacket wrote, and leaves what
-- follows it.
pub decode_packet-encode_packet :
    (p : Packet) (bs rest : Bytes)
    → IsWritable p
    → IsVersion1 p
    → encode_packet p ≡ ok bs
    → decode_packet (be 4 preamble ++ (bs ++ rest)) ≡ (ok p, rest)
decode_packet-encode_packet p bs rest w v h =
    let prefix = u8 (p.protocol * 16) * 256 + p.instance_id in
    rw (encode_packet_bytes p bs rest h w.instance_fits) (
      decode_packet_v1 prefix p.sequence p.payload_length p.payload p.sum rest (omega arith)
        w.sequence_fits w.length_fits w.length_exact w.sum_fits
      ∙ ground arith)

-- EncodePacket writes no preamble, and what it writes never begins with one by chance: DecodePacket
-- skips it.
decode_packet-encode_packet_skips :
    (p : Packet) (bs rest : Bytes)
    → IsWritable p
    → encode_packet p ≡ ok bs
    → (decode_packet (bs ++ rest)).0 ≡ err skip
decode_packet-encode_packet_skips p bs rest w h =
    let prefix = u8 (p.protocol * 16) * 256 + p.instance_id in
    rw (encode_packet_bytes p bs rest h w.instance_fits) (
      unfold packet_bytes decode_packet ◌>>=◌ in
      rw (be-join_words prefix p.sequence _ (omega arith) w.sequence_fits)
        (rw (read_preamble_skip (prefix * 65536 + p.sequence) _ (omega arith) (omega arith))))

pub read_preamble_empty : read_preamble [] ≡ (err eof, [])
unfolding read_preamble read_be read_full ◌>>=◌
read_preamble_empty = refl
