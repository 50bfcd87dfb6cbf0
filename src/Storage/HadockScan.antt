-- ===== src/Storage/HadockScan.antt =====
-- What encodeHadock writes, read by scanPackets.
use hadock.Common.{
  ℕ, zero, suc, ◌+◌, ◌-◌, ◌<◌, ◌≤◌, ◌≡◌, refl, ap, ◌∙◌, sym, false, some, ◌++◌, Bytes, length,
  length-append, length-take, take, drop, replicate, u32, append_assoc, arith,
}
use hadock.Common.Endian.{be, of_be, of_be-be, length-be}
use hadock.Panda.{HrPacket}
use hadock.Storage.{get_upi}
use hadock.Storage.Hadock.{
  RawMethods, encode_raw_packet, encode_hadock, hadock_fields, upi_field, scan_packets,
  parse_origin, hrdp_header_size,
}
use hadock.Vmu.Archive.{copy_of-sized, ge→ltb}
use hadock.Common.Scanner.{token, copy_of}

length-replicate : (n b : ℕ) → length (replicate n b) ≡ n
length-replicate zero b = refl
length-replicate (suc n) b = omega (arith, length-replicate n b)

length-upi_field : (s : Bytes) → length (upi_field s) ≡ 32
unfolding upi_field
length-upi_field s = omega (
  arith,
  length-append (take 32 s) (replicate (32 - length (take 32 s)) 0),
  length-replicate (32 - length (take 32 s)) 0,
  length-take 32 s,
)

length-hadock_fields :
    (raw : RawMethods) (i o : ℕ) (p : HrPacket) → length (hadock_fields raw i o p) ≡ 44
unfolding hadock_fields be
length-hadock_fields raw i o p = omega (arith, length-upi_field (get_upi p))

of_be-sized : (n : ℕ) (xs : Bytes) → n < 4294967296 → of_be (take 4 (be 4 n ++ xs)) ≡ n
unfolding be
of_be-sized n xs h = of_be-be 4 n (omega arith)

drop-be : (n : ℕ) (xs : Bytes) → drop 4 (be 4 n ++ xs) ≡ xs
unfolding be
drop-be n xs = refl

scan-be :
    (bs cs : Bytes) (n : ℕ)
    → of_be (take 4 bs) ≡ n
    → n + 4 ≤ length bs
    → drop 4 bs ≡ cs
    → scan_packets bs false ≡ token (n + 4) (copy_of n cs)
unfolding scan_packets
scan-be bs cs n e l d =
    let m : n + 4 - 4 ≡ n = omega arith in
    rw (e, d, ge→ltb (length bs) 4 (omega arith), ge→ltb (length bs) (n + 4) l, m)

scan_packets-sized :
    (n : ℕ) (body rest : Bytes)
    → n < 4294967296
    → length body ≡ n
    → scan_packets (be 4 n ++ (body ++ rest)) false ≡ token (n + 4) body
scan_packets-sized n body rest h l =
    scan-be (be 4 n ++ (body ++ rest)) (body ++ rest) n (of_be-sized n (body ++ rest) h)
      (omega (arith, length-append (be 4 n) (body ++ rest), length-be 4 n, length-append body rest))
      (drop-be n (body ++ rest))
    ∙ ap (token (n + 4)) (copy_of-sized n body rest l)

-- A packet whose origin is a hexadecimal byte and whose raw bytes exist, with a size below 2 ^ 32,
-- is written, and scanning what was written takes off the 44 bytes of its fields and its raw bytes
-- and stops behind them, whatever follows.
pub scan_packets-encode_hadock :
    (raw : RawMethods) (i o : ℕ) (p : HrPacket) (b rest : Bytes)
    → parse_origin p.origin ≡ some o
    → encode_raw_packet raw p ≡ some b
    → 44 + length b < 4294967296
    → (bs : Bytes) × ((encode_hadock raw i p ≡ some bs)
        × ((scan_packets (bs ++ rest) false ≡ token (length bs) (hadock_fields raw i o p ++ b))
            × (length bs ≡ 48 + length b)))
unfolding encode_hadock
scan_packets-encode_hadock raw i o p b rest ho hb l =
    let body = hadock_fields raw i o p ++ b in
    let n : u32 (length b + hrdp_header_size) ≡ 44 + length b = omega arith in
    let len : length body ≡ 44 + length b =
      omega (arith, length-append (hadock_fields raw i o p) b, length-hadock_fields raw i o p) in
    let whole : length (be 4 (44 + length b) ++ body) ≡ 44 + length b + 4 =
      omega (arith, length-append (be 4 (44 + length b)) body, length-be 4 (44 + length b), len) in
    (
      be 4 (44 + length b) ++ body,
      (
        rw (ho, hb, encode_hadock) (ap (λ k. some (be 4 k ++ body)) n),
        (
          ap (λ bs. scan_packets bs false) (append_assoc (be 4 (44 + length b)) body rest)
              ∙ scan_packets-sized (44 + length b) body rest l len
              ∙ ap (λ k. token k body) (sym whole),
          omega (arith, whole),
        ),
      ),
    )
