-- ===== src/Vmu/Archive.antt =====
-- An archive that EncodePacket writes, read by scanVMUPackets.
use hadock.Common.{
  u32, concat, All, map, Option, none, some, ℕ, ◌+◌, ◌-◌, ◌<◌, ◌≤◌, ◌≡◌, refl, sym, ap, subst, ◌∙◌,
  true, false, List, [], ◌∷◌, ◌++◌, Bytes, length, length-append, take, drop, ltb, append_assoc,
  append-nil, take-append, drop-append, arith,
}
use hadock.Common.Endian.{of_le, le, length-le, of_le-le}
use hadock.Vmu.{VmuPacket, Channel, Split, VmuResult, ok, encode_vmu_packet, summed, hrdl_header}
use hadock.Common.Scanner.{token, copy_of}
use hadock.Vmu.Scan.{scan_vmu_packets}
use hadock.Vmu.Sizes.{
  IsSized, content, framed, encode_packet-framed, length-framed, length-hrdl_header, length-summed,
  length-content, hrdp_size, hrdp_fields, length-hrdp_fields,
}

copy_of-all : (bs rest : Bytes) → copy_of (length bs) (bs ++ rest) ≡ bs
copy_of-all bs rest =
    let e : length bs - length (bs ++ rest) ≡ 0 = omega (arith, length-append bs rest) in
    rw (take-append bs rest, e, append-nil)

drop-fields : (f xs : Bytes) (n : ℕ) → length f ≡ n → drop n (f ++ xs) ≡ xs
drop-fields f xs n h = subst (λ k. drop k (f ++ xs) ≡ xs) h (drop-append f xs)

pub ge→ltb : (a b : ℕ) → b ≤ a → ltb a b ≡ false
ge→ltb a b h = ground arith

scan-token :
    (bs : Bytes) (n : ℕ)
    → of_le (take 4 bs) ≡ n
    → n + 4 ≤ length bs
    → 22 ≤ n
    → scan_vmu_packets 14 8 bs false ≡ token (n + 4) (copy_of (n - 14 - 8) (drop 26 bs))
unfolding scan_vmu_packets
scan-token bs n e l m =
    rw (e, ge→ltb (length bs) 4 (omega arith), ge→ltb (length bs) (n + 4) l, ge→ltb n 22 m)

drop-framed : (n : ℕ) (f xs : Bytes) → length f ≡ 22 → drop 26 (le 4 n ++ (f ++ xs)) ≡ xs
unfolding le
drop-framed n f xs h = drop-fields f xs 22 h

of_le-framed : (n : ℕ) (xs : Bytes) → n < 4294967296 → of_le (take 4 (le 4 n ++ xs)) ≡ n
unfolding le
of_le-framed n xs h = of_le-le 4 n (omega arith)

pub copy_of-sized : (n : ℕ) (cs rest : Bytes) → length cs ≡ n → copy_of n (cs ++ rest) ≡ cs
copy_of-sized n cs rest h = subst (λ k. copy_of k (cs ++ rest) ≡ cs) h (copy_of-all cs rest)

-- A token is cut whole out of what follows, whatever that is.
scan-sized :
    (n : ℕ) (f cs rest : Bytes)
    → n < 4294967296
    → length f ≡ 22
    → 22 + length cs ≡ n
    → scan_vmu_packets 14 8 (le 4 n ++ (f ++ (cs ++ rest))) false ≡ token (n + 4) cs
scan-sized n f cs rest h hf hn =
    let len : n + 4 ≤ length (le 4 n ++ (f ++ (cs ++ rest))) = omega (
      arith,
      length-append (le 4 n) (f ++ (cs ++ rest)),
      length-le 4 n,
      length-append f (cs ++ rest),
      length-append cs rest,
    ) in
    scan-token (le 4 n ++ (f ++ (cs ++ rest))) n (of_le-framed n (f ++ (cs ++ rest)) h) len
      (omega arith)
    ∙ ap (λ xs. token (n + 4) (copy_of (n - 14 - 8) xs)) (drop-framed n f (cs ++ rest) hf)
    ∙ ap (token (n + 4)) (copy_of-sized (n - 14 - 8) cs rest (omega arith))

-- The tokens that scanning takes off the front of bs, and what is left.
pub data Scanned (header_len sync_len : ℕ) : Bytes → List Bytes → Bytes → Type 0 where
  rests : (bs : Bytes) → Scanned header_len sync_len bs [] bs
  takes :
      (bs : Bytes) (n : ℕ) (t : Bytes) (ts : List Bytes) (rest : Bytes)
      → scan_vmu_packets header_len sync_len bs false ≡ token n t
      → Scanned header_len sync_len (drop n bs) ts rest
      → Scanned header_len sync_len bs (t ∷ ts) rest

abbrev joined : VmuResult → Option Bytes → Option Bytes
joined (ok bs) (some cs) = some (bs ++ cs)
joined _ _ = none

-- The headers have the widths of panda's, and the size fits its word.
abbrev pub IsArchived : VmuPacket → Type 0
IsArchived p = IsSized p.kind p.channel × (hrdp_size p < 4294967296)

module _ (channel_byte : Channel → ℕ) (now : Split) where
  -- Packets written one behind the other.
  abbrev pub encode_archive : List VmuPacket → Option Bytes
  encode_archive [] = some []
  encode_archive (p ∷ ps) = joined (encode_vmu_packet channel_byte now p true) (encode_archive ps)

  abbrev pub framed_all : List VmuPacket → Bytes
  framed_all ps = concat (map (framed channel_byte now) ps)

  pub encode_archive-framed :
      (ps : List VmuPacket) → All IsArchived ps → encode_archive ps ≡ some (framed_all ps)
  encode_archive-framed [] h = refl
  encode_archive-framed (p ∷ ps) h =
      rw (encode_packet-framed channel_byte now p h.0.0, encode_archive-framed ps h.1)

  framed-split :
      (p : VmuPacket) (rest : Bytes)
      → framed channel_byte now p ++ rest
        ≡ le 4 (u32 (hrdp_size p))
          ++ ((hrdp_fields channel_byte now p ++ hrdl_header p.payload)
              ++ (summed (content p.kind p.payload) ++ rest))
  unfolding framed
  framed-split p rest = simp append_assoc refl

  pub scan-framed :
      (p : VmuPacket) (rest : Bytes)
      → IsArchived p
      → scan_vmu_packets 14 8 (framed channel_byte now p ++ rest) false
        ≡ token (length (framed channel_byte now p)) (summed (content p.kind p.payload))
  scan-framed p rest h =
      let n : u32 (hrdp_size p) ≡ hrdp_size p = omega (arith, h.1) in
      let l : length (framed channel_byte now p) ≡ hrdp_size p + 4 =
        omega (arith, length-framed channel_byte now p h.0) in
      ap (λ bs. scan_vmu_packets 14 8 bs false) (framed-split p rest)
      ∙ scan-sized (u32 (hrdp_size p)) (hrdp_fields channel_byte now p ++ hrdl_header p.payload)
          (summed (content p.kind p.payload)) rest (omega (arith, h.1))
          (omega (
            arith,
            length-append (hrdp_fields channel_byte now p) (hrdl_header p.payload),
            length-hrdp_fields channel_byte now p,
            length-hrdl_header p.payload,
          ))
          (omega (
            arith,
            length-summed (content p.kind p.payload),
            length-content p.kind p.channel p.payload h.0,
            n,
          ))
      ∙ ap (λ k. token k (summed (content p.kind p.payload))) (omega (arith, n, l))

  framed_all-Scanned :
      (ps : List VmuPacket) (rest : Bytes)
      → All IsArchived ps
      → Scanned 14 8 (framed_all ps ++ rest) (map (λ p. summed (content p.kind p.payload)) ps) rest
  framed_all-Scanned [] rest h = rests rest
  framed_all-Scanned (p ∷ ps) rest h =
      subst
        (λ bs.
          Scanned 14 8 bs
            (summed (content p.kind p.payload) ∷ map (λ p. summed (content p.kind p.payload)) ps)
            rest)
        (sym (append_assoc (framed channel_byte now p) (framed_all ps) rest))
        (takes (framed channel_byte now p ++ (framed_all ps ++ rest))
          (length (framed channel_byte now p)) (summed (content p.kind p.payload))
          (map (λ p. summed (content p.kind p.payload)) ps) rest
          (scan-framed p (framed_all ps ++ rest) h.0)
          (subst (λ bs. Scanned 14 8 bs (map (λ p. summed (content p.kind p.payload)) ps) rest)
            (sym (drop-append (framed channel_byte now p) (framed_all ps ++ rest)))
            (framed_all-Scanned ps rest h.1)))

  -- Packets with headers of panda's widths and a size below 2 ^ 32 are all encoded, and, where panda
  -- has HRDPHeaderLen and HRDLSyncLen as this repository has them (14 and 8), whatever
  -- follows the archive, scanning takes off its headers, payload and checksum for each packet, in
  -- order, and nothing more.
  encode_archive-Scanned :
      (ps : List VmuPacket) (rest : Bytes)
      → All IsArchived ps
      → (bs : Bytes) × ((encode_archive ps ≡ some bs)
          × Scanned 14 8 (bs ++ rest) (map (λ p. summed (content p.kind p.payload)) ps) rest)
  encode_archive-Scanned ps rest h =
      (framed_all ps, (encode_archive-framed ps h, framed_all-Scanned ps rest h))
