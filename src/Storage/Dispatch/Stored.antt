-- ===== src/Storage/Dispatch/Stored.antt =====
-- What cmd/hadock/dispatch.go finds in the files of storage/hrdp.go.
use hadock.Common.{
  ℕ, zero, suc, ◌+◌, ◌≡◌, ◌≢◌, ◌≤◌, ◌<◌, refl, ap, sym, ◌∙◌, false, Option, none, some, List, [],
  ◌∷◌, ◌++◌, append-nil, append_assoc, map, concat, Bytes, length, length-append, take, All, arith,
}
use hadock.Common.Scanner.{
  token, done, out_of_fuel, buffer_size, scan_tokens, scan_file, scan_tokens-token, scan_file-total,
  take-prefix, contents,
}
use hadock.Panda.{HrPacket}
use hadock.Storage.Dispatch.{append_encoded, dispatch, dispatched, store_hadock_all}
use hadock.Storage.Hadock.{
  RawMethods, encode_raw_packet, encode_hadock, hadock_fields, parse_origin, scan_packets,
}
use hadock.Storage.HadockScan.{scan_packets-encode_hadock}

scan_packets-advances :
    (bs : Bytes) (n : ℕ) (t : Bytes) → scan_packets bs false ≡ token n t → (1 ≤ n) × (1 ≤ length bs)
unfolding scan_packets
scan_packets-advances bs n t h = (ground arith, ground arith)

-- The scan of every file of raw packets comes to an end of the program's own.
scan_packets-total : (bs : Bytes) → (scan_file scan_packets bs).1 ≢ out_of_fuel
scan_packets-total = scan_file-total scan_packets scan_packets-advances

module _ (raw : RawMethods) where
  -- The raw bytes of a packet, if it has any, fit the buffer of the scan with its fields.
  abbrev pub IsReadable : ℕ × HrPacket → Type 0
  IsReadable ip = (b : Bytes) → encode_raw_packet raw ip.1 ≡ some b → 48 + length b ≤ 8388608

  -- The fields and raw bytes of a packet, unless its origin is no hexadecimal byte or panda has no raw
  -- bytes for it.
  abbrev pub record_of : ℕ × HrPacket → Option Bytes
  record_of ip = elim (parse_origin ip.1.origin) [
    | none ↦ none
    | some o ↦ elim (encode_raw_packet raw ip.1) [
      | none ↦ none
      | some b ↦ some (hadock_fields raw ip.0 o ip.1 ++ b)
    ]
  ]

  abbrev cons_record : Option Bytes → List Bytes → List Bytes
  cons_record none ts = ts
  cons_record (some t) ts = t ∷ ts

  abbrev pub records : List (ℕ × HrPacket) → List Bytes
  records [] = []
  records (ip ∷ ips) = cons_record (record_of ip) (records ips)

  abbrev bytes_or_none : Option Bytes → Bytes
  bytes_or_none none = []
  bytes_or_none (some bs) = bs

  -- The bytes of a file, packet by packet.
  abbrev stored : List (ℕ × HrPacket) → Bytes
  stored [] = []
  stored (ip ∷ ips) = bytes_or_none (encode_hadock raw ip.0 ip.1) ++ stored ips

  append_encoded-bytes :
      (e : Option Bytes) (file : Bytes) → (append_encoded e file).1 ≡ file ++ bytes_or_none e
  append_encoded-bytes none file = sym (append-nil file)
  append_encoded-bytes (some bs) file = refl

  store_hadock_all-stored :
      (file : Bytes) (ips : List (ℕ × HrPacket))
      → store_hadock_all raw file ips ≡ file ++ stored ips
  unfolding store_hadock_all
  store_hadock_all-stored file [] = sym (append-nil file)
  store_hadock_all-stored file (ip ∷ ips) =
      let e = encode_hadock raw ip.0 ip.1 in
      store_hadock_all-stored (append_encoded e file).1 ips
      ∙ ap (λ f. f ++ stored ips) (append_encoded-bytes e file)
      ∙ append_assoc file (bytes_or_none e) (stored ips)

  -- A packet that was stored is the next token, whatever follows it.
  scan_packets-buffered :
      (i o : ℕ) (p : HrPacket) (b bs rest : Bytes)
      → parse_origin p.origin ≡ some o
      → encode_raw_packet raw p ≡ some b
      → encode_hadock raw i p ≡ some bs
      → 48 + length b ≤ 8388608
      → (1 ≤ length bs)
        × (scan_packets (take buffer_size (bs ++ rest)) false
            ≡ token (length bs) (hadock_fields raw i o p ++ b))
  scan_packets-buffered i o p b bs rest ho hb e l =
      let (cs, (f, (s, m))) = scan_packets-encode_hadock raw i o p b [] ho hb (omega arith) in
      let q : cs ≡ bs = cc in
      let n : length bs ≡ 48 + length b = ap length (sym q) ∙ m in
      let (zs, t) = take-prefix buffer_size bs rest (omega arith) in
      let (ds, (g, (r, k))) = scan_packets-encode_hadock raw i o p b zs ho hb (omega arith) in
      let d : ds ≡ bs = cc in
      (
        omega arith,
        ap (λ x. scan_packets x false) t
            ∙ ap (λ x. scan_packets (x ++ zs) false) (sym d)
            ∙ r
            ∙ ap (λ x. token (length x) (hadock_fields raw i o p ++ b)) d,
      )

  -- What the encoding and the scan make of a packet.
  data IsRead (ip : ℕ × HrPacket) : Type 0 where
    nothing : record_of ip ≡ none → encode_hadock raw ip.0 ip.1 ≡ none → IsRead ip
    one :
        (t bs : Bytes)
        → record_of ip ≡ some t
        → encode_hadock raw ip.0 ip.1 ≡ some bs
        → ((rest : Bytes)
            → (1 ≤ length bs)
              × (scan_packets (take buffer_size (bs ++ rest)) false ≡ token (length bs) t))
        → IsRead ip

  read_by :
      (ip : ℕ × HrPacket) (o : Option ℕ) (e : Option Bytes)
      → parse_origin ip.1.origin ≡ o
      → encode_raw_packet raw ip.1 ≡ e
      → IsReadable ip
      → IsRead ip
  unfolding encode_hadock
  read_by ip none e p q h = nothing (rw (p, record_of)) (rw (p, encode_hadock))
  read_by ip (some o) none p q h = nothing (rw (p, q, record_of)) (rw (p, q, encode_hadock))
  read_by ip (some o) (some b) p q h =
      let (bs, (g, r)) =
        scan_packets-encode_hadock raw ip.0 o ip.1 b [] p q (omega (arith, h b q)) in
      one (hadock_fields raw ip.0 o ip.1 ++ b) bs (rw (p, q, record_of)) g
        λ rest. scan_packets-buffered ip.0 o ip.1 b bs rest p q g (h b q)

  scan_tokens-empty : (fuel : ℕ) → 0 < fuel → scan_tokens scan_packets fuel [] ≡ ([] ∷ [], done)
  unfolding scan_tokens scan_packets
  scan_tokens-empty zero l = absurd (omega arith)
  scan_tokens-empty (suc fuel) l = refl

  scan_tokens-one :
      (fuel : ℕ) (bs rest t : Bytes) (ts : List Bytes)
      → (1 ≤ length bs) × (scan_packets (take buffer_size (bs ++ rest)) false ≡ token (length bs) t)
      → length (bs ++ rest) < fuel
      → ((f : ℕ) → length rest < f → scan_tokens scan_packets f rest ≡ (ts, done))
      → scan_tokens scan_packets fuel (bs ++ rest) ≡ (t ∷ ts, done)
  scan_tokens-one zero bs rest t ts s l k = absurd (omega arith)
  scan_tokens-one (suc fuel) bs rest t ts s l k =
      scan_tokens-token scan_packets fuel bs rest t s.1
      ∙ ap (λ r. (t ∷ r.0, r.1)) (k fuel (omega (arith, length-append bs rest, s.0)))

  scan_tokens-stored :
      (ips : List (ℕ × HrPacket)) (fuel : ℕ)
      → All IsReadable ips
      → length (stored ips) < fuel
      → scan_tokens scan_packets fuel (stored ips) ≡ (records ips ++ ([] ∷ []), done)
  scan_tokens-stored [] fuel h l = scan_tokens-empty fuel l
  scan_tokens-stored (ip ∷ ips) fuel h l =
      elim (read_by ip (parse_origin ip.1.origin) (encode_raw_packet raw ip.1) refl refl h.0) [
        | nothing r e ↦
            let x : stored (ip ∷ ips) ≡ stored ips = ap (λ o. bytes_or_none o ++ stored ips) e in
            ap (scan_tokens scan_packets fuel) x
            ∙ scan_tokens-stored ips fuel h.1 (omega (arith, ap length x))
            ∙ ap (λ o. (cons_record o (records ips) ++ ([] ∷ []), done)) (sym r)
        | one t bs r e s ↦
            let x : stored (ip ∷ ips) ≡ bs ++ stored ips =
              ap (λ o. bytes_or_none o ++ stored ips) e in
            ap (scan_tokens scan_packets fuel) x
            ∙ scan_tokens-one fuel bs (stored ips) t (records ips ++ ([] ∷ [])) (s (stored ips))
                (omega (arith, ap length x)) (λ f m. scan_tokens-stored ips f h.1 m)
            ∙ ap (λ o. (cons_record o (records ips) ++ ([] ∷ []), done)) (sym r)
      ]

  scan_file-stored :
      (ips : List (ℕ × HrPacket))
      → All IsReadable ips
      → scan_file scan_packets (store_hadock_all raw [] ips) ≡ (records ips ++ ([] ∷ []), done)
  unfolding scan_file
  scan_file-stored ips h =
      ap (scan_file scan_packets) (store_hadock_all-stored [] ips)
      ∙ scan_tokens-stored ips (suc (length (stored ips))) h (omega arith)

-- From the store to dispatch: whatever packets are stored in some files in the format "hadock", dispatch
-- comes to its end without an error, and its scan finds in each file, in their order, the fields and the
-- raw bytes of each packet whose store returned no error, and behind them an empty token (raw bytes that
-- fit the buffer of 8 MB with their fields).
pub dispatch-store_hadock_all :
    (raw : RawMethods) (files : List (List (ℕ × HrPacket)))
    → All (All (IsReadable raw)) files
    → dispatch (map (λ ips. contents (store_hadock_all raw [] ips)) files)
      ≡ (concat (map (λ ips. records raw ips ++ ([] ∷ [])) files), dispatched)
unfolding dispatch
dispatch-store_hadock_all raw [] h = refl
dispatch-store_hadock_all raw (ips ∷ files) h =
    rw (scan_file-stored raw ips h.0, dispatch-store_hadock_all raw files h.1)
