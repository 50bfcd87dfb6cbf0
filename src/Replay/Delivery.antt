-- ===== src/Replay/Delivery.antt =====
-- What arrives of a packet that `replay` sends in fragments.
use hadock.Common.{
  ℕ, suc, ◌-◌, ◌/◌, ◌%◌, ◌≡◌, ◌≢◌, ◌≤◌, ◌<◌, refl, sym, ap, ◌∙◌, List, [], ◌∷◌, ◌++◌, arith, Bytes,
  length, length-append, length-take, length-drop, take, drop, append_assoc, append-nil, map,
  concat,
}
use hadock.Common.Endian.{be}
use hadock.Common.Division.{div-step, div-small}
use hadock.Common.Reader.{Error, ok, err, eof, ◌>>=◌, pure}
use hadock.Common.Sort.{IsSortedBy, sort_by-of_sorted}
use hadock.Proto.{
  Packet, new_packet, preamble, read_fragments, join_fragments, packet_of_prefix, decode_body,
  decode_packet,
}
use hadock.Proto.RoundTrip.{decode_packet_prefix}
use hadock.Replay.{Replay, fragment, fragments, prepare_packet_v2}
use hadock.Replay.Fragments.{fragment_body, fragment_bytes, parts, concat-parts, parts-IsSortedBy}
use hadock.Replay.Reassembly.{
  IsFragmenting, EndsShort, EndsFull, read_fragments_short, read_fragments_full,
  length-concat-fragments, length-fragment_body,
}
use native.Mathlib.Decide.{dec_le}

-- The packet that is to arrive: its number is the sender's, and its payload is whole. (The length
-- is that of the last fragment.)
abbrev pub IsReassembled : Replay → Bytes → Packet → Type 0
IsReassembled r bs p =
    (p.payload ≡ bs)
    × (p.sequence ≡ r.counter)
    × (p.instance_id ≡ r.version % 256)
    × (p.version ≡ r.version / 256 % 16)

abbrev packet_v2 : ℕ → Packet
packet_v2 prefix = record new_packet {
  protocol = 1;
  version = prefix / 256 % 16;
  instance_id = prefix % 256;
}

packet_of_prefix_v2 :
    (prefix : ℕ) → 4096 ≤ prefix → prefix < 8192 → packet_of_prefix prefix ≡ packet_v2 prefix
unfolding packet_of_prefix
packet_of_prefix_v2 prefix lo hi = ground arith

decode_body_ok :
    (prefix : ℕ) (r rest : Bytes) (ps : List Packet) (v : Packet)
    → 4096 ≤ prefix
    → prefix < 8192
    → read_fragments (suc (length r)) prefix [] r ≡ (ok (ps, v), rest)
    → decode_body (packet_of_prefix prefix) prefix r
      ≡ (ok (join_fragments (packet_v2 prefix) ps v), rest)
unfolding decode_body ◌>>=◌ pure
decode_body_ok prefix r rest ps v lo hi h = rw (packet_of_prefix_v2 prefix lo hi) (rw h)

decode_body_err :
    (prefix : ℕ) (r rest : Bytes) (e : Error)
    → 4096 ≤ prefix
    → prefix < 8192
    → read_fragments (suc (length r)) prefix [] r ≡ (err e, rest)
    → decode_body (packet_of_prefix prefix) prefix r ≡ (err e, rest)
unfolding decode_body ◌>>=◌ pure
decode_body_err prefix r rest e lo hi h = rw (packet_of_prefix_v2 prefix lo hi) (rw h)

-- Fragments that come in order are joined in order.
join_fragments-sorted :
    (p : Packet) (ps : List Packet) (v : Packet)
    → IsSortedBy (λ (q : Packet). q.curr) ps
    → (join_fragments p ps v).payload ≡ concat (map (λ (q : Packet). q.payload) ps)
unfolding join_fragments
join_fragments-sorted p ps v h =
    ap (λ qs. concat (map (λ (q : Packet). q.payload) qs))
      (sort_by-of_sorted (λ (q : Packet). q.curr) ps h)

reassembled :
    (r : Replay) (bs : Bytes) (ps : List Packet) (v : Packet)
    → (join_fragments (packet_v2 r.version) ps v).payload ≡ bs
    → v.sequence ≡ r.counter
    → IsReassembled r bs (join_fragments (packet_v2 r.version) ps v)
unfolding join_fragments
reassembled r bs ps v h k = (h, k, refl, refl)

EndsShort-start :
    (r : Replay) (n : ℕ) → 0 < r.size → n % r.size ≢ 0 → EndsShort r (n / r.size) 0 (n - r.size)
EndsShort-start r n hs h = elim (dec_le r.size n) [
  | yes p ↦ ground (arith, div-step n r.size hs p, div-small (n - r.size) r.size)
  | no p ↦ ground (arith, div-small n r.size)
]

EndsFull-start :
    (r : Replay) (n : ℕ)
    → 0 < r.size
    → 0 < n
    → n % r.size ≡ 0
    → EndsFull r (n / r.size) 0 (n - r.size)
EndsFull-start r n hs hn h = elim (dec_le r.size n) [
  | yes p ↦ omega (arith, div-step n r.size hs p)
  | no p ↦ absurd (omega (arith, div-small n r.size (omega arith)))
]

module _ (sum1071_bis : Bytes → ℕ) (r : Replay) (b : ℕ) (bs : Bytes) where
  -- The first fragment of b ∷ bs, what is left behind it, and the number of the last one.
  abbrev first : Bytes
  first = take r.size (b ∷ bs)

  abbrev left : Bytes
  left = drop r.size (b ∷ bs)

  abbrev final : ℕ
  final = length (b ∷ bs) / r.size

  abbrev later : Bytes
  later = concat (fragments sum1071_bis (length bs) r final 1 left)

  prepare_packet_v2_bytes :
      (rest : Bytes)
      → final < 65536
      → length (b ∷ bs) < 4294967296
      → concat (prepare_packet_v2 sum1071_bis r (b ∷ bs)) ++ rest
        ≡ be 4 preamble
          ++ (be 2 r.version ++ fragment_body sum1071_bis r final 0 first (later ++ rest))
  unfolding prepare_packet_v2
  prepare_packet_v2_bytes rest hc hl =
      rw (append_assoc (fragment sum1071_bis r final 0 first) later rest) (
        fragment_bytes sum1071_bis r final 0 first (later ++ rest) (omega arith) hc
          (omega (arith, length-take r.size (b ∷ bs))))

-- A packet sent in fragments of which the last is short arrives whole, and what follows is left.
pub decode_packet-prepare_packet_v2 :
    (sum1071_bis : Bytes → ℕ) (r : Replay) (bs rest : Bytes)
    → IsFragmenting r
    → length bs < 4294967296
    → length bs / r.size < 65536
    → length bs % r.size ≢ 0
    → (p : Packet) × (decode_packet (concat (prepare_packet_v2 sum1071_bis r bs) ++ rest)
        ≡ (ok p, rest))
      × IsReassembled r bs p
unfolding parts
decode_packet-prepare_packet_v2 sum1071_bis r [] rest w hl hc hn =
    absurd (omega (arith, div-small 0 r.size w.size_pos))
decode_packet-prepare_packet_v2 sum1071_bis r (b ∷ bs) rest w hl hc hn =
    let c = final sum1071_bis r b bs in
    let vs = first sum1071_bis r b bs in
    let d = left sum1071_bis r b bs in
    let more : Bytes = later sum1071_bis r b bs ++ rest in
    let body = fragment_body sum1071_bis r c 0 vs more in
    let ld = length-drop r.size (b ∷ bs) in
    let long =
      length-concat-fragments sum1071_bis r c w hc (length bs) 1 d (omega (arith, w.size_pos)) in
    let fuelled = length-fragment_body sum1071_bis r c w hc 0 vs more in
    let (v, e, ev) =
      read_fragments_short sum1071_bis r c w hc (length bs) (length body) 0 [] vs d rest
        (omega (arith, length-take r.size (b ∷ bs), length-append (later sum1071_bis r b bs) rest))
        (omega arith) (omega (arith, length-take r.size (b ∷ bs))) (omega arith)
        (omega (arith, w.size_pos)) (rw ld (EndsShort-start r (length (b ∷ bs)) w.size_pos hn)) in
    let ps = parts sum1071_bis r c (suc (length bs)) 0 (b ∷ bs) in
    (
      join_fragments (packet_v2 r.version) ps v,
      rw (prepare_packet_v2_bytes sum1071_bis r b bs rest hc hl) (
          decode_packet_prefix r.version body (omega (arith, w.version_high))
          ∙ decode_body_ok r.version body rest ps v w.version_low w.version_high e),
      reassembled r (b ∷ bs) ps v
          (join_fragments-sorted (packet_v2 r.version) ps v
              (parts-IsSortedBy sum1071_bis r c (suc (length bs)) 0 (b ∷ bs))
            ∙ concat-parts sum1071_bis r c (suc (length bs)) 0 (b ∷ bs) w.size_pos (omega arith))
          ev,
    )

-- Where the fragment size, which is not zero, divides the length of a payload of less than 2^32
-- bytes that is not empty, and the quotient is below 65536, no fragment is marked as the last:
-- DecodePacket takes all the fragments and comes to the end of the input without a packet (the
-- version of the sender is from 4096 to 8191, that of protocol 2, and its counter below 65536).
pub decode_packet-prepare_packet_v2_full :
    (sum1071_bis : Bytes → ℕ) (r : Replay) (bs : Bytes)
    → IsFragmenting r
    → 0 < length bs
    → length bs < 4294967296
    → length bs / r.size < 65536
    → length bs % r.size ≡ 0
    → decode_packet (concat (prepare_packet_v2 sum1071_bis r bs)) ≡ (err eof, [])
decode_packet-prepare_packet_v2_full sum1071_bis r [] w hp hl hc hn = absurd (omega arith)
decode_packet-prepare_packet_v2_full sum1071_bis r (b ∷ bs) w hp hl hc hn =
    let c = final sum1071_bis r b bs in
    let vs = first sum1071_bis r b bs in
    let d = left sum1071_bis r b bs in
    let more = later sum1071_bis r b bs in
    let body = fragment_body sum1071_bis r c 0 vs more in
    let ld = length-drop r.size (b ∷ bs) in
    let long =
      length-concat-fragments sum1071_bis r c w hc (length bs) 1 d (omega (arith, w.size_pos)) in
    let fuelled = length-fragment_body sum1071_bis r c w hc 0 vs more in
    let e =
      read_fragments_full sum1071_bis r c w hc (length bs) (length body) 0 [] vs d
        (omega (arith, length-take r.size (b ∷ bs))) (omega (arith, length-take r.size (b ∷ bs)))
        (omega arith) (omega (arith, w.size_pos))
        (rw ld (EndsFull-start r (length (b ∷ bs)) w.size_pos (omega arith) hn)) in
    ap (λ x. decode_packet x) (sym (append-nil (concat (prepare_packet_v2 sum1071_bis r (b ∷ bs)))))
    ∙ rw (prepare_packet_v2_bytes sum1071_bis r b bs [] hc hl, append-nil)
        (decode_packet_prefix r.version body (omega (arith, w.version_high))
          ∙ decode_body_err r.version body [] eof w.version_low w.version_high e)
