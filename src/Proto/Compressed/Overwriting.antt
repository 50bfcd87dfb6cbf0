-- ===== src/Proto/Compressed/Overwriting.antt =====
-- The payloads of DecodeCompressedPackets of proto.go behind later reads.
use hadock.Common.{
  ℕ, zero, suc, ◌≡◌, ◌≤◌, refl, ap, sym, ◌∙◌, false, List, [], ◌∷◌, ◌++◌, drop, append-nil,
  append_assoc, Bytes, length, take, drop, ltb, All, arith,
}
use hadock.Proto.Compressed.{
  GzipRead, reads, View, running, Decoder, new_decoder, payload_of, overwrite, view_of, send_packet,
  step_running, step_in, step, run,
}

-- Reads of some bytes, by what they give and the extra field beside.
abbrev pub as_reads : List (Bytes × Bytes) → List GzipRead
as_reads [] = []
as_reads ((bs, extra) ∷ rs) = reads bs extra ∷ as_reads rs

abbrev pub HasVersion : Bytes × Bytes → Type 0
HasVersion r = 2 ≤ length r.1

-- The packets of some reads.
abbrev pub views : List (Bytes × Bytes) → List View
views [] = []
views ((bs, extra) ∷ rs) = view_of extra (length bs) ∷ views rs

abbrev overwritten : List (Bytes × Bytes) → Bytes → Bytes
overwritten [] array = array
overwritten ((bs, extra) ∷ rs) array = overwritten rs (overwrite bs array)

take-append_le : (n : ℕ) (xs ys : Bytes) → n ≤ length xs → take n (xs ++ ys) ≡ take n xs
take-append_le zero xs ys h = refl
take-append_le (suc n) [] ys h = absurd (omega arith)
take-append_le (suc n) (x ∷ xs) ys h = ap (λ t. x ∷ t) (take-append_le n xs ys (omega arith))

-- A decoder behind a read.
abbrev behind : Bytes → Bytes → Decoder → Decoder
behind bs extra s = record s {
  array = overwrite bs s.array;
  size = length bs;
  sent = s.sent ++ (view_of extra (length bs) ∷ []);
}

send_packet-sends :
    (extra : Bytes) (s : Decoder)
    → 2 ≤ length extra
    → send_packet extra s ≡ record s { sent = s.sent ++ (view_of extra s.size ∷ []) }
unfolding send_packet
send_packet-sends extra s h = let f : ltb (length extra) 2 ≡ false = ground arith in rw f

step-reads :
    (bs extra : Bytes) (s : Decoder)
    → s.phase ≡ running
    → 2 ≤ length extra
    → step s (reads bs extra) ≡ behind bs extra s
unfolding step step_in step_running
step-reads bs extra s e h =
    ap (λ p. step_in p (reads bs extra) s) e
    ∙ send_packet-sends extra (record s { array = overwrite bs s.array; size = length bs }) h

run-as_reads :
    (rs : List (Bytes × Bytes)) (s : Decoder)
    → s.phase ≡ running
    → All HasVersion rs
    → ((run s (as_reads rs)).sent ≡ s.sent ++ views rs)
      × ((run s (as_reads rs)).array ≡ overwritten rs s.array)
unfolding run
run-as_reads [] s e h = (sym (append-nil s.sent), refl)
run-as_reads ((bs, extra) ∷ rs) s e h =
    let (a, b) = run-as_reads rs (behind bs extra s) e h.1 in
    let t = ap (λ s. run s (as_reads rs)) (step-reads bs extra s e h.0) in
    (
      ap (λ (s : Decoder). s.sent) t
          ∙ a
          ∙ append_assoc s.sent (view_of extra (length bs) ∷ []) (views rs),
      ap (λ (s : Decoder). s.array) t ∙ b,
    )

overwritten-last :
    (rs : List (Bytes × Bytes)) (bs extra array : Bytes)
    → overwritten (rs ++ ((bs, extra) ∷ [])) array ≡ overwrite bs (overwritten rs array)
overwritten-last [] bs extra array = refl
overwritten-last ((cs, e) ∷ rs) bs extra array = overwritten-last rs bs extra (overwrite cs array)

-- Whatever the instances are that DecodeCompressedPackets is given, each read becomes a packet, with the
-- version and the instance of the header; and behind a read, all packets that were sent before and are no
-- longer than it have its bytes for a payload, also those that a queue still holds.
pub run-overwrites :
    (array bs extra : Bytes) (rs : List (Bytes × Bytes))
    → All HasVersion (rs ++ ((bs, extra) ∷ []))
    → let s = run (new_decoder array) (as_reads (rs ++ ((bs, extra) ∷ []))) in
      (s.sent ≡ views (rs ++ ((bs, extra) ∷ [])))
      × ((v : View) → v.size ≤ length bs → payload_of s.array v ≡ take v.size bs)
run-overwrites array bs extra rs h =
    let (a, b) = run-as_reads (rs ++ ((bs, extra) ∷ [])) (new_decoder array) refl h in
    (
      a,
      λ v l.
          ap (take v.size) (b ∙ overwritten-last rs bs extra array)
          ∙ take-append_le v.size bs (drop (length bs) (overwritten rs array)) l,
    )
