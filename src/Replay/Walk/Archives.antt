-- ===== src/Replay/Walk/Archives.antt =====
-- The queue of `replay` for archives that EncodePacket wrote.
use hadock.Common.{
  ℕ, zero, suc, ◌+◌, ◌%◌, ◌≡◌, ◌<◌, ◌≤◌, refl, ap, ◌∙◌, true, false, Option, none, some, List, [],
  ◌∷◌, ◌++◌, append-nil, map, concat, Bytes, length, length-append, take, if◌then◌else◌, All,
  All-map, All-append, elem, ◌==◌, ◌||◌, arith,
}
use hadock.Proto.{decode_binary_packets}
use hadock.Replay.{Run, replay_round, run_replay}
use hadock.Replay.Walk.{walk, walk_paths}
use hadock.Replay.Whole.{sent_packets, IsSendable, decode_binary_packets-run_replay}
use hadock.Vmu.{VmuPacket, Channel, Split, summed}
use hadock.Vmu.Archive.{IsArchived, encode_archive, framed_all, encode_archive-framed, scan-framed}
use hadock.Common.Scanner.{
  Visit, contents, refused, token, done, buffer_size, scan_tokens, scan_file, scan_tokens-token,
  take-prefix,
}
use hadock.Vmu.Scan.{scan_vmu_packets}
use hadock.Vmu.Sizes.{length-summed, length-content, content, framed, hrdp_size, length-framed}

-- What replay sends of a packet: all behind its two first headers.
abbrev pub body_of : VmuPacket → Bytes
body_of p = summed (content p.kind p.payload)

-- A packet that the buffer of the scan holds, with headers of panda's widths.
abbrev pub IsScannable : VmuPacket → Type 0
IsScannable p = IsArchived p × (hrdp_size p + 4 ≤ 8388608)

abbrev pub nonempty : List Bytes → List Bytes
nonempty [] = []
nonempty ([] ∷ bss) = nonempty bss
nonempty ((b ∷ bs) ∷ bss) = (b ∷ bs) ∷ nonempty bss

nonempty-append : (xs ys : List Bytes) → nonempty (xs ++ ys) ≡ nonempty xs ++ nonempty ys
nonempty-append [] ys = refl
nonempty-append ([] ∷ xs) ys = nonempty-append xs ys
nonempty-append ((b ∷ bs) ∷ xs) ys = ap (λ zs. (b ∷ bs) ∷ zs) (nonempty-append xs ys)

-- The loop of runReplay passes over what is empty.
run_replay-nonempty :
    (sum1071_bis : Bytes → ℕ) (s : Run) (queue : List Bytes)
    → run_replay sum1071_bis none s queue ≡ run_replay sum1071_bis none s (nonempty queue)
unfolding run_replay replay_round
run_replay-nonempty sum1071_bis s [] = refl
run_replay-nonempty sum1071_bis s ([] ∷ queue) = run_replay-nonempty sum1071_bis s queue
run_replay-nonempty sum1071_bis s ((b ∷ bs) ∷ queue) =
    let r = replay_round sum1071_bis s (b ∷ bs) in
    ap (λ rest. if r.1 then r.0 else rest) (run_replay-nonempty sum1071_bis r.0 queue)

nonempty-sendable : (bss : List Bytes) → All IsSendable bss → nonempty bss ≡ bss
nonempty-sendable [] h = refl
nonempty-sendable ([] ∷ bss) h = absurd (omega (arith, h.0.0))
nonempty-sendable ((b ∷ bs) ∷ bss) h = ap (λ zs. (b ∷ bs) ∷ zs) (nonempty-sendable bss h.1)

body_of-IsSendable : (p : VmuPacket) → IsScannable p → IsSendable (body_of p)
body_of-IsSendable p h =
    let c = length-summed (content p.kind p.payload) in
    let l = length-content p.kind p.channel p.payload h.0.0 in
    (omega (arith, c), omega (arith, c, l, h.1))

bodies-IsSendable : (ps : List VmuPacket) → All IsScannable ps → All IsSendable (map body_of ps)
bodies-IsSendable [] h = tt
bodies-IsSendable (p ∷ ps) h = (body_of-IsSendable p h.0, bodies-IsSendable ps h.1)

-- What the archives of a directory, and of some directories, hold for replay.
abbrev pub bodies_of : List (List VmuPacket) → List Bytes
bodies_of pss = concat (map (map body_of) pss)

abbrev pub all_bodies : List (List (List VmuPacket)) → List Bytes
all_bodies dss = concat (map bodies_of dss)

module _ (channel_byte : Channel → ℕ) (now : Split) where
  scan-buffered :
      (p : VmuPacket) (rest : Bytes)
      → IsScannable p
      → scan_vmu_packets 14 8 (take buffer_size (framed channel_byte now p ++ rest)) false
        ≡ token (length (framed channel_byte now p)) (body_of p)
  scan-buffered p rest h =
      let l : length (framed channel_byte now p) ≤ buffer_size =
        omega (arith, h.1, length-framed channel_byte now p h.0.0) in
      let (zs, e) = take-prefix buffer_size (framed channel_byte now p) rest l in
      ap (λ bs. scan_vmu_packets 14 8 bs false) e ∙ scan-framed channel_byte now p zs h.0

  scan_tokens-framed :
      (fuel : ℕ) (p : VmuPacket) (rest : Bytes)
      → IsScannable p
      → scan_tokens (scan_vmu_packets 14 8) (suc fuel) (framed channel_byte now p ++ rest)
        ≡ (let r = scan_tokens (scan_vmu_packets 14 8) fuel rest in (body_of p ∷ r.0, r.1))
  scan_tokens-framed fuel p rest h =
      scan_tokens-token (scan_vmu_packets 14 8) fuel (framed channel_byte now p) rest (body_of p)
        (scan-buffered p rest h)

  scan_tokens-archive :
      (fuel : ℕ) (ps : List VmuPacket)
      → All IsScannable ps
      → length ps < fuel
      → scan_tokens (scan_vmu_packets 14 8) fuel (framed_all channel_byte now ps)
        ≡ (map body_of ps ++ ([] ∷ []), done)
  unfolding scan_tokens scan_vmu_packets
  scan_tokens-archive zero ps h l = absurd (omega arith)
  scan_tokens-archive (suc fuel) [] h l = refl
  scan_tokens-archive (suc fuel) (p ∷ ps) h l =
      scan_tokens-framed fuel p (framed_all channel_byte now ps) h.0
      ∙ rw (scan_tokens-archive fuel ps h.1 (omega arith))

  length-framed_all :
      (ps : List VmuPacket)
      → All IsScannable ps
      → length ps ≤ length (framed_all channel_byte now ps)
  length-framed_all [] h = omega arith
  length-framed_all (p ∷ ps) h = omega (
    arith,
    length-append (framed channel_byte now p) (framed_all channel_byte now ps),
    length-framed channel_byte now p h.0.0.0,
    length-framed_all ps h.1,
  )

  -- The file of some packets, and the files of a directory.
  abbrev pub archive_of : Option Bytes → Visit
  archive_of none = refused
  archive_of (some bs) = contents bs

  abbrev pub archive_file : List VmuPacket → Visit
  archive_file ps = archive_of (encode_archive channel_byte now ps)

  scan_file-archive :
      (ps : List VmuPacket)
      → All IsScannable ps
      → scan_file (scan_vmu_packets 14 8) (framed_all channel_byte now ps)
        ≡ (map body_of ps ++ ([] ∷ []), done)
  unfolding scan_file
  scan_file-archive ps h =
      scan_tokens-archive (suc (length (framed_all channel_byte now ps))) ps h
        (omega (arith, length-framed_all ps h))

  walk-archives :
      (pss : List (List VmuPacket))
      → All (All IsScannable) pss
      → (qs : List Bytes) × (walk 14 8 (map archive_file pss) ≡ (qs, false))
        × (nonempty qs ≡ bodies_of pss)
  unfolding walk
  walk-archives [] h = ([], refl, refl)
  walk-archives (ps ∷ pss) h =
      let (qs, e, n) = walk-archives pss h.1 in
      let a = encode_archive-framed channel_byte now ps (All-map ps (λ p k. k.0) h.0) in
      (
        (map body_of ps ++ ([] ∷ [])) ++ qs,
        rw (a, scan_file-archive ps h.0, e) refl,
        nonempty-append (map body_of ps ++ ([] ∷ [])) qs
            ∙ rw
                (
                  nonempty-append (map body_of ps) ([] ∷ []),
                  nonempty-sendable (map body_of ps) (bodies-IsSendable ps h.0),
                  append-nil (map body_of ps),
                  n,
                )
                refl,
      )

  walk_paths-archives :
      (dss : List (List (List VmuPacket)))
      → All (All (All IsScannable)) dss
      → (qs : List Bytes) × (walk_paths 14 8 (map (map archive_file) dss) ≡ (qs, false))
        × (nonempty qs ≡ all_bodies dss)
  unfolding walk_paths
  walk_paths-archives [] h = ([], refl, refl)
  walk_paths-archives (d ∷ dss) h =
      let (qs, e, n) = walk-archives d h.0 in
      let (rs, f, m) = walk_paths-archives dss h.1 in
      (qs ++ rs, rw (e, f) refl, nonempty-append qs rs ∙ rw (n, m) refl)

bodies_of-IsSendable :
    (pss : List (List VmuPacket)) → All (All IsScannable) pss → All IsSendable (bodies_of pss)
bodies_of-IsSendable [] h = tt
bodies_of-IsSendable (ps ∷ pss) h =
    All-append IsSendable (map body_of ps) (bodies_of pss) (bodies-IsSendable ps h.0)
      (bodies_of-IsSendable pss h.1)

all_bodies-IsSendable :
    (dss : List (List (List VmuPacket)))
    → All (All (All IsScannable)) dss
    → All IsSendable (all_bodies dss)
all_bodies-IsSendable [] h = tt
all_bodies-IsSendable (d ∷ dss) h =
    All-append IsSendable (bodies_of d) (all_bodies dss) (bodies_of-IsSendable d h.0)
      (all_bodies-IsSendable dss h.1)

-- From archives to the protocol: the packets that EncodePacket wrote to the files of some
-- directories, one behind the other in each file, are found by the walk of replay, which comes to
-- its end without a panic, and over a connection that takes all it is sent, without fragments (a
-- size of 0, a version below 4096 and a counter below 65536), DecodeBinaryPackets delivers what
-- stands behind their first headers, each whole, in order and numbered by its turn (packets with
-- headers of panda's widths, which are those of this repository, that fit the buffer of the scan;
-- the instance passes).
pub run_replay-walk_paths :
    (channel_byte : Channel → ℕ) (now : Split) (sum1071_bis : Bytes → ℕ) (is : List ℕ) (s : Run)
    → (dss : List (List (List VmuPacket))) → s.replay.size ≡ 0
    → s.replay.version < 4096
    → s.replay.counter < 65536
    → s.conn ≡ record { received = []; outcomes = [] }
    → (length is == 0 || elem ◌==◌ (s.replay.version % 256) is) ≡ true
    → All (All (All IsScannable)) dss
    → let queue = walk_paths 14 8 (map (map (archive_file channel_byte now)) dss) in
      (queue.1 ≡ false)
      × (decode_binary_packets is (run_replay sum1071_bis none s queue.0).conn.received
          ≡ some (sent_packets sum1071_bis s.replay (all_bodies dss)))
run_replay-walk_paths channel_byte now sum1071_bis is s dss hs hv hc ho hi hq =
    let (qs, e, n) = walk_paths-archives channel_byte now dss hq in
    (
      ap (λ q. q.1) e,
      ap (λ q. decode_binary_packets is (run_replay sum1071_bis none s q.0).conn.received) e
          ∙ ap (λ r. decode_binary_packets is r.conn.received)
              (run_replay-nonempty sum1071_bis s qs ∙ ap (run_replay sum1071_bis none s) n)
          ∙ decode_binary_packets-run_replay sum1071_bis is s (all_bodies dss) hs hv hc ho hi
              (all_bodies-IsSendable dss hq),
    )
