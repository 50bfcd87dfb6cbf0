-- ===== src/Replay/Fragments.antt =====
-- Packets that `replay` sends in fragments (preparePacketV2), read by DecodePacket.
use hadock.Common.{
  ℕ, zero, suc, ◌+◌, ◌≡◌, ◌≢◌, ◌≤◌, ◌<◌, refl, false, List, [], ◌∷◌, ◌++◌, arith, Bytes, length,
  length-drop, take-append-drop, take, drop, ◌==◌, ==_refl, u16, u32, append_assoc, All, map,
  concat,
}
use hadock.Common.Endian.{be}
use hadock.Common.Reader.{ok, err, eof, ◌>>=◌, pure, read_be-be}
use hadock.Common.Sort.{IsSortedBy}
use hadock.Proto.{Packet, new_packet, preamble, read_fragment, read_fragments}
use hadock.Proto.RoundTrip.{read_preamble_empty, packet_bytes, read_packet_lem, read_preamble_lem}
use hadock.Replay.{Replay, fragment}

module _ (sum1071_bis : Bytes → ℕ) (r : Replay) (c : ℕ) where
  -- What the decoder makes of fragment i with the payload vs.
  abbrev pub part : ℕ → Bytes → Packet
  part i vs = record new_packet {
    sequence = r.counter;
    payload_length = length vs;
    payload = vs;
    sum = u16 (sum1071_bis vs);
    curr = i;
    last = c;
  }

  -- A fragment behind its preamble and prefix, and what follows it.
  unfoldable pub fragment_body : ℕ → Bytes → Bytes → Bytes
  fragment_body i vs rest =
      be 2 i ++ (be 2 c ++ packet_bytes r.counter (length vs) vs (u16 (sum1071_bis vs)) rest)

  pub fragment_bytes :
      (i : ℕ) (vs rest : Bytes)
      → i < 65536
      → c < 65536
      → length vs < 4294967296
      → fragment sum1071_bis r c i vs ++ rest
        ≡ be 4 preamble ++ (be 2 r.version ++ fragment_body i vs rest)
  unfolding fragment fragment_body packet_bytes
  fragment_bytes i vs rest hi hc hl =
      let ei : u16 i ≡ i = omega arith in
      let ec : u16 c ≡ c = omega arith in
      let el : u32 (length vs) ≡ length vs = omega arith in rw (ei, ec, el) (simp append_assoc)

  read_fragment_lem :
      (i : ℕ) (vs rest : Bytes)
      → i < 65536
      → c < 65536
      → r.counter < 65536
      → length vs < 4294967296
      → read_fragment new_packet (fragment_body i vs rest) ≡ (ok (part i vs, i == c), rest)
  unfolding read_fragment fragment_body ◌>>=◌ pure
  read_fragment_lem i vs rest hi hc hn hl =
      let tail = packet_bytes r.counter (length vs) vs (u16 (sum1071_bis vs)) rest in
      rw (read_be-be 2 i (be 2 c ++ tail) hi) (
        rw (read_be-be 2 c tail hc) (
          rw (
            read_packet_lem (record new_packet { curr = i; last = c }) r.counter (length vs) vs
              (u16 (sum1071_bis vs)) rest hn hl refl (omega arith))))

  -- The payloads that `fragments` cuts, numbered from i on.
  unfoldable pub parts : ℕ → ℕ → Bytes → List Packet
  parts fuel i [] = []
  parts zero i (b ∷ re) = []
  parts (suc fuel) i (b ∷ re) =
      part i (take r.size (b ∷ re)) ∷ parts fuel (i + 1) (drop r.size (b ∷ re))

  -- Enough fuel and a size that is not 0: the parts make up the whole.
  pub concat-parts :
      (fuel i : ℕ) (re : Bytes)
      → 0 < r.size
      → length re ≤ fuel
      → concat (map (λ (q : Packet). q.payload) (parts fuel i re)) ≡ re
  unfolding parts
  concat-parts fuel i [] hs hf = refl
  concat-parts zero i (b ∷ re) hs hf = absurd (omega arith)
  concat-parts (suc fuel) i (b ∷ re) hs hf =
      rw
        (concat-parts fuel (i + 1) (drop r.size (b ∷ re)) hs
          (omega (arith, length-drop r.size (b ∷ re))))
        (take-append-drop r.size (b ∷ re))

  parts-above :
      (fuel m i : ℕ) (re : Bytes) → m ≤ i → All (λ (q : Packet). m ≤ q.curr) (parts fuel i re)
  unfolding parts
  parts-above fuel m i [] h = tt
  parts-above zero m i (b ∷ re) h = tt
  parts-above (suc fuel) m i (b ∷ re) h = (h, parts-above fuel m (i + 1) _ (omega arith))

  pub parts-IsSortedBy :
      (fuel i : ℕ) (re : Bytes) → IsSortedBy (λ (q : Packet). q.curr) (parts fuel i re)
  unfolding parts
  parts-IsSortedBy fuel i [] = tt
  parts-IsSortedBy zero i (b ∷ re) = tt
  parts-IsSortedBy (suc fuel) i (b ∷ re) =
      (parts-above fuel i (i + 1) _ (omega arith), parts-IsSortedBy fuel (i + 1) _)

  -- One round of the decoder's loop on fragment i, where it is the last.
  pub read_fragments_last :
      (g : ℕ) (ps : List Packet) (vs rest : Bytes)
      → c < 65536
      → r.counter < 65536
      → length vs < 4294967296
      → read_fragments (suc g) r.version ps (fragment_body c vs rest)
        ≡ (ok (ps ++ (part c vs ∷ []), part c vs), rest)
  unfolding read_fragments ◌>>=◌ pure
  read_fragments_last g ps vs rest hc hn hl =
      rw (read_fragment_lem c vs rest hc hc hn hl) (rw (==_refl c))

  -- And where another fragment follows.
  pub read_fragments_next :
      (g i j : ℕ) (ps : List Packet) (vs ws rest : Bytes)
      → i < 65536
      → c < 65536
      → j < 65536
      → i ≢ c
      → r.counter < 65536
      → r.version < 65536
      → length vs < 4294967296
      → length ws < 4294967296
      → read_fragments
          (suc g)
          r.version
          ps
          (fragment_body i vs (fragment sum1071_bis r c j ws ++ rest))
        ≡ read_fragments g r.version (ps ++ (part i vs ∷ [])) (fragment_body j ws rest)
  unfolding read_fragments ◌>>=◌
  read_fragments_next g i j ps vs ws rest hi hc hj ne hn hv hl hl' =
      let differ : (i == c) ≡ false = ground arith in
      rw (fragment_bytes j ws rest hj hc hl') (
        rw (read_fragment_lem i vs _ hi hc hn hl) (
          rw differ (
            rw (read_preamble_lem r.version (fragment_body j ws rest) hv)
              (rw (==_refl r.version)))))

  -- Where the preamble that should follow is missing, at the end of the input.
  pub read_fragments_cut :
      (g i : ℕ) (ps : List Packet) (vs : Bytes)
      → i < 65536
      → c < 65536
      → i ≢ c
      → r.counter < 65536
      → length vs < 4294967296
      → read_fragments (suc g) r.version ps (fragment_body i vs []) ≡ (err eof, [])
  unfolding read_fragments ◌>>=◌
  read_fragments_cut g i ps vs hi hc ne hn hl =
      let differ : (i == c) ≡ false = ground arith in
      rw (read_fragment_lem i vs [] hi hc hn hl) (rw differ (rw read_preamble_empty))
