-- ===== src/Replay/Reassembly.antt =====
-- The fragments of a packet, one behind the other, through the decoder's loop.
use hadock.Common.{
  ℕ, zero, suc, ◌+◌, ◌-◌, ◌/◌, ◌%◌, ◌≡◌, ◌≢◌, ◌≤◌, ◌<◌, refl, ◌∙◌, List, [], ◌∷◌, ◌++◌, arith,
  Bytes, length, length-append, length-take, length-drop, take, drop, append_assoc, concat,
}
use hadock.Common.Division.{div-step, div-small}
use hadock.Common.Reader.{ok, err, eof}
use hadock.Proto.{Packet, read_fragments}
use hadock.Proto.RoundTrip.{packet_bytes}
use native.Mathlib.Decide.{dec_le}
use hadock.Replay.{Replay, fragment, fragments}
use hadock.Replay.Fragments.{
  part, fragment_body, parts, read_fragments_last, read_fragments_next, read_fragments_cut,
}

-- The fields of the sender fit their widths, and its size is not 0.
pub record IsFragmenting (r : Replay) : Type 0 where
  pub size_pos : 0 < r.size
  pub counter_fits : r.counter < 65536
  pub version_low : 4096 ≤ r.version
  pub version_high : r.version < 8192

-- Behind fragment i, n bytes are left for the fragments up to number c, of which the last is short.
abbrev pub EndsShort : Replay → ℕ → ℕ → ℕ → Type 0
EndsShort r c i n = (n ≡ 0 → i ≡ c) × (0 < n → (i + 1 + n / r.size ≡ c) × (n % r.size ≢ 0))

-- And where the last one is of full size, number c is never reached.
abbrev pub EndsFull : Replay → ℕ → ℕ → ℕ → Type 0
EndsFull r c i n = (i + 1 + n / r.size ≡ c) × (n % r.size ≡ 0)

EndsShort-next :
    (r : Replay) (c i n : ℕ)
    → 0 < r.size
    → 0 < n
    → EndsShort r c i n
    → EndsShort r c (i + 1) (n - r.size) × (i ≢ c)
EndsShort-next r c i n hs hn h = elim (dec_le r.size n) [
  | yes p ↦ ground (arith, h.1 hn, div-step n r.size hs p, div-small (n - r.size) r.size)
  | no p ↦ ground (arith, h.1 hn, div-small n r.size)
]

EndsFull-next :
    (r : Replay) (c i n : ℕ)
    → 0 < r.size
    → 0 < n
    → EndsFull r c i n
    → EndsFull r c (i + 1) (n - r.size)
EndsFull-next r c i n hs hn h = elim (dec_le r.size n) [
  | yes p ↦ omega (arith, div-step n r.size hs p)
  | no p ↦ absurd (omega (arith, div-small n r.size (omega arith)))
]

module _ (sum1071_bis : Bytes → ℕ) (r : Replay) (c : ℕ) (w : IsFragmenting r) (hc : c < 65536) where
  -- From fragment i with the payload vs on: all that is left is read, and the last fragment ends it.
  pub read_fragments_short :
      (fuel g i : ℕ) (ps : List Packet) (vs d rest : Bytes)
      → fuel ≤ g
      → i ≤ c
      → length vs < 4294967296
      → length d < 4294967296
      → length d ≤ fuel
      → EndsShort r c i (length d)
      → (v : Packet) × (read_fragments (suc g) r.version ps (
            fragment_body sum1071_bis r c i vs
              (concat (fragments sum1071_bis fuel r c (i + 1) d) ++ rest))
          ≡ (
            ok (ps ++ (part sum1071_bis r c i vs ∷ parts sum1071_bis r c fuel (i + 1) d), v),
            rest,
          ))
        × (v.sequence ≡ r.counter)
  unfolding fragments parts
  read_fragments_short fuel g i ps vs [] rest hg hi hl hd hf h =
      let e : i ≡ c = h.0 refl in
      (
        part sum1071_bis r c c vs,
        rw e (read_fragments_last sum1071_bis r c g ps vs rest hc w.counter_fits hl),
        refl,
      )
  read_fragments_short zero g i ps vs (b ∷ d) rest hg hi hl hd hf h = absurd (omega arith)
  read_fragments_short (suc fuel) zero i ps vs (b ∷ d) rest hg hi hl hd hf h = absurd (omega arith)
  read_fragments_short (suc fuel) (suc g) i ps vs (b ∷ d) rest hg hi hl hd hf h =
      let vs' : Bytes = take r.size (b ∷ d) in
      let d' : Bytes = drop r.size (b ∷ d) in
      let lt = length-take r.size (b ∷ d) in
      let ld = length-drop r.size (b ∷ d) in
      let (h', ne) = EndsShort-next r c i (length (b ∷ d)) w.size_pos (omega arith) h in
      let (v, e, ev) =
        read_fragments_short fuel g (i + 1) (ps ++ (part sum1071_bis r c i vs ∷ [])) vs' d' rest
          (omega arith) (omega arith) (omega arith) (omega arith) (omega (arith, w.size_pos))
          (rw ld h') in
      (
        v,
        rw (append_assoc (fragment sum1071_bis r c (i + 1) vs')) (
            read_fragments_next sum1071_bis r c (suc g) i (i + 1) ps vs vs' _ (omega arith) hc
              (omega arith) ne w.counter_fits (omega (arith, w.version_high)) hl (omega arith)
            ∙ e
            ∙ rw (append_assoc ps)),
        ev,
      )

  -- Where the last fragment is of full size, the loop goes on to the end of the input.
  pub read_fragments_full :
      (fuel g i : ℕ) (ps : List Packet) (vs d : Bytes)
      → fuel ≤ g
      → length vs < 4294967296
      → length d < 4294967296
      → length d ≤ fuel
      → EndsFull r c i (length d)
      → read_fragments
          (suc g)
          r.version
          ps
          (fragment_body sum1071_bis r c i vs (concat (fragments sum1071_bis fuel r c (i + 1) d)))
        ≡ (err eof, [])
  unfolding fragments
  read_fragments_full fuel g i ps vs [] hg hl hd hf h =
      read_fragments_cut sum1071_bis r c g i ps vs (omega arith) hc (omega arith) w.counter_fits hl
  read_fragments_full zero g i ps vs (b ∷ d) hg hl hd hf h = absurd (omega arith)
  read_fragments_full (suc fuel) zero i ps vs (b ∷ d) hg hl hd hf h = absurd (omega arith)
  read_fragments_full (suc fuel) (suc g) i ps vs (b ∷ d) hg hl hd hf h =
      let vs' : Bytes = take r.size (b ∷ d) in
      let d' : Bytes = drop r.size (b ∷ d) in
      let lt = length-take r.size (b ∷ d) in
      let ld = length-drop r.size (b ∷ d) in
      let h' = EndsFull-next r c i (length (b ∷ d)) w.size_pos (omega arith) h in
      read_fragments_next sum1071_bis r c (suc g) i (i + 1) ps vs vs' _ (omega arith) hc
        (omega arith) (omega arith) w.counter_fits (omega (arith, w.version_high)) hl (omega arith)
      ∙ read_fragments_full fuel g (i + 1) (ps ++ (part sum1071_bis r c i vs ∷ [])) vs' d'
          (omega arith) (omega arith) (omega arith) (omega (arith, w.size_pos)) (rw ld h')

  length-fragment : (i : ℕ) (vs : Bytes) → length vs ≤ length (fragment sum1071_bis r c i vs)
  unfolding fragment
  length-fragment i vs = omega (arith, length-append {0})

  -- The fragments are at least as long as what they carry.
  pub length-concat-fragments :
      (fuel i : ℕ) (re : Bytes)
      → length re ≤ fuel
      → length re ≤ length (concat (fragments sum1071_bis fuel r c i re))
  unfolding fragments
  length-concat-fragments fuel i [] h = omega arith
  length-concat-fragments zero i (b ∷ re) h = absurd (omega arith)
  length-concat-fragments (suc fuel) i (b ∷ re) h =
      let vs' : Bytes = take r.size (b ∷ re) in
      let d' : Bytes = drop r.size (b ∷ re) in
      let ld = length-drop r.size (b ∷ re) in
      omega (
        arith,
        length-append (fragment sum1071_bis r c i vs')
            (concat (fragments sum1071_bis fuel r c (i + 1) d')),
        length-fragment i vs',
        length-take r.size (b ∷ re),
        length-drop r.size (b ∷ re),
        length-concat-fragments fuel (i + 1) d' (omega (arith, w.size_pos)),
      )

  pub length-fragment_body :
      (i : ℕ) (vs rest : Bytes)
      → length vs + length rest ≤ length (fragment_body sum1071_bis r c i vs rest)
  unfolding fragment_body packet_bytes
  length-fragment_body i vs rest = omega (arith, length-append {0})
