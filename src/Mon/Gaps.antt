-- ===== src/Mon/Gaps.antt =====
-- Which gaps the module mon logs.
use hadock.Common.{
  ℕ, suc, ◌+◌, ◌-◌, ◌≤◌, ◌<◌, ◌≡◌, ◌↔◌, ◌≢◌, refl, ap, subst, ◌∙◌, true, false, Option, none, some,
  List, [], ◌∷◌, ◌==◌, u64, Bool-cases, inl, inr, All, length, arith,
}
use hadock.Panda.{HrPacket, Kind, table, image, other}
use hadock.Mon.{
  Counter, new_counter, Headers, see, is_gap, report_gap, add_packet, process, process_kind,
  process_all,
}

module _ (h : Headers) where
  -- The last packet is older than the setting, and its sequence number is below the first one, not
  -- just by the wrap-around.
  abbrev pub FallsBack : Counter → Type 0
  FallsBack m =
      (m.delta < m.last - m.first) × (m.ends < m.starts) × (m.starts < m.ends + 4294967295)

  is_gap-FallsBack :
      (m : Counter)
      → m.starts < 4294967296
      → m.ends < 4294967296
      → (is_gap h m ≡ true) ↔ FallsBack m
  is_gap-FallsBack m s e = (λ g. ground arith, λ f. ground arith)

  -- A packet that the module counts, with a sequence number that is not below a first one.
  pub record IsAbove (lo : ℕ) (p : HrPacket) : Type 0 where
    pub version : h.is_v2 p ≡ true
    pub typed : p.kind ≢ other
    pub above : lo ≤ h.vmu_sequence p
    pub fits : h.vmu_sequence p < 4294967296

  -- n packets were counted, from the sequence number lo on.
  record IsCounting (lo n : ℕ) (m : Counter) : Type 0 where
    begun : (m.first == 0) ≡ false
    from_first : m.starts ≡ lo
    silent : m.logged ≡ []
    counted : m.count ≡ u64 n

  -- And a packet was seen, but not counted yet.
  record IsReady (lo n : ℕ) (m : Counter) : Type 0 where
    counting : IsCounting lo n m
    above : lo ≤ m.ends
    fits : m.ends < 4294967296

  report_gap-silent : (m : Counter) → m.starts ≤ m.ends → m.ends < 4294967296 → report_gap h m ≡ m
  report_gap-silent m l e = elim (Bool-cases (is_gap h m)) [
    | inr g ↦ rw g refl
    | inl g ↦ let f = (is_gap-FallsBack m (omega arith) e).0 g in absurd (omega (arith, f.1))
  ]

  see-IsReady :
      (lo n t s : ℕ) (m : Counter)
      → lo ≤ s
      → s < 4294967296
      → IsCounting lo n m
      → IsReady lo n (see h t s m)
  see-IsReady lo n t s m l f c = rw c.begun (record {
    counting = record {
      begun = c.begun;
      from_first = c.from_first;
      silent = c.silent;
      counted = c.counted;
    };
    above = l;
    fits = f;
  })

  see-first : (every t s : ℕ) → t ≢ 0 → s < 4294967296 → IsReady s 0 (see h t s (new_counter every))
  unfolding new_counter
  see-first every t s z f = record {
    counting = record {
      begun = ground (arith, z);
      from_first = refl;
      silent = refl;
      counted = refl;
    };
    above = omega arith;
    fits = f;
  }

  add_packet-IsCounting :
      (k : Kind) (lo n : ℕ) (m : Counter)
      → IsReady lo n m
      → IsCounting lo (n + 1) (add_packet h k (report_gap h m))
  add_packet-IsCounting k lo n m r =
      let c = r.counting in
      let e : report_gap h m ≡ m =
        report_gap-silent m (omega (arith, c.from_first, r.above)) r.fits in
      rw e (record {
        begun = c.begun;
        from_first = c.from_first;
        silent = c.silent;
        counted = omega (arith, c.counted);
      })

  -- What a packet does to a counter for which it is ready.
  Counts : ℕ → ℕ → Option Counter → Type 0
  Counts lo n o = (m : Counter) × (o ≡ some m) × IsCounting lo n m

  process-Counts :
      (lo n : ℕ) (p : HrPacket) (m : Counter)
      → h.is_v2 p ≡ true
      → p.kind ≢ other
      → IsReady lo n (see h p.vmu_timestamp (h.vmu_sequence p) m)
      → Counts lo (n + 1) (process h p m)
  unfolding process Counts
  process-Counts lo n p m v k r = rw v (kinds p.kind k)
    where
      kinds : (k : Kind) → k ≢ other → Counts lo (n + 1) (process_kind h k p m)
      kinds other w = absurd (w refl)
      kinds (table s) w = (_, refl, add_packet-IsCounting (table s) lo n _ r)
      kinds (image i) w = (_, refl, add_packet-IsCounting (image i) lo n _ r)

  process_all-step :
      (p : HrPacket) (ps : List HrPacket) (m n : Counter)
      → process h p m ≡ some n
      → process_all h (p ∷ ps) m ≡ process_all h ps n
  unfolding process_all
  process_all-step p ps m n e = ap (λ o. elim o [ none ↦ none | some n ↦ process_all h ps n ]) e

  process_all-Counts :
      (ps : List HrPacket) (lo n : ℕ) (m : Counter)
      → All (IsAbove lo) ps
      → IsCounting lo n m
      → Counts lo (n + length ps) (process_all h ps m)
  unfolding process_all Counts
  process_all-Counts [] lo n m a c =
      let e : n ≡ n + 0 = omega arith in (m, refl, subst (λ k. IsCounting lo k m) e c)
  process_all-Counts (p ∷ ps) lo n m a c =
      let (o, e, d) =
        process-Counts lo n p m a.0.version a.0.typed
          (see-IsReady lo n p.vmu_timestamp (h.vmu_sequence p) m a.0.above a.0.fits c) in
      let (q, f, g) = process_all-Counts ps lo (n + 1) o a.1 d in
      let k : n + 1 + length ps ≡ n + suc (length ps) = omega arith in
      (q, process_all-step p ps m o e ∙ f, subst (λ k. IsCounting lo k q) k g)

  -- Of tables and images with VMU version 2, the first with a time that is not zero, whose sequence
  -- numbers fit 32 bits and never fall below that of the first, whatever numbers are left out
  -- between them and however long they take, nothing is logged: all of them are counted as one
  -- series (modulo 2 ^ 64), from the sequence number of the first.
  pub process_all-silent :
      (every : ℕ) (p : HrPacket) (ps : List HrPacket)
      → p.vmu_timestamp ≢ 0
      → All (IsAbove (h.vmu_sequence p)) (p ∷ ps)
      → (m : Counter) × (process_all h (p ∷ ps) (new_counter every) ≡ some m)
        × (m.logged ≡ [])
        × (m.starts ≡ h.vmu_sequence p)
        × (m.count ≡ u64 (length (p ∷ ps)))
  unfolding Counts
  process_all-silent every p ps z a =
      let s = h.vmu_sequence p in
      let (o, e, d) =
        process-Counts s 0 p (new_counter every) a.0.version a.0.typed
          (see-first every p.vmu_timestamp s z a.0.fits) in
      let (q, f, g) = process_all-Counts ps s 1 o a.1 d in
      let k : 1 + length ps ≡ length (p ∷ ps) = omega arith in
      (
        q,
        process_all-step p ps (new_counter every) o e ∙ f,
        g.silent,
        g.from_first,
        subst (λ k. q.count ≡ u64 k) k g.counted,
      )
