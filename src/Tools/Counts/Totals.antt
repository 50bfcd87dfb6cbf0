-- ===== src/Tools/Counts/Totals.antt =====
-- The totals of the counters.
use hadock.Common.{
  ℕ, ◌+◌, ◌≡◌, refl, List, [], ◌∷◌, Bytes, length, u64, arith, Bool-cases, inl, inr,
}
use hadock.Common.Texts.{text_eq}
use hadock.Panda.{HrPacket}
use hadock.Tools.Counts.{
  Sources, Counters, Summary, count_source, count_packet, is_counted, count_round, count_all,
  upi_of,
}

abbrev pub sources_count : Sources → ℕ
sources_count [] = 0
sources_count ((j, z) ∷ zs) = z.count + sources_count zs

abbrev pub sources_size : Sources → ℕ
sources_size [] = 0
sources_size ((j, z) ∷ zs) = z.size + sources_size zs

abbrev pub counters_count : Counters → ℕ
counters_count [] = 0
counters_count ((j, zs) ∷ cs) = sources_count zs + counters_count cs

abbrev pub counters_size : Counters → ℕ
counters_size [] = 0
counters_size ((j, zs) ∷ cs) = sources_size zs + counters_size cs

-- Equal modulo 2 ^ 64.
abbrev pub SameWord : ℕ → ℕ → Type 0
SameWord a b = u64 a ≡ u64 b

count_source-adds :
    (o : Bytes) (n : ℕ) (zs : Sources)
    → SameWord (sources_count (count_source o n zs)) (sources_count zs + 1)
      × SameWord (sources_size (count_source o n zs)) (sources_size zs + n)
unfolding count_source
count_source-adds o n [] = (omega arith, omega arith)
count_source-adds o n ((j, z) ∷ zs) = elim (Bool-cases (text_eq j o)) [
  | inl e ↦ rw e (omega arith, omega arith)
  | inr e ↦ let (a, b) = count_source-adds o n zs in rw e (omega arith, omega arith)
]

count_packet-adds :
    (u o : Bytes) (n : ℕ) (cs : Counters)
    → SameWord (counters_count (count_packet u o n cs)) (counters_count cs + 1)
      × SameWord (counters_size (count_packet u o n cs)) (counters_size cs + n)
unfolding count_packet
count_packet-adds u o n [] = (omega arith, omega arith)
count_packet-adds u o n ((j, zs) ∷ cs) = elim (Bool-cases (text_eq j u)) [
  | inl e ↦ let (a, b) = count_source-adds o n zs in rw e (omega arith, omega arith)
  | inr e ↦ let (a, b) = count_packet-adds u o n cs in rw e (omega arith, omega arith)
]

-- The variables of main are the sums over the counters.
pub record IsTallied (s : Summary) : Type 0 where
  pub counts : SameWord (counters_count s.counters) s.count
  pub sizes : SameWord (counters_size s.counters) s.size

count_round-IsTallied :
    (info : Bytes) (s : Summary) (p : HrPacket) → IsTallied s → IsTallied (count_round info s p)
unfolding count_round
count_round-IsTallied info s p h = elim (Bool-cases (is_counted info p)) [
  | inr e ↦ rw e h
  | inl e ↦
      let (a, b) = count_packet-adds (upi_of p.kind) p.origin (length p.payload) s.counters in
      let c = h.counts in
      let d = h.sizes in rw e (record { counts = omega arith; sizes = omega arith })
]

count_all-keeps :
    (info : Bytes) (s : Summary) (ps : List HrPacket)
    → IsTallied s
    → IsTallied (count_all info s ps)
unfolding count_all
count_all-keeps info s [] h = h
count_all-keeps info s (p ∷ ps) h =
    count_all-keeps info (count_round info s p) ps (count_round-IsTallied info s p h)

-- Over all packets of an archive the variables count and size of main are the sums, modulo 2 ^ 64,
-- of the fields Count and Size of all sources of all counters (before they are printed, the sizes as
-- whole MB).
pub count_all-IsTallied :
    (info : Bytes) (ps : List HrPacket)
    → IsTallied (count_all info (record { count = 0; size = 0; counters = [] }) ps)
count_all-IsTallied info ps =
    count_all-keeps info (record { count = 0; size = 0; counters = [] }) ps
      (record { counts = refl; sizes = refl })
