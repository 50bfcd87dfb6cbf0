-- ===== src/Hdk2udp/Agreement.antt =====
-- The directory that hdk2udp derives from a message, against that of the packet in the storage.
use hadock.Common.{
  ℕ, zero, suc, ◌≡◌, ◌≢◌, ◌⊎◌, inl, inr, refl, ap, ◌∙◌, List, [], ◌∷◌, Bytes, arith, ◌==◌, All,
  Bool-cases,
}
use hadock.Common.Signed.{int64_div}
use hadock.Notifier.{Message}
use hadock.Panda.{HrPacket, Kind, table, image, other}
use hadock.Storage.{
  Level, classic, upi, source, instance_dir, type_dir, mode_dir, year, day, hour, minute, vmu_time,
  acq_time, named, level_of, lower, classic_levels, time_levels, instance_name, type_name_of,
  mode_name, get_upi,
}
use hadock.Storage.Paths.{
  Calendar, truncate, minute_dir, level_dir, get_vmu_time, get_acq_time, prepare_directory,
}
use hadock.Hdk2udp.{
  which_instance, which_type, which_mode, unix, level_reference, prepare_reference,
}

-- The channels of a packet's type.
unfoldable pub IsChannelOf : Kind → ℕ → Type 0
IsChannelOf (table s) c = c ≡ 3
IsChannelOf (image i) c = (c ≡ 1) ⊎ (c ≡ 2)
IsChannelOf other c = (c ≢ 1) × (c ≢ 2) × (c ≢ 3)

which_type-kind : (m : Message) (k : Kind) → IsChannelOf k m.channel → which_type m ≡ type_name_of k
unfolding IsChannelOf which_type type_name_of
which_type-kind m (table s) h = rw h
which_type-kind m (image i) (inl h) = rw h
which_type-kind m (image i) (inr h) = rw h
which_type-kind m other h = let (a, b, c) = h in ground arith

-- Local times have the fields of the storage's times: the host of hdk2udp keeps their clock.
pub record SameFields (local cal : Calendar) : Type 0 where
  pub years : (t : ℕ) → local.year_of t ≡ cal.year_of t
  pub days : (t : ℕ) → local.year_day_of t ≡ cal.year_day_of t
  pub hours : (t : ℕ) → local.hour_of t ≡ cal.hour_of t
  pub minutes : (t : ℕ) → local.minute_of t ≡ cal.minute_of t

module _ (join : Bytes → Bytes → Bytes) (local cal : Calendar) (adjust generation_time : ℕ → ℕ)
    (no_vmu_time i : ℕ) (p : HrPacket) (m : Message) where
  -- What a message must tell of a packet of instance i for a level.
  abbrev pub IsToldFor : Level → Type 0
  IsToldFor upi = m.upi ≡ get_upi p
  IsToldFor source = m.origin ≡ p.origin
  IsToldFor instance_dir = m.instance_id ≡ i
  IsToldFor type_dir = IsChannelOf p.kind m.channel
  IsToldFor mode_dir = m.realtime ≡ p.realtime
  IsToldFor classic =
      (m.instance_id ≡ i)
      × (IsChannelOf p.kind m.channel × ((m.realtime ≡ p.realtime) × (m.origin ≡ p.origin)))
  IsToldFor vmu_time =
      unix (int64_div (generation_time m.generated) 1000)
      ≡ get_vmu_time join cal adjust no_vmu_time p
  IsToldFor acq_time = unix m.acquired ≡ p.timestamp
  IsToldFor _ = Unit {0}

  abbrev pub AreToldFor : List Bytes → Type 0
  AreToldFor ns = All (λ n. IsToldFor (level_of n)) ns

  classic-AreToldFor : IsToldFor classic → AreToldFor classic_levels
  unfolding level_of lower
  classic-AreToldFor d = (d.0, (d.1.0, (d.1.1.0, (d.1.1.1, tt))))

  time-AreToldFor : AreToldFor time_levels
  unfolding level_of lower
  time-AreToldFor = (tt, (tt, (tt, (tt, tt))))

  minute_dir-agrees :
      (g t : ℕ) (base : Bytes)
      → SameFields local cal
      → minute_dir join local g t base ≡ minute_dir join cal g t base
  unfolding minute_dir
  minute_dir-agrees g t base s = elim (Bool-cases (g == 0)) [
    | inl e ↦ rw e
    | inr e ↦ rw (e, s.minutes (truncate t g))
  ]

  level_agrees :
      (l : Level) (f h : List Bytes → ℕ → Bytes) (base n : Bytes) (g t : ℕ)
      → SameFields local cal
      → ((ls : List Bytes) (u : ℕ) → AreToldFor ls → f ls u ≡ h ls u)
      → IsToldFor l
      → level_reference join local generation_time l f base n g m t
        ≡ level_dir join cal adjust no_vmu_time l h base n g i p t
  unfolding level_reference level_dir which_instance instance_name which_mode mode_name get_acq_time
  level_agrees classic f h base n g t s e d = e classic_levels t (classic-AreToldFor d)
  level_agrees upi f h base n g t s e d = rw d
  level_agrees source f h base n g t s e d = rw d
  level_agrees instance_dir f h base n g t s e d = rw d
  level_agrees type_dir f h base n g t s e d = ap (join base) (which_type-kind m p.kind d)
  level_agrees mode_dir f h base n g t s e d = rw d
  level_agrees vmu_time f h base n g t s e d =
      e time_levels _ time-AreToldFor ∙ ap (h time_levels) d
  level_agrees acq_time f h base n g t s e d =
      e time_levels _ time-AreToldFor ∙ ap (h time_levels) d
  level_agrees year f h base n g t s e d = rw (s.years t)
  level_agrees day f h base n g t s e d = rw (s.days t)
  level_agrees hour f h base n g t s e d = rw (s.hours t)
  level_agrees minute f h base n g t s e d = minute_dir-agrees g t base s
  level_agrees named f h base n g t s e d = refl

  -- Where the local time of hdk2udp has the fields of the storage's times, and a message tells of a
  -- packet what the levels ask for (the instance, the type, the mode, the origin, the UPI, or the
  -- times, which are then whole seconds), hdk2udp refers for these levels and one time to the
  -- directory of the storage.
  pub prepare_reference-prepare_directory :
      (depth : ℕ) (ns : List Bytes) (base : Bytes) (g t : ℕ)
      → SameFields local cal
      → AreToldFor ns
      → prepare_reference join local generation_time depth base ns g m t
        ≡ prepare_directory join cal adjust no_vmu_time depth base ns g i p t
  unfolding prepare_reference prepare_directory
  prepare_reference-prepare_directory zero ns base g t s d = refl
  prepare_reference-prepare_directory (suc depth) [] base g t s d = refl
  prepare_reference-prepare_directory (suc depth) (n ∷ ns) base g t s d =
      prepare_reference-prepare_directory (suc depth) ns _ g t s d.1
      ∙ ap (λ b. prepare_directory join cal adjust no_vmu_time (suc depth) b ns g i p t)
          (level_agrees (level_of n) _ _ base n g t s
            (λ ls u k. prepare_reference-prepare_directory depth ls base g u s k) d.0)
