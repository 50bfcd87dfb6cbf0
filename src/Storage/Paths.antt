-- ===== src/Storage/Paths.antt =====
-- prepareDirectory of storage/storage.go. Its parameters are path.Join, the fields of a time, the
-- adjustment that panda makes to a time in seconds, and what that makes of the zero time.
use hadock.Common.{
  ℕ, zero, suc, ◌+◌, ◌-◌, ◌*◌, ◌/◌, ◌%◌, List, [], ◌∷◌, Bytes, ◌==◌, ◌||◌, if◌then◌else◌,
}
use hadock.Common.Decimal.{padded}
use hadock.Common.Texts.{codes, text_eq}
use hadock.Notifier.Pool.{is_vmu}
use hadock.Panda.{HrPacket}
use hadock.Storage.{
  Level, classic, upi, source, instance_dir, type_dir, mode_dir, year, day, hour, minute, vmu_time,
  acq_time, named, level_of, lower, classic_levels, time_levels, instance_name, type_name_of,
  mode_name, get_upi,
}

-- The methods of time.Time, for times in nanoseconds since the Unix epoch.
pub record Calendar : Type 0 where
  pub year_of : ℕ → ℕ
  pub year_day_of : ℕ → ℕ
  pub hour_of : ℕ → ℕ
  pub minute_of : ℕ → ℕ

-- t.Truncate(time.Second * time.Duration(g)), which counts from the year 1.
unfoldable pub truncate : ℕ → ℕ → ℕ
truncate t g = if g == 0 then t else t - (t + 62135596800 * 1000000000) % (g * 1000000000)

-- The directory for the minute: none without an interval.
unfoldable pub minute_dir : (Bytes → Bytes → Bytes) → Calendar → ℕ → ℕ → Bytes → Bytes
minute_dir join cal g t base =
    if g == 0 then base else join base (padded 2 (cal.minute_of (truncate t g)))

module _ (join : Bytes → Bytes → Bytes) (cal : Calendar) (adjust : ℕ → ℕ) (no_vmu_time : ℕ) where
  unfoldable pub get_vmu_time : HrPacket → ℕ
  get_vmu_time p = if is_vmu p.kind then adjust (p.vmu_timestamp / 1000000000) else no_vmu_time

  unfoldable pub get_acq_time : HrPacket → ℕ
  get_acq_time p = p.timestamp

  -- The case of a level n; `nested` is the call on levels of its own and a time.
  unfoldable pub level_dir :
      Level → (List Bytes → ℕ → Bytes) → Bytes → Bytes → ℕ → ℕ → HrPacket → ℕ → Bytes
  level_dir classic nested base n g i p t = nested classic_levels t
  level_dir upi nested base n g i p t = join base (get_upi p)
  level_dir instance_dir nested base n g i p t = join base (instance_name i)
  level_dir type_dir nested base n g i p t = join base (type_name_of p.kind)
  level_dir mode_dir nested base n g i p t = join base (mode_name p.realtime)
  level_dir source nested base n g i p t = join base p.origin
  level_dir year nested base n g i p t = join base (padded 4 (cal.year_of t))
  level_dir day nested base n g i p t = join base (padded 3 (cal.year_day_of t))
  level_dir hour nested base n g i p t = join base (padded 2 (cal.hour_of t))
  level_dir minute nested base n g i p t = minute_dir join cal g t base
  level_dir vmu_time nested base n g i p t = nested time_levels (get_vmu_time p)
  level_dir acq_time nested base n g i p t = nested time_levels (get_acq_time p)
  level_dir named nested base n g i p t = join base n

  -- The levels within levels are not nested again: a depth of 2 is enough.
  unfoldable pub prepare_directory : ℕ → Bytes → List Bytes → ℕ → ℕ → HrPacket → ℕ → Bytes
  prepare_directory zero base ns g i p t = base
  prepare_directory (suc depth) base [] g i p t = base
  prepare_directory (suc depth) base (n ∷ ns) g i p t =
      prepare_directory (suc depth)
        (level_dir (level_of n) (λ ls u. prepare_directory depth base ls g i p u) base n g i p t) ns
        g i p t

  -- Prepare without the call of os.MkdirAll; the time of a packet of the epoch or later is not zero.
  unfoldable pub prepare : Bytes → List Bytes → Bytes → ℕ → ℕ → HrPacket → Bytes
  prepare base levels time g i p = prepare_directory 2 base levels g i p (
      if text_eq (lower time) (codes "vmu") || text_eq time []
      then get_vmu_time p
      else get_acq_time p)
