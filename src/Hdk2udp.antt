-- ===== src/Hdk2udp.antt =====
-- cmd/hdk2udp/main.go: the reference of a stored file that is made from the message on it.
-- `generation_time` is panda.GenerationTimeFromEpoch, in milliseconds, by the bit pattern of an int64. The
-- times are from 1970 on; time.Unix gives them in local time, whose calendar is a parameter.
pub mod Agreement
pub mod Parameters
pub mod Relay
pub mod Upi
use hadock.Common.{
  ℕ, zero, suc, ◌+◌, ◌*◌, ◌/◌, Bool, true, false, List, [], ◌∷◌, ◌++◌, Bytes, ◌==◌, ◌||◌,
  if◌then◌else◌,
}
use hadock.Common.Decimal.{dec, padded}
use hadock.Common.Signed.{int64_div}
use hadock.Common.Texts.{codes, text_eq}
use hadock.Notifier.{Message}
use hadock.Storage.{
  Level, classic, upi, source, instance_dir, type_dir, mode_dir, year, day, hour, minute, vmu_time,
  acq_time, named, level_of, lower, classic_levels, time_levels,
}
use hadock.Storage.Paths.{Calendar, minute_dir}

-- whichInstance, whichType and whichMode, without the join.
unfoldable pub which_instance : Message → Bytes
which_instance m =
    if m.instance_id == 0
    then codes "TEST"
    else if m.instance_id == 1 || m.instance_id == 2
    then codes "SIM" ++ dec m.instance_id
    else if m.instance_id == 255
    then codes "OPS"
    else codes "DATA-" ++ dec m.instance_id

unfoldable pub which_type : Message → Bytes
which_type m =
    if m.channel == 1 || m.channel == 2
    then codes "images"
    else if m.channel == 3
    then codes "sciences"
    else codes "unknown"

unfoldable pub which_mode : Message → Bytes
which_mode m = if m.realtime then codes "realtime" else codes "playback"

-- time.Unix(s, 0)
abbrev pub unix : ℕ → ℕ
unix s = s * 1000000000

-- `cal` has the fields of local times.
module _ (join : Bytes → Bytes → Bytes) (cal : Calendar) (generation_time : ℕ → ℕ) where
  unfoldable pub level_reference :
      Level → (List Bytes → ℕ → Bytes) → Bytes → Bytes → ℕ → Message → ℕ → Bytes
  level_reference upi nested base n g m t = join base m.upi
  level_reference classic nested base n g m t = nested classic_levels t
  level_reference source nested base n g m t = join base m.origin
  level_reference instance_dir nested base n g m t = join base (which_instance m)
  level_reference type_dir nested base n g m t = join base (which_type m)
  level_reference mode_dir nested base n g m t = join base (which_mode m)
  level_reference vmu_time nested base n g m t =
      nested time_levels (unix (int64_div (generation_time m.generated) 1000))
  level_reference acq_time nested base n g m t = nested time_levels (unix m.acquired)
  level_reference year nested base n g m t = join base (padded 4 (cal.year_of t))
  level_reference day nested base n g m t = join base (padded 3 (cal.year_day_of t))
  level_reference hour nested base n g m t = join base (padded 2 (cal.hour_of t))
  level_reference minute nested base n g m t = minute_dir join cal g t base
  level_reference named nested base n g m t = join base n

  -- prepareReference, by depth as prepareDirectory.
  unfoldable pub prepare_reference : ℕ → Bytes → List Bytes → ℕ → Message → ℕ → Bytes
  prepare_reference zero base ns g m t = base
  prepare_reference (suc depth) base [] g m t = base
  prepare_reference (suc depth) base (n ∷ ns) g m t =
      prepare_reference (suc depth)
        (level_reference (level_of n) (λ ls u. prepare_reference depth base ls g m u) base n g m t)
        ns g m t

  -- The directory of channel.Prepare.
  unfoldable pub reference_dir : Bytes → List Bytes → Bytes → ℕ → Message → Bytes
  reference_dir prefix levels time g m = prepare_reference 2 prefix levels g m (
      if text_eq (lower time) (codes "acq")
      then unix m.acquired
      else unix (int64_div (generation_time m.generated) 1000))
