-- ===== src/Storage/Directories.antt =====
-- The directories of a packet: the depth is enough, and the levels by default.
use hadock.Common.{ℕ, suc, ◌≡◌, refl, sym, ap, ◌∙◌, Bytes, List, [], ◌∷◌}
use hadock.Common.Decimal.{padded}
use hadock.Common.Texts.{codes}
use hadock.Panda.{HrPacket}
use hadock.Storage.{
  level_of, lower, Level, classic, vmu_time, acq_time, classic_levels, time_levels, instance_name,
  type_name_of, mode_name, check_levels,
}
use hadock.Storage.Paths.{
  Calendar, level_dir, minute_dir, get_vmu_time, get_acq_time, prepare_directory, prepare,
}

module _ (join : Bytes → Bytes → Bytes) (cal : Calendar) (adjust : ℕ → ℕ) (no_vmu_time : ℕ) where
  -- The four levels of a classic directory.
  abbrev pub classic_path : Bytes → ℕ → HrPacket → Bytes
  classic_path base i p =
      join (join (join (join base (instance_name i)) (type_name_of p.kind)) (mode_name p.realtime))
        p.origin

  -- The levels of a time.
  abbrev pub time_path : Bytes → ℕ → ℕ → Bytes
  time_path base g t = minute_dir join cal g t (
      join (join (join base (padded 4 (cal.year_of t))) (padded 3 (cal.year_day_of t)))
        (padded 2 (cal.hour_of t)))

  classic-lem :
      (depth : ℕ) (base : Bytes) (g i : ℕ) (p : HrPacket) (t : ℕ)
      → prepare_directory join cal adjust no_vmu_time (suc depth) base classic_levels g i p t
        ≡ classic_path base i p
  unfolding prepare_directory level_dir get_vmu_time get_acq_time level_of lower
  classic-lem depth base g i p t = refl

  time-lem :
      (depth : ℕ) (base : Bytes) (g i : ℕ) (p : HrPacket) (t : ℕ)
      → prepare_directory join cal adjust no_vmu_time (suc depth) base time_levels g i p t
        ≡ time_path base g t
  unfolding prepare_directory level_dir get_vmu_time get_acq_time level_of lower
  time-lem depth base g i p t = refl

  -- A level depends on its nested calls on the classic levels and on those of a time.
  level_dir-nested :
      (l : Level) (f h : List Bytes → ℕ → Bytes) (base n : Bytes) (g i : ℕ) (p : HrPacket) (t : ℕ)
      → ((u : ℕ) → f classic_levels u ≡ h classic_levels u)
      → ((u : ℕ) → f time_levels u ≡ h time_levels u)
      → level_dir join cal adjust no_vmu_time l f base n g i p t
        ≡ level_dir join cal adjust no_vmu_time l h base n g i p t
  unfolding level_dir
  level_dir-nested classic f h base n g i p t hc ht = hc t
  level_dir-nested vmu_time f h base n g i p t hc ht = ht _
  level_dir-nested acq_time f h base n g i p t hc ht = ht _
  level_dir-nested _ f h base n g i p t hc ht = refl

  -- No more depth than 2 changes anything, whatever the levels.
  prepare_directory-depth :
      (depth : ℕ) (ns : List Bytes) (base : Bytes) (g i : ℕ) (p : HrPacket) (t : ℕ)
      → prepare_directory join cal adjust no_vmu_time (suc (suc depth)) base ns g i p t
        ≡ prepare_directory join cal adjust no_vmu_time 2 base ns g i p t
  unfolding prepare_directory
  prepare_directory-depth depth [] base g i p t = refl
  prepare_directory-depth depth (n ∷ ns) base g i p t =
      prepare_directory-depth depth ns _ g i p t
      ∙ ap (λ b. prepare_directory join cal adjust no_vmu_time 2 b ns g i p t)
          (level_dir-nested (level_of n) _ _ base n g i p t
            (λ u. classic-lem depth base g i p u ∙ sym (classic-lem 0 base g i p u))
            (λ u. time-lem depth base g i p u ∙ sym (time-lem 0 base g i p u)))

  -- Where no levels are given, the directory is that of the instance, the type, the mode and the
  -- origin, and of the year, the day, the hour and, with an interval, the minute of the VMU's time,
  -- whatever time the configuration asks for.
  prepare-default :
      (base time : Bytes) (g i : ℕ) (p : HrPacket)
      → prepare join cal adjust no_vmu_time base
          (check_levels [] (codes "classic" ∷ codes "vmu" ∷ []))
          time
          g
          i
          p
        ≡ time_path (classic_path base i p) g (get_vmu_time join cal adjust no_vmu_time p)
  unfolding prepare prepare_directory level_dir level_of lower check_levels
  prepare-default base time g i p = refl
