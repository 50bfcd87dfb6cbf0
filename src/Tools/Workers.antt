-- ===== src/Tools/Workers.antt =====
-- main of cmd/vmuzip/vmuzip.go: packets are handed to workers, of which no more run at a time than the
-- semaphore takes. The loop and its workers are a sequence of steps.
pub mod Bounds
use hadock.Common.{
  ℕ, zero, suc, ◌+◌, Bool, true, false, not, ◌&&◌, List, [], ◌∷◌, ◌++◌, Bytes, length, ltb, leb,
  if◌then◌else◌,
}
use hadock.Common.Decimal.{padded}
use hadock.Common.Texts.{codes}
use hadock.Panda.{HrPacket}
use hadock.Storage.Paths.{Calendar}

-- The capacity of the semaphore, for the bit pattern of an int.
unfoldable pub workers_of : ℕ → ℕ
workers_of parallel = if ltb parallel 9223372036854775808 then parallel else 0

-- How the calls of a worker end.
pub record Calls : Type 0 where
  pub mkdir_fails : Bool
  pub create_fails : Bool
  pub export_fails : Bool
  pub raw_create_fails : Bool
  pub raw_export_fails : Bool

-- The packets that the queue still has, those that were handed out, the packets of the workers that
-- run, the files that workers left, and whether the loop was left by its break.
pub record Zip : Type 0 where
  pub waiting : List HrPacket
  pub started : List HrPacket
  pub running : List HrPacket
  pub files : List Bytes
  pub stopped : Bool

abbrev pub new_zip : List HrPacket → Zip
new_zip ps = record { waiting = ps; started = []; running = []; files = []; stopped = false }

-- The loop goes on; the worker at a place of those that run comes to its end.
pub data Step : Type 0 where
  goes_on : Step
  ends : ℕ → Calls → Step

-- `join` is filepath.Join; `stream_of` and `format_of` are Stream().String() and Format() of a packet.
module _ (join : Bytes → Bytes → Bytes) (cal : Calendar) (stream_of format_of : HrPacket → Bytes)
    (raw flat : Bool) (limit parallel : ℕ) (dir : Bytes) where
  unfoldable pub time_path : ℕ → Bytes
  time_path t =
      join (join (padded 4 (cal.year_of t)) (padded 3 (cal.year_day_of t)))
        (padded 2 (cal.hour_of t))

  unfoldable pub dir_of : HrPacket → Bytes
  dir_of p =
      if flat
      then dir
      else join (join (join dir (stream_of p)) (format_of p)) (time_path p.timestamp)

  -- The file that a worker exports a packet to, unless it is removed.
  abbrev pub left : Bool → Bytes → List Bytes
  left fails n = if fails then [] else n ∷ []

  -- The files that the worker of a packet leaves.
  unfoldable pub work : Calls → HrPacket → List Bytes
  work o p =
      if not flat && o.mkdir_fails
      then []
      else if o.create_fails
      then []
      else left o.export_fails (join (dir_of p) p.filename)
        ++ (if raw && not o.raw_create_fails
            then left o.raw_export_fails (join (dir_of p) (p.filename ++ codes ".raw"))
            else [])

  -- A round of the loop: it waits where the semaphore is full.
  take_packet : List HrPacket → Zip → Zip
  take_packet [] z = z
  take_packet (p ∷ ps) z =
      if ltb 0 limit && leb limit (length z.started)
      then record z { waiting = ps; stopped = true }
      else if ltb (length z.running) parallel
      then record z {
        waiting = ps;
        started = z.started ++ (p ∷ []);
        running = z.running ++ (p ∷ []);
      }
      else z

  -- The workers but the one at a place, and the files of this one.
  unfoldable pub end_at : ℕ → Calls → List HrPacket → List HrPacket × List Bytes
  end_at k o [] = ([], [])
  end_at zero o (p ∷ ps) = (ps, work o p)
  end_at (suc k) o (p ∷ ps) = let r = end_at k o ps in (p ∷ r.0, r.1)

  go_on : Bool → Zip → Zip
  go_on true z = z
  go_on false z = take_packet z.waiting z

  unfoldable pub step : Zip → Step → Zip
  unfolding go_on take_packet
  step z goes_on = go_on z.stopped z
  step z (ends k o) =
      let r = end_at k o z.running in record z { running = r.0; files = z.files ++ r.1 }

  unfoldable pub run : Zip → List Step → Zip
  run z [] = z
  run z (s ∷ ss) = run (step z s) ss
