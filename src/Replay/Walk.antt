-- ===== src/Replay/Walk.antt =====
-- walkPaths and walk of cmd/hadock/replay.go: the queue that runReplay takes its packets from, with
-- bufio.Scanner over each file.
pub mod Archives
pub mod Fuel
use hadock.Common.{
  ℕ, zero, suc, Bool, true, false, List, [], ◌∷◌, ◌++◌, Bytes, length, take, drop, leb,
  if◌then◌else◌,
}
use hadock.Common.Scanner.{
  FileEnd, done, too_long, panicked, out_of_fuel, scan_file, Visit, refused, directory, contents,
}
use hadock.Vmu.Scan.{scan_vmu_packets}

-- A run, and behind it what follows if it came to its end. The Boolean is a panic.
abbrev pub followed : List Bytes × FileEnd → List Bytes × Bool → List Bytes × Bool
followed (ts, done) r = (ts ++ r.0, r.1)
followed (ts, too_long) r = (ts, false)
followed (ts, panicked) r = (ts, true)
followed (ts, out_of_fuel) r = (ts, false)

abbrev pub unless_panicked : List Bytes × Bool → List Bytes × Bool → List Bytes × Bool
unless_panicked (ts, true) r = (ts, true)
unless_panicked (ts, false) r = (ts ++ r.0, r.1)

-- `header_len` and `sync_len` as for scanVMUPackets.
module _ (header_len sync_len : ℕ) where
  -- walk: the calls of one directory, to the first error.
  unfoldable pub walk : List Visit → List Bytes × Bool
  walk [] = ([], false)
  walk (refused ∷ vs) = ([], false)
  walk (directory ∷ vs) = walk vs
  walk (contents bs ∷ vs) = followed (scan_file (scan_vmu_packets header_len sync_len) bs) (walk vs)

  -- walkPaths. A panic in the goroutine of a directory ends the program.
  unfoldable pub walk_paths : List (List Visit) → List Bytes × Bool
  walk_paths [] = ([], false)
  walk_paths (d ∷ ds) = unless_panicked (walk d) (walk_paths ds)
