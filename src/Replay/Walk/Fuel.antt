-- ===== src/Replay/Walk/Fuel.antt =====
-- The fuel of the scan of a file in cmd/hadock/replay.go.
use hadock.Common.{ℕ, ◌≡◌, ◌≢◌, ◌≤◌, false, Bytes, length, arith}
use hadock.Common.Scanner.{token, out_of_fuel, scan_file, scan_file-total}
use hadock.Vmu.Scan.{scan_vmu_packets}

module _ (header_len sync_len : ℕ) where
  token-advances :
      (bs : Bytes) (n : ℕ) (t : Bytes)
      → scan_vmu_packets header_len sync_len bs false ≡ token n t
      → (1 ≤ n) × (1 ≤ length bs)
  unfolding scan_vmu_packets
  token-advances bs n t h = (ground arith, ground arith)

  -- The scan of every file of VMU packets comes to an end of the program's own.
  scan_vmu_packets-total :
      (bs : Bytes) → (scan_file (scan_vmu_packets header_len sync_len) bs).1 ≢ out_of_fuel
  scan_vmu_packets-total = scan_file-total (scan_vmu_packets header_len sync_len) token-advances
