-- ===== src/Vmu/Scan.antt =====
-- scanVMUPackets of cmd/hadock/replay.go: the packets of an archive, one by one.
use hadock.Common.{ℕ, ◌+◌, ◌-◌, Bool, true, false, Bytes, length, take, drop, ltb, if◌then◌else◌}
use hadock.Common.Endian.{of_le}
use hadock.Common.Scanner.{Scan, more, token, final, panics, copy_of}

-- `header_len` and `sync_len` are panda.HRDPHeaderLength and panda.HRDLSyncLength.
module _ (header_len sync_len : ℕ) where
  unfoldable pub scan_vmu_packets : Bytes → Bool → Scan
  scan_vmu_packets bs true = final (length bs) bs
  scan_vmu_packets bs false =
      if ltb (length bs) 4
      then more
      else (let size = of_le (take 4 bs) in
          if ltb (length bs) (size + 4)
          then more
          else if ltb size (header_len + sync_len)
          then panics
          else token (size + 4)
              (copy_of (size - header_len - sync_len) (drop (4 + header_len + sync_len) bs)))
