-- ===== src/Tests/ScienceRuns.antt =====
-- internal/science/science.go and cmd/mmaconv/main.go at concrete inputs.
use hadock.Common.{◌≡◌, refl, false, replicate, Bytes}
use hadock.Common.Reader.{read_full}
use hadock.Common.Texts.{codes}
use hadock.Mmaconv.{Calls, other_fcc, process, read_preamble}

-- A row and three cells.
abbrev cut_bytes : Bytes
cut_bytes = replicate 70 1

abbrev no_failure : Calls
no_failure = record { open_fails = false; mkdir_fails = false; create_fails = false }

other_experiment : process no_failure (codes "SYNC") ≡ other_fcc (codes "SYNC")
unfolding process read_preamble read_full
other_experiment = refl
