-- ===== src/Mmaconv/Agreement.antt =====
-- The rows of cmd/mmaconv/main.go against those of internal/science/science.go.
use hadock.Common.{◌%◌, Option, none, some}
use hadock.Common.Reader.{Error}
use hadock.Mmaconv.{forgiven}
use hadock.Science.{Row}

-- A row as mmaconv numbers it.
abbrev pub renumbered : Row → Row
renumbered r = record r { index = r.index % 16; total = 16 }

abbrev pub unless_eof : Option Error → Option Error
unless_eof none = none
unless_eof (some e) = forgiven e
