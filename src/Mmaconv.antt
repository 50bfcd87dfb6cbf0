-- ===== src/Mmaconv.antt =====
-- cmd/mmaconv/main.go: the files of one experiment as rows. As for Science, the cell of the time, which
-- all rows share, the csv.Writer's own errors and its buffer are left out.
pub mod Agreement
use hadock.Common.{
  ℕ, zero, suc, ◌+◌, ◌%◌, Bool, true, false, Option, none, some, List, [], ◌∷◌, Bytes, length,
  if◌then◌else◌,
}
use hadock.Common.Reader.{Error, Result, ok, err, eof, out_of_fuel, read_full, read_be}
use hadock.Common.Texts.{codes, text_eq}
use hadock.Notifier.{read_or}
use hadock.Science.{Row, read_cells, science_widths}

-- FCC
abbrev pub mma_fcc : Bytes
mma_fcc = codes "MMA "

-- What readPreamble returns, with the bytes that are left: an error of a read, an FCC that is another,
-- or the nanoseconds since GPS, by the bit pattern of their int64.
pub data Preamble : Type 0 where
  unread : Error → Preamble
  invalid_fcc : Bytes → Preamble
  acquired : ℕ → Bytes → Preamble

abbrev pub preamble_behind : Result Bytes → Bytes → Preamble
preamble_behind (err e) r = unread e
preamble_behind (ok magic) r =
    if text_eq magic mma_fcc
    then (let sequence = read_or 0 4 r in
        let when = read_or 0 8 sequence.1 in acquired (number_of when.0) when.1)
    else invalid_fcc magic
  where
    number_of : Result ℕ → ℕ
    number_of (ok v) = v
    number_of (err e) = 0

unfoldable pub read_preamble : Bytes → Preamble
read_preamble bs = let magic = read_full (length mma_fcc) bs in preamble_behind magic.0 magic.1

-- The error that writeScience returns for one of a read.
abbrev pub forgiven : Error → Option Error
forgiven eof = none
forgiven e = some e

abbrev pub add_mma_row : ℕ → Result (List ℕ) → List Row × Option Error → List Row × Option Error
add_mma_row i (ok vs) rest = (record { index = i % 16; total = 16; cells = vs } ∷ rest.0, rest.1)
add_mma_row i (err e) rest = ([], forgiven e)

-- The loop of writeScience. A round that goes on takes a byte at least.
unfoldable pub write_rows : ℕ → ℕ → Bytes → List Row × Option Error
write_rows zero i bs = ([], some out_of_fuel)
write_rows (suc fuel) i bs =
    let rest = write_rows fuel (i + 1) (read_cells science_widths bs).1 in
    add_mma_row i (read_cells science_widths bs).0 rest

unfoldable pub write_science : Bytes → List Row × Option Error
write_science bs = write_rows (suc (length bs)) 1 bs

-- The calls of process that may fail.
pub record Calls : Type 0 where
  pub open_fails : Bool
  pub mkdir_fails : Bool
  pub create_fails : Bool

-- What process does with a file: nothing is made of it, or rows are.
pub data Converted : Type 0 where
  call_failed : Converted
  refused : Error → Converted
  other_fcc : Bytes → Converted
  written : ℕ → List Row × Option Error → Converted

abbrev pub convert_preamble : Calls → Preamble → Converted
convert_preamble c (unread e) = refused e
convert_preamble c (invalid_fcc magic) = other_fcc magic
convert_preamble c (acquired when r) =
    if c.mkdir_fails
    then call_failed
    else if c.create_fails
    then call_failed
    else written when (write_science r)

-- process
unfoldable pub process : Calls → Bytes → Converted
process c bs = if c.open_fails then call_failed else convert_preamble c (read_preamble bs)
