-- ===== src/Science.antt =====
-- internal/science/science.go: the records of ExportSyncUnit and ExportScienceData. A signed cell
-- stands by its bit pattern, and the cell of the time, which all rows share, is left out.
pub mod Units
use hadock.Common.{
  ℕ, zero, suc, ◌+◌, ◌/◌, Option, none, some, List, [], ◌∷◌, Bytes, length, replicate,
}
use hadock.Common.Reader.{Reader, Result, Error, out_of_fuel, ok, err, pure, ◌>>=◌, read_be}

abbrev pub sync_chunk_length : ℕ
sync_chunk_length = 18

abbrev pub lrsd_chunk_length : ℕ
lrsd_chunk_length = 32

pub record Row : Type 0 where
  pub index : ℕ
  pub total : ℕ
  pub cells : List ℕ

-- The reads of a row, by the widths of its cells.
unfoldable pub read_cells : List ℕ → Reader (List ℕ)
read_cells [] = pure []
read_cells (w ∷ ws) = do v ← read_be w; vs ← read_cells ws; pure (v ∷ vs)

abbrev pub add_row : ℕ → ℕ → Result (List ℕ) → List Row × Option Error → List Row × Option Error
add_row i n (ok vs) rest = (record { index = i; total = n; cells = vs } ∷ rest.0, rest.1)
add_row i n (err e) rest = ([], some e)

-- `for i, r := 1, bytes.NewReader(bs); r.Len() > 0; i++`: the rows given to the csv.Writer, whose own
-- errors and buffer are left out, and the error
-- of a read. A round takes a byte at least, so that the length of the bytes is enough fuel.
unfoldable pub export_rows : List ℕ → ℕ → ℕ → ℕ → Bytes → List Row × Option Error
export_rows ws n fuel i [] = ([], none)
export_rows ws n zero i (b ∷ bs) = ([], some out_of_fuel)
export_rows ws n (suc fuel) i (b ∷ bs) =
    let rest = export_rows ws n fuel (i + 1) (read_cells ws (b ∷ bs)).1 in
    add_row i n (read_cells ws (b ∷ bs)).0 rest

abbrev pub sync_widths : List ℕ
sync_widths = 1 ∷ 1 ∷ 8 ∷ 8 ∷ []

abbrev pub science_widths : List ℕ
science_widths = replicate 32 2

unfoldable pub export_sync_unit : Bytes → List Row × Option Error
export_sync_unit bs = export_rows sync_widths (length bs / sync_chunk_length) (length bs) 1 bs

unfoldable pub export_science_data : Bytes → List Row × Option Error
export_science_data bs = export_rows science_widths (length bs / lrsd_chunk_length) (length bs) 1 bs
