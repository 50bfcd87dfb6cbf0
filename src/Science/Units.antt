-- ===== src/Science/Units.antt =====
-- The rows of whole units.
use hadock.Common.{
  ℕ, zero, suc, ◌+◌, ◌*◌, ◌^◌, ◌≤◌, ◌<◌, ◌≡◌, refl, ap, ◌∙◌, none, List, [], ◌∷◌, ◌++◌, Bytes,
  length, length-append, All, concat, map, append_assoc, arith,
}
use hadock.Common.Endian.{be, length-be}
use hadock.Common.Reader.{ok, pure, ◌>>=◌, read_be-be}
use hadock.Science.{
  Row, read_cells, add_row, export_rows, sync_widths, science_widths, export_sync_unit,
  export_science_data,
}

-- The bytes of a unit: its cells, most significant byte first.
abbrev pub unit_bytes : List ℕ → List ℕ → Bytes
unit_bytes (w ∷ ws) (v ∷ vs) = be w v ++ unit_bytes ws vs
unit_bytes _ _ = []

-- A cell for each width, which it fits.
abbrev pub Fits : List ℕ → List ℕ → Type 0
Fits [] [] = Unit {0}
Fits (w ∷ ws) (v ∷ vs) = (v < 256 ^ w) × Fits ws vs
Fits _ _ = ⊥

abbrev pub sum_of : List ℕ → ℕ
sum_of [] = 0
sum_of (w ∷ ws) = w + sum_of ws

length-unit_bytes : (ws vs : List ℕ) → Fits ws vs → length (unit_bytes ws vs) ≡ sum_of ws
length-unit_bytes [] [] h = refl
length-unit_bytes (w ∷ ws) (v ∷ vs) h =
    omega
      (arith, length-append (be w v) (unit_bytes ws vs), length-be w v, length-unit_bytes ws vs h.1)
length-unit_bytes [] (v ∷ vs) h = absurd h
length-unit_bytes (w ∷ ws) [] h = absurd h

read_cells-unit_bytes :
    (ws vs : List ℕ) (rest : Bytes)
    → Fits ws vs
    → read_cells ws (unit_bytes ws vs ++ rest) ≡ (ok vs, rest)
unfolding read_cells ◌>>=◌ pure
read_cells-unit_bytes [] [] rest h = refl
read_cells-unit_bytes (w ∷ ws) (v ∷ vs) rest h = rw (
  append_assoc (be w v) (unit_bytes ws vs) rest,
  read_be-be w v (unit_bytes ws vs ++ rest) h.0,
  read_cells-unit_bytes ws vs rest h.1,
)
read_cells-unit_bytes [] (v ∷ vs) rest h = absurd h
read_cells-unit_bytes (w ∷ ws) [] rest h = absurd h

export_rows-step :
    (ws : List ℕ) (n fuel i : ℕ) (bs : Bytes) (vs : List ℕ) (r : Bytes)
    → 0 < length bs
    → read_cells ws bs ≡ (ok vs, r)
    → export_rows ws n (suc fuel) i bs ≡ add_row i n (ok vs) (export_rows ws n fuel (i + 1) r)
unfolding export_rows
export_rows-step ws n fuel i [] vs r l e = absurd (omega arith)
export_rows-step ws n fuel i (b ∷ bs) vs r l e = rw e

-- The units, numbered from i.
abbrev pub numbered : ℕ → ℕ → List (List ℕ) → List Row
numbered n i [] = []
numbered n i (vs ∷ us) = record { index = i; total = n; cells = vs } ∷ numbered n (i + 1) us

length-concat_units :
    (ws : List ℕ) (us : List (List ℕ))
    → All (Fits ws) us
    → length (concat (map (unit_bytes ws) us)) ≡ length us * sum_of ws
length-concat_units ws [] h = omega arith
length-concat_units ws (vs ∷ us) h = omega (
  arith,
  length-append (unit_bytes ws vs) (concat (map (unit_bytes ws) us)),
  length-unit_bytes ws vs h.0,
  length-concat_units ws us h.1,
)

export_rows-numbered :
    (ws : List ℕ) (n fuel i : ℕ) (us : List (List ℕ))
    → 0 < sum_of ws
    → All (Fits ws) us
    → length us ≤ fuel
    → export_rows ws n fuel i (concat (map (unit_bytes ws) us)) ≡ (numbered n i us, none)
unfolding export_rows
export_rows-numbered ws n fuel i [] s h l = refl
export_rows-numbered ws n zero i (vs ∷ us) s h l = absurd (omega arith)
export_rows-numbered ws n (suc fuel) i (vs ∷ us) s h l =
    export_rows-step ws n fuel i _ vs (concat (map (unit_bytes ws) us))
      (omega (
        arith,
        length-append (unit_bytes ws vs) (concat (map (unit_bytes ws) us)),
        length-unit_bytes ws vs h.0,
      ))
      (read_cells-unit_bytes ws vs (concat (map (unit_bytes ws) us)) h.0)
    ∙ ap (add_row i n (ok vs)) (export_rows-numbered ws n fuel (i + 1) us s h.1 (omega arith))

-- Units of a synchronisation, whose cells fit their widths, are all exported without an error, in
-- order and numbered from 1, each with their number as the total.
export_sync_unit-numbered :
    (us : List (List ℕ))
    → All (Fits sync_widths) us
    → export_sync_unit (concat (map (unit_bytes sync_widths) us))
      ≡ (numbered (length us) 1 us, none)
unfolding export_sync_unit
export_sync_unit-numbered us h =
    let n = length-concat_units sync_widths us h in
    export_rows-numbered sync_widths _ _ 1 us (omega arith) h (omega (arith, n))
    ∙ ap (λ k. (numbered k 1 us, none)) (omega (arith, n))

-- Units of 32 values of 16 bits are all exported without an error, in order and numbered from 1,
-- each with twice their number as the total.
export_science_data-numbered :
    (us : List (List ℕ))
    → All (Fits science_widths) us
    → export_science_data (concat (map (unit_bytes science_widths) us))
      ≡ (numbered (length us * 2) 1 us, none)
unfolding export_science_data
export_science_data-numbered us h =
    let n = length-concat_units science_widths us h in
    export_rows-numbered science_widths _ _ 1 us (omega arith) h (omega (arith, n))
    ∙ ap (λ k. (numbered k 1 us, none)) (omega (arith, n))
