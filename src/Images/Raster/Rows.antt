-- ===== src/Images/Raster/Rows.antt =====
-- The rows of ImageGray8 of internal/image/image.go.
use hadock.Common.{
  ℕ, zero, suc, ◌+◌, ◌*◌, ◌≡◌, ◌<◌, refl, ap, sym, ◌∙◌, true, false, ◌&&◌, [], ◌∷◌, Bytes, take,
  drop, get_or, ◌==◌, arith,
}
use hadock.Images.Raster.{Raster, set, set_row, set_rows}

get_or-nil : (b d : ℕ) → get_or [] b d ≡ d
get_or-nil b d = refl

get_or-take : (x b d : ℕ) (bs : Bytes) → b < x → get_or (take x bs) b d ≡ get_or bs b d
get_or-take zero b d bs h = absurd (omega arith)
get_or-take (suc x) b d [] h = refl
get_or-take (suc x) zero d (c ∷ bs) h = refl
get_or-take (suc x) (suc b) d (c ∷ bs) h = get_or-take x b d bs (omega arith)

pub get_or-drop : (m b d : ℕ) (bs : Bytes) → get_or (drop m bs) b d ≡ get_or bs (m + b) d
get_or-drop zero b d bs = let e : 0 + b ≡ b = omega arith in rw e
get_or-drop (suc m) b d [] = refl
get_or-drop (suc m) b d (c ∷ bs) =
    let e : suc m + b ≡ suc (m + b) = omega arith in rw e (get_or-drop m b d bs)

set_row-left : (j i b : ℕ) (bs : Bytes) (g : Raster ℕ) → b < j → set_row j i bs g b i ≡ g b i
unfolding set_row
set_row-left j i b [] g h = refl
set_row-left j i b (c ∷ bs) g h =
    let e : (b == j) ≡ false = ground arith in
    set_row-left (j + 1) i b bs (set j i c g) (omega arith) ∙ rw e

set_row-other :
    (j i b a : ℕ) (bs : Bytes) (g : Raster ℕ) → (a == i) ≡ false → set_row j i bs g b a ≡ g b a
unfolding set_row
set_row-other j i b a [] g h = refl
set_row-other j i b a (c ∷ bs) g h =
    let e : (b == j && a == i) ≡ false = ground arith in
    set_row-other (j + 1) i b a bs (set j i c g) h ∙ rw e

set_row-at :
    (j i d : ℕ) (bs : Bytes) (g : Raster ℕ) → set_row j i bs g (j + d) i ≡ get_or bs d (g (j + d) i)
unfolding set_row
set_row-at j i d [] g = refl
set_row-at j i zero (c ∷ bs) g =
    let s : j + 0 ≡ j = omega arith in
    let e : (j == j && i == i) ≡ true = ground arith in
    rw s (set_row-left (j + 1) i j bs (set j i c g) (omega arith) ∙ rw e)
set_row-at j i (suc d) (c ∷ bs) g =
    let s : j + suc d ≡ (j + 1) + d = omega arith in
    let e : ((j + 1) + d == j) ≡ false = ground arith in
    rw s (set_row-at (j + 1) i d bs (set j i c g) ∙ rw e)

set_rows-other :
    (x n i b a : ℕ) (bs : Bytes) (g : Raster ℕ) → a < i → set_rows x n i bs g b a ≡ g b a
unfolding set_rows
set_rows-other x zero i b a bs g h = refl
set_rows-other x (suc n) i b a bs g h =
    let e : (a == i) ≡ false = ground arith in
    set_rows-other x n (i + 1) b a (drop x bs) (set_row 0 i (take x bs) g) (omega arith)
    ∙ set_row-other 0 i b a (take x bs) g e

-- A pixel of the rows from the i-th on is the byte of its place, or stays as it is.
pub set_rows-at :
    (x n i b e : ℕ) (bs : Bytes) (g : Raster ℕ)
    → b < x
    → e < n
    → set_rows x n i bs g b (i + e) ≡ get_or bs (e * x + b) (g b (i + e))
unfolding set_rows
set_rows-at x zero i b e bs g hb he = absurd (omega arith)
set_rows-at x (suc n) i b zero bs g hb he =
    let s : i + 0 ≡ i = omega arith in
    let c : 0 * x + b ≡ b = omega arith in
    let z : 0 + b ≡ b = omega arith in
    let r = set_row 0 i (take x bs) g in
    rw (s, c)
      (set_rows-other x n (i + 1) b i (drop x bs) r (omega arith)
        ∙ ap (λ b. r b i) (sym z)
        ∙ set_row-at 0 i b (take x bs) g
        ∙ rw z (get_or-take x b (g b i) bs hb))
set_rows-at x (suc n) i b (suc e) bs g hb he =
    let s : i + suc e ≡ (i + 1) + e = omega arith in
    let m : suc e * x + b ≡ x + (e * x + b) = grind arith in
    let o : ((i + 1) + e == i) ≡ false = ground arith in
    rw (s, m)
      (set_rows-at x n (i + 1) b e (drop x bs) (set_row 0 i (take x bs) g) hb (omega arith)
        ∙ rw (set_row-other 0 i b ((i + 1) + e) (take x bs) g o)
            (get_or-drop x (e * x + b) (g b ((i + 1) + e)) bs))
