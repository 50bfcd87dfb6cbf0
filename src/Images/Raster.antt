-- ===== src/Images/Raster.antt =====
-- ImageGray8, ImageGray16 and ImageRGB of internal/image/image.go: the pixels that loops over the rows set.
pub mod Pixels
pub mod Rows
use hadock.Common.{
  ℕ, zero, suc, ◌+◌, Bool, ◌&&◌, List, [], ◌∷◌, Bytes, take, drop, ◌==◌, if◌then◌else◌,
}
use hadock.Common.Reader.{Result, ok, err, Reader, read_be, read_le}

-- The pixels of an image, by column and row.
abbrev pub Raster {ℓ} : Type ℓ → Type ℓ
Raster A = ℕ → ℕ → A

-- g.Set(j, i, v), within the bounds.
abbrev pub set {ℓ} : {A : Type ℓ} → ℕ → ℕ → A → Raster A → Raster A
set j i v g b a = if b == j && a == i then v else g b a

-- for j, c := range bs { g.Set(j, i, c) }, from j on
unfoldable pub set_row : ℕ → ℕ → Bytes → Raster ℕ → Raster ℕ
set_row j i [] g = g
set_row j i (c ∷ bs) g = set_row (j + 1) i bs (set j i c g)

-- The rows of ImageGray8 from the i-th on, of which n are left.
unfoldable pub set_rows : ℕ → ℕ → ℕ → Bytes → Raster ℕ → Raster ℕ
set_rows x zero i bs g = g
set_rows x (suc n) i bs g = set_rows x n (i + 1) (drop x bs) (set_row 0 i (take x bs) g)

unfoldable pub image_gray8 : ℕ → ℕ → Bytes → Raster ℕ
image_gray8 x y points = set_rows x y 0 points (λ b a. 0)

-- The two nested loops that ImageGray16 and ImageRGB have in common, where `read` reads a pixel.
module _ {A : Type 0} (read : Bytes → A × Bytes) where
  unfoldable pub scan_row : ℕ → ℕ → ℕ → Bytes → Raster A → Raster A × Bytes
  scan_row zero j i bs g = (g, bs)
  scan_row (suc n) j i bs g = let p = read bs in scan_row n (j + 1) i p.1 (set j i p.0 g)

  unfoldable pub scan_rows : ℕ → ℕ → ℕ → Bytes → Raster A → Raster A
  scan_rows x zero i bs g = g
  scan_rows x (suc n) i bs g = let p = scan_row x 0 i bs g in scan_rows x n (i + 1) p.1 p.0

-- A variable that is zero before a binary.Read whose error is dropped.
abbrev pub or_zero : Result ℕ → ℕ
or_zero (ok v) = v
or_zero (err e) = 0

pub data ByteOrder : Type 0 where
  big_endian little_endian : ByteOrder

abbrev pub reader_of : ByteOrder → Reader ℕ
reader_of big_endian = read_be 2
reader_of little_endian = read_le 2

unfoldable pub read_word : ByteOrder → Bytes → ℕ × Bytes
read_word order bs = let r = reader_of order bs in (or_zero r.0, r.1)

unfoldable pub image_gray16 : ℕ → ℕ → Bytes → ByteOrder → Raster ℕ
image_gray16 x y points order = scan_rows (read_word order) x y 0 points (λ b a. 0)

-- color.RGBA without A, which is 255 for all pixels that are set.
pub record Color : Type 0 where
  pub red : ℕ
  pub green : ℕ
  pub blue : ℕ

unfoldable pub read_color : Bytes → Color × Bytes
read_color bs =
    let r = read_be 1 bs in
    let g = read_be 1 r.1 in
    let b = read_be 1 g.1 in
    (record { red = or_zero r.0; green = or_zero g.0; blue = or_zero b.0 }, b.1)

unfoldable pub image_rgb : ℕ → ℕ → Bytes → Raster Color
image_rgb x y points =
    scan_rows read_color x y 0 points (λ b a. record { red = 0; green = 0; blue = 0 })
