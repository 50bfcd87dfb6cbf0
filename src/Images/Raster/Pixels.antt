-- ===== src/Images/Raster/Pixels.antt =====
-- The pixels of the images of internal/image/image.go, by their places.
use hadock.Common.{
  ℕ, zero, suc, ◌+◌, ◌*◌, ◌≡◌, ◌<◌, refl, ap, sym, ◌∙◌, true, false, ◌&&◌, [], ◌∷◌, ◌++◌, Bytes,
  drop, get_or, ◌==◌, length, arith,
}
use hadock.Common.Reader.{ok, read_full-append, read_be, read_le, read_full, ◌>>=◌, pure}
use hadock.Common.Endian.{of_be, of_le}
use hadock.Images.Raster.Rows.{set_rows-at, get_or-drop}
use hadock.Images.Raster.{
  Raster, set, set_rows, image_gray8, scan_row, scan_rows, or_zero, ByteOrder, big_endian,
  little_endian, read_word, image_gray16, Color, read_color, image_rgb,
}

-- The bytes behind n pixels of k bytes.
abbrev advance : ℕ → ℕ → Bytes → Bytes
advance k zero bs = bs
advance k (suc n) bs = advance k n (drop k bs)

drop-nil : (n : ℕ) → drop {A = ℕ} n [] ≡ []
drop-nil zero = refl
drop-nil (suc n) = refl

drop-drop : (m n : ℕ) (bs : Bytes) → drop n (drop m bs) ≡ drop (m + n) bs
drop-drop zero n bs = let e : 0 + n ≡ n = omega arith in rw e
drop-drop (suc m) n [] = drop-nil n ∙ sym (drop-nil (suc m + n))
drop-drop (suc m) n (b ∷ bs) =
    let e : suc m + n ≡ suc (m + n) = omega arith in rw e (drop-drop m n bs)

advance-add : (k m n : ℕ) (bs : Bytes) → advance k (m + n) bs ≡ advance k n (advance k m bs)
advance-add k zero n bs = let e : 0 + n ≡ n = omega arith in rw e
advance-add k (suc m) n bs =
    let e : suc m + n ≡ suc (m + n) = omega arith in rw e (advance-add k m n (drop k bs))

advance_lem : (k n : ℕ) (bs : Bytes) → advance k n bs ≡ drop (n * k) bs
advance_lem k zero bs = let e : 0 * k ≡ 0 = omega arith in rw e
advance_lem k (suc n) bs =
    let e : suc n * k ≡ k + n * k = grind arith in
    rw e (advance_lem k n (drop k bs) ∙ drop-drop k (n * k) bs)

next_row : (x e b : ℕ) → x + (e * x + b) ≡ suc e * x + b
next_row x e b = grind arith

module _ {A : Type 0} (read : Bytes → A × Bytes) (k : ℕ) where
  -- Each pixel takes k bytes, or what is left.
  Takes : Type 0
  Takes = (bs : Bytes) → (read bs).1 ≡ drop k bs

  scan_row-rest :
      (n j i : ℕ) (bs : Bytes) (g : Raster A)
      → Takes
      → (scan_row read n j i bs g).1 ≡ advance k n bs
  unfolding scan_row Takes
  scan_row-rest zero j i bs g h = refl
  scan_row-rest (suc n) j i bs g h =
      scan_row-rest n (j + 1) i (read bs).1 (set j i (read bs).0 g) h ∙ ap (advance k n) (h bs)

  -- A row leaves the columns before it and the other rows.
  scan_row-left :
      (n j i b : ℕ) (bs : Bytes) (g : Raster A) → b < j → (scan_row read n j i bs g).0 b i ≡ g b i
  unfolding scan_row
  scan_row-left zero j i b bs g h = refl
  scan_row-left (suc n) j i b bs g h =
      let e : (b == j) ≡ false = ground arith in
      scan_row-left n (j + 1) i b (read bs).1 (set j i (read bs).0 g) (omega arith) ∙ rw e

  scan_row-other :
      (n j i b a : ℕ) (bs : Bytes) (g : Raster A) → a < i → (scan_row read n j i bs g).0 b a ≡ g b a
  unfolding scan_row
  scan_row-other zero j i b a bs g h = refl
  scan_row-other (suc n) j i b a bs g h =
      let e : (b == j && a == i) ≡ false = ground arith in
      scan_row-other n (j + 1) i b a (read bs).1 (set j i (read bs).0 g) h ∙ rw e

  scan_row-at :
      (n j i d : ℕ) (bs : Bytes) (g : Raster A)
      → Takes
      → d < n
      → (scan_row read n j i bs g).0 (j + d) i ≡ (read (advance k d bs)).0
  unfolding scan_row Takes
  scan_row-at zero j i d bs g h l = absurd (omega arith)
  scan_row-at (suc n) j i zero bs g h l =
      let s : j + 0 ≡ j = omega arith in
      let e : (j == j && i == i) ≡ true = ground arith in
      rw s (scan_row-left n (j + 1) i j (read bs).1 (set j i (read bs).0 g) (omega arith) ∙ rw e)
  scan_row-at (suc n) j i (suc d) bs g h l =
      let s : j + suc d ≡ (j + 1) + d = omega arith in
      rw s (
        scan_row-at n (j + 1) i d (read bs).1 (set j i (read bs).0 g) h (omega arith)
        ∙ ap (λ r. (read (advance k d r)).0) (h bs))

  scan_rows-other :
      (x n i b a : ℕ) (bs : Bytes) (g : Raster A) → a < i → scan_rows read x n i bs g b a ≡ g b a
  unfolding scan_rows
  scan_rows-other x zero i b a bs g h = refl
  scan_rows-other x (suc n) i b a bs g h =
      let p = scan_row read x 0 i bs g in
      scan_rows-other x n (i + 1) b a p.1 p.0 (omega arith) ∙ scan_row-other x 0 i b a bs g h

  scan_rows-at :
      (x n i b e : ℕ) (bs : Bytes) (g : Raster A)
      → Takes
      → b < x
      → e < n
      → scan_rows read x n i bs g b (i + e) ≡ (read (drop ((e * x + b) * k) bs)).0
  unfolding scan_rows
  scan_rows-at x zero i b e bs g h hb he = absurd (omega arith)
  scan_rows-at x (suc n) i b zero bs g h hb he =
      let p = scan_row read x 0 i bs g in
      let s : i + 0 ≡ i = omega arith in
      let c : 0 * x + b ≡ b = omega arith in
      let z : 0 + b ≡ b = omega arith in
      let at : p.0 (0 + b) i ≡ (read (advance k b bs)).0 = scan_row-at x 0 i b bs g h hb in
      rw (s, c)
        (scan_rows-other x n (i + 1) b i p.1 p.0 (omega arith)
          ∙ ap (λ b. p.0 b i) (sym z)
          ∙ at
          ∙ ap (λ r. (read r).0) (advance_lem k b bs))
  scan_rows-at x (suc n) i b (suc e) bs g h hb he =
      let p = scan_row read x 0 i bs g in
      let s : i + suc e ≡ (i + 1) + e = omega arith in
      rw (s, ← next_row x e b)
        (scan_rows-at x n (i + 1) b e p.1 p.0 h hb (omega arith)
          ∙ ap (λ r. (read r).0)
              (ap (drop ((e * x + b) * k)) (scan_row-rest x 0 i bs g h)
                ∙ sym (advance_lem k (e * x + b) (advance k x bs))
                ∙ sym (advance-add k x (e * x + b) bs)
                ∙ advance_lem k (x + (e * x + b)) bs))

-- The value of two bytes, or zero where there are not two.
abbrev pub word_of : ByteOrder → Bytes → ℕ
word_of big_endian (a ∷ b ∷ bs) = a * 256 + b
word_of little_endian (a ∷ b ∷ bs) = a + b * 256
word_of order _ = 0

-- The colour of three bytes, where missing ones are zero.
abbrev pub color_of : Bytes → Color
color_of bs = record { red = get_or bs 0 0; green = get_or bs 1 0; blue = get_or bs 2 0 }

read_be_whole :
    (k : ℕ) (xs rest : Bytes) → length xs ≡ k → read_be k (xs ++ rest) ≡ (ok (of_be xs), rest)
unfolding read_be ◌>>=◌ pure
read_be_whole k xs rest h = rw (read_full-append xs rest k h)

read_le_whole :
    (k : ℕ) (xs rest : Bytes) → length xs ≡ k → read_le k (xs ++ rest) ≡ (ok (of_le xs), rest)
unfolding read_le ◌>>=◌ pure
read_le_whole k xs rest h = rw (read_full-append xs rest k h)

of_be-two : (a b : ℕ) → of_be (a ∷ b ∷ []) ≡ a * 256 + b
unfolding of_be
of_be-two a b = omega arith

of_le-two : (a b : ℕ) → of_le (a ∷ b ∷ []) ≡ a + b * 256
unfolding of_le
of_le-two a b = omega arith

read_word_lem :
    (order : ByteOrder) (bs : Bytes) → read_word order bs ≡ (word_of order bs, drop 2 bs)
unfolding read_word read_be read_le read_full ◌>>=◌ pure
read_word_lem big_endian [] = refl
read_word_lem big_endian (a ∷ []) = refl
read_word_lem big_endian (a ∷ b ∷ bs) = rw (read_be_whole 2 (a ∷ b ∷ []) bs refl, of_be-two a b)
read_word_lem little_endian [] = refl
read_word_lem little_endian (a ∷ []) = refl
read_word_lem little_endian (a ∷ b ∷ bs) = rw (read_le_whole 2 (a ∷ b ∷ []) bs refl, of_le-two a b)

-- A byte that is read, or zero.
read_byte_lem :
    (bs : Bytes) → (or_zero (read_be 1 bs).0 ≡ get_or bs 0 0) × ((read_be 1 bs).1 ≡ drop 1 bs)
unfolding read_be read_full ◌>>=◌ pure of_be
read_byte_lem [] = (refl, refl)
read_byte_lem (a ∷ bs) =
    let e = read_be_whole 1 (a ∷ []) bs refl in
    let v : of_be (a ∷ []) ≡ a = omega arith in (ap (λ r. or_zero r.0) e ∙ v, ap (λ r. r.1) e)

read_color_lem : (bs : Bytes) → read_color bs ≡ (color_of bs, drop 3 bs)
unfolding read_color
read_color_lem bs =
    let (r, rs) = read_byte_lem bs in
    let (g, gs) = read_byte_lem (drop 1 bs) in
    let (b, ds) = read_byte_lem (drop 1 (drop 1 bs)) in
    rw
      (
        r,
        rs,
        g,
        gs,
        b,
        ds,
        drop-drop 1 1 bs,
        drop-drop 2 1 bs,
        get_or-drop 1 0 0 bs,
        get_or-drop 2 0 0 bs,
      )
      refl

-- The pixel at column j and row i of each image comes from the bytes of its place, i * x + j pixels
-- behind the first: a byte; two bytes in the given order; or three colours. Where the points end
-- before, what is missing is zero, and so is a value of which one byte is there.
pub pixels_at :
    (x y : ℕ) (points : Bytes) (order : ByteOrder) (j i : ℕ)
    → j < x
    → i < y
    → (image_gray8 x y points j i ≡ get_or points (i * x + j) 0)
      × (image_gray16 x y points order j i ≡ word_of order (drop ((i * x + j) * 2) points))
      × (image_rgb x y points j i ≡ color_of (drop ((i * x + j) * 3) points))
unfolding image_gray8 image_gray16 image_rgb Takes
pixels_at x y points order j i hj hi =
    let z : 0 + i ≡ i = omega arith in
    let word = read_word_lem order in
    (
      ap (λ i. set_rows x y 0 points (λ b a. 0) j i) (sym z)
          ∙ set_rows-at x y 0 j i points (λ b a. 0) hj hi,
      ap (image_gray16 x y points order j) (sym z)
          ∙ scan_rows-at (read_word order) 2 x y 0 j i points (λ b a. 0)
              (λ bs. ap (λ p. p.1) (word bs)) hj hi
          ∙ ap (λ p. p.0) (word _),
      ap (image_rgb x y points j) (sym z)
          ∙ scan_rows-at read_color 3 x y 0 j i points
              (λ b a. record { red = 0; green = 0; blue = 0 })
              (λ bs. ap (λ p. p.1) (read_color_lem bs)) hj hi
          ∙ ap (λ p. p.0) (read_color_lem _),
    )
