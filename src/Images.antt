-- ===== src/Images.antt =====
-- internal/image/image.go: the planes of images with a luminance and two colour differences. A slice
-- shares its array with the slices that it was made from, as append of Go has it.
pub mod Planar
pub mod Raster
pub mod Shared
use hadock.Common.{
  ℕ, zero, suc, ◌+◌, ◌-◌, ◌*◌, ◌/◌, Bool, true, false, ◌&&◌, Option, none, some, List, [], ◌∷◌,
  ◌++◌, Bytes, length, take, drop, replicate, ltb, leb, ◌==◌, if◌then◌else◌,
}

-- The arrays of bytes, by their numbers; those from `next` on are not in use.
pub record Heap : Type 0 where
  pub cells : ℕ → ℕ → ℕ
  pub next : ℕ

pub record Slice : Type 0 where
  pub array : ℕ
  pub size : ℕ
  pub capacity : ℕ

-- The first n cells.
abbrev pub cells_below : (ℕ → ℕ) → ℕ → Bytes
cells_below f zero = []
cells_below f (suc n) = cells_below f n ++ (f n ∷ [])

abbrev pub bytes_of : Heap → Slice → Bytes
bytes_of h s = cells_below (h.cells s.array) s.size

abbrev pub write_cell : ℕ → ℕ → ℕ → Heap → Heap
write_cell a i v h = record h { cells = λ b j. if b == a && j == i then v else h.cells b j }

-- make([]byte, 0, n)
abbrev pub make_slice : ℕ → Heap → Heap × Slice
make_slice n h = (record h { next = h.next + 1 }, record { array = h.next; size = 0; capacity = n })

-- An array that is longer by a byte, behind the bytes of a slice.
abbrev copy_cells : ℕ → Heap → Slice → Heap
copy_cells v h s = record {
  cells = λ b j.
      if b == h.next
      then (if ltb j s.size then h.cells s.array j else if j == s.size then v else 0)
      else h.cells b j;
  next = h.next + 1;
}

-- The planes of a YCbCr image.
pub record Planes : Type 0 where
  pub luma : Bytes
  pub blue : Bytes
  pub red : Bytes

-- copy(make([]byte, n), xs)
abbrev pub copied : ℕ → Bytes → Bytes
copied n xs = take n xs ++ replicate (n - length (take n xs)) 0

-- The slices ls, bs and rs of ImageLBR.
pub record Lbr : Type 0 where
  pub heap : Heap
  pub ls : Slice
  pub bs : Slice
  pub rs : Slice

-- `grown` is the capacity that append gives to a new array.
module _ (grown : ℕ → ℕ) where
  -- append(s, v)
  unfoldable pub push : ℕ → Heap → Slice → Heap × Slice
  push v h s =
      if ltb s.size s.capacity
      then (write_cell s.array s.size v h, record s { size = suc s.size })
      else (
        copy_cells v h s,
        record { array = h.next; size = suc s.size; capacity = grown (suc s.size) },
      )

  -- A round of the loop of ImageLBR: bs is made by an append to rs.
  unfoldable pub lbr_round : ℕ → ℕ → ℕ → ℕ → Lbr → Lbr
  lbr_round a b c d st =
      let l = push a st.heap st.ls in
      let m = push c l.0 l.1 in
      let p = push b m.0 st.rs in
      let q = push d p.0 st.rs in record { heap = q.0; ls = m.1; bs = p.1; rs = q.1 }

  -- The loop: none is a panic, where the last round lacks bytes.
  unfoldable pub lbr_rounds : Bytes → Lbr → Option Lbr
  lbr_rounds [] st = some st
  lbr_rounds (a ∷ []) st = none
  lbr_rounds (a ∷ b ∷ []) st = none
  lbr_rounds (a ∷ b ∷ c ∷ []) st = none
  lbr_rounds (a ∷ b ∷ c ∷ d ∷ points) st = lbr_rounds points (lbr_round a b c d st)

  abbrev pub no_heap : Heap
  no_heap = record { cells = λ a i. 0; next = 0 }

  abbrev pub lbr_start : ℕ → Lbr
  lbr_start n =
      let l = make_slice (n / 2) no_heap in
      let b = make_slice (n / 4) l.0 in
      let r = make_slice (n / 4) b.0 in record { heap = r.0; ls = l.1; bs = b.1; rs = r.1 }

  abbrev pub lbr_planes : ℕ → ℕ → Lbr → Planes
  lbr_planes x y st =
      let n = (x + 1) / 2 * y in
      record {
        luma = copied (x * y) (bytes_of st.heap st.ls);
        blue = copied n (bytes_of st.heap st.bs);
        red = copied n (bytes_of st.heap st.rs);
      }

  -- ImageLBR
  unfoldable pub image_lbr : ℕ → ℕ → Bytes → Option Planes
  image_lbr x y points = elim (lbr_rounds points (lbr_start (length points))) [
    | none ↦ none
    | some st ↦ some (lbr_planes x y st)
  ]

-- ImageI420: none is a panic of a slice expression, where the points have no spare capacity.
unfoldable pub image_i420 : ℕ → ℕ → Bytes → Option Planes
image_i420 x y points =
    let s = x * y in
    let z = s / 4 in
    let n = (x + 1) / 2 * ((y + 1) / 2) in
    if leb (s + z) (length points)
    then some (record {
      luma = copied s (take s points);
      blue = copied n (take z (drop s points));
      red = copied n (drop (length points - z) points);
    })
    else none
