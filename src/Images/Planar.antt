-- ===== src/Images/Planar.antt =====
-- The planes of ImageI420.
use hadock.Common.{
  ℕ, ◌+◌, ◌-◌, ◌*◌, ◌/◌, ◌≡◌, refl, subst, true, some, [], ◌++◌, Bytes, length, length-append, take,
  drop, leb, le→leb, take-append, drop-append, append-nil, append_assoc, arith,
}
use hadock.Images.{copied, image_i420}

take-at : (n : ℕ) (xs ys : Bytes) → length xs ≡ n → take n (xs ++ ys) ≡ xs
take-at n xs ys h = subst (λ k. take k (xs ++ ys) ≡ xs) h (take-append xs ys)

drop-at : (n : ℕ) (xs ys : Bytes) → length xs ≡ n → drop n (xs ++ ys) ≡ ys
drop-at n xs ys h = subst (λ k. drop k (xs ++ ys) ≡ ys) h (drop-append xs ys)

copied-whole : (n : ℕ) (xs : Bytes) → length xs ≡ n → copied n xs ≡ xs
copied-whole n xs h =
    let t : take n xs ≡ xs = subst (λ ys. take n ys ≡ xs) (append-nil xs) (take-at n xs [] h) in
    let z : n - length xs ≡ 0 = omega arith in rw (t, z) (append-nil xs)

even_area : (a b : ℕ) → 2 * a * (2 * b) ≡ 4 * (a * b)
even_area a b = omega arith

-- Of an image of even width and height, which comes as its luminance and the two colour differences, one
-- behind the other, ImageI420 fills the three planes with exactly these.
image_i420-planes :
    (a b : ℕ) (ls bs rs : Bytes)
    → length ls ≡ 4 * (a * b)
    → length bs ≡ a * b
    → length rs ≡ a * b
    → image_i420 (2 * a) (2 * b) (ls ++ (bs ++ rs))
      ≡ some (record { luma = ls; blue = bs; red = rs })
unfolding image_i420
image_i420-planes a b ls bs rs l m r =
    let s : 2 * a * (2 * b) ≡ 4 * (a * b) = even_area a b in
    let z : 4 * (a * b) / 4 ≡ a * b = omega arith in
    let w : (2 * a + 1) / 2 ≡ a = omega arith in
    let h : (2 * b + 1) / 2 ≡ b = omega arith in
    let n : length (ls ++ (bs ++ rs)) ≡ length (ls ++ bs) + a * b =
      omega (arith, length-append ls (bs ++ rs), length-append bs rs, length-append ls bs) in
    let e : leb (4 * (a * b) + a * b) (length (ls ++ (bs ++ rs))) ≡ true =
      le→leb _ _ (omega (arith, n, length-append ls bs)) in
    let k : length (ls ++ bs) ≡ length (ls ++ (bs ++ rs)) - a * b = omega (arith, n) in
    let t : drop (length (ls ++ (bs ++ rs)) - a * b) (ls ++ (bs ++ rs)) ≡ rs =
      subst (λ xs. drop (length (ls ++ (bs ++ rs)) - a * b) xs ≡ rs) (append_assoc ls bs rs)
        (drop-at (length (ls ++ (bs ++ rs)) - a * b) (ls ++ bs) rs k) in
    rw
      (
        s,
        z,
        w,
        h,
        e,
        take-at (4 * (a * b)) ls (bs ++ rs) l,
        drop-at (4 * (a * b)) ls (bs ++ rs) l,
        take-at (a * b) bs rs m,
        t,
        copied-whole (4 * (a * b)) ls l,
        copied-whole (a * b) bs m,
        copied-whole (a * b) rs r,
      )
      refl
