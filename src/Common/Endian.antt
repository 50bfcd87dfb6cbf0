-- ===== src/Common/Endian.antt =====
-- Fixed width integers as bytes (encoding/binary): most and least significant byte first.
use Prim.Native.Nat.{ℕ, zero, suc, ◌+◌, ◌*◌, ◌/◌, ◌%◌, ◌^◌, ◌<◌}
use mathlib.Core.Path.{◌≡◌, refl, sym, subst, ◌∙◌}
use mathlib.Core.List.{List, [], ◌∷◌, ◌++◌, append_assoc, append-nil}
use native.Mathlib.Omega.{arith}
use native.Mathlib.Nat.{pow-suc}
use hadock.Common.Lists.{length, length-append, All, All-append}

abbrev pub Bytes : Type 0
Bytes = List ℕ

abbrev pub IsByte : ℕ → Type 0
IsByte b = b < 256

-- binary.Write(w, binary.BigEndian, v) for an unsigned v of k bytes.
unfoldable pub be : ℕ → ℕ → Bytes
be zero v = []
be (suc k) v = be k (v / 256) ++ (v % 256 ∷ [])

-- binary.Write(w, binary.LittleEndian, v) for an unsigned v of k bytes.
unfoldable pub le : ℕ → ℕ → Bytes
le zero v = []
le (suc k) v = v % 256 ∷ le k (v / 256)

unfoldable pub of_be_from : ℕ → Bytes → ℕ
of_be_from acc [] = acc
of_be_from acc (b ∷ bs) = of_be_from (acc * 256 + b) bs

-- binary.BigEndian.UintXX(bs), for all of bs.
unfoldable pub of_be : Bytes → ℕ
unfolding of_be_from
of_be bs = of_be_from 0 bs

-- binary.LittleEndian.UintXX(bs), for all of bs.
unfoldable pub of_le : Bytes → ℕ
of_le [] = 0
of_le (b ∷ bs) = b + 256 * of_le bs

of_be_from-append :
    (acc b : ℕ) (xs : Bytes) → of_be_from acc (xs ++ (b ∷ [])) ≡ of_be_from acc xs * 256 + b
unfolding of_be_from
of_be_from-append acc b [] = refl
of_be_from-append acc b (x ∷ xs) = of_be_from-append (acc * 256 + x) b xs

pub length-be : (k v : ℕ) → length (be k v) ≡ k
unfolding be
length-be zero v = refl
length-be (suc k) v =
    omega (arith, length-be k (v / 256), length-append (be k (v / 256)) (v % 256 ∷ []))

pub length-le : (k v : ℕ) → length (le k v) ≡ k
unfolding le
length-le zero v = refl
length-le (suc k) v = omega (arith, length-le k (v / 256))

div-lt-pow : (k v : ℕ) → v < 256 ^ suc k → v / 256 < 256 ^ k
div-lt-pow k v h = omega (arith, pow-suc 256 k)

-- A value that fits is read back.
pub of_be-be : (k v : ℕ) → v < 256 ^ k → of_be (be k v) ≡ v
unfolding be of_be
of_be-be zero v h = omega arith
of_be-be (suc k) v h =
    omega (
      arith,
      of_be_from-append 0 (v % 256) (be k (v / 256)),
      of_be-be k (v / 256) (div-lt-pow k v h),
    )

pub of_le-le : (k v : ℕ) → v < 256 ^ k → of_le (le k v) ≡ v
unfolding le of_le
of_le-le zero v h = omega arith
of_le-le (suc k) v h = omega (arith, of_le-le k (v / 256) (div-lt-pow k v h))

pub be-IsByte : (k v : ℕ) → All IsByte (be k v)
unfolding be
be-IsByte zero v = tt
be-IsByte (suc k) v =
    All-append IsByte (be k (v / 256)) (v % 256 ∷ []) (be-IsByte k (v / 256)) (omega arith)

pub le-IsByte : (k v : ℕ) → All IsByte (le k v)
unfolding le
le-IsByte zero v = tt
le-IsByte (suc k) v = (omega arith, le-IsByte k (v / 256))

-- A value with one byte more, behind what it is written in front of.
be-snoc :
    (k acc b : ℕ) (xs : Bytes) → IsByte b → be (suc k) (acc * 256 + b) ++ xs ≡ be k acc ++ (b ∷ xs)
unfolding be
be-snoc k acc b xs h =
    let q : (acc * 256 + b) / 256 ≡ acc = omega (arith, h) in
    let r : (acc * 256 + b) % 256 ≡ b = omega (arith, h) in
    rw (q, r) (append_assoc (be k acc) (b ∷ []) xs)

be-of_be_from :
    (k acc : ℕ) (xs : Bytes)
    → All IsByte xs
    → be (length xs + k) (of_be_from acc xs) ≡ be k acc ++ xs
unfolding of_be_from
be-of_be_from k acc [] h = let n : 0 + k ≡ k = omega arith in rw n (sym (append-nil (be k acc)))
be-of_be_from k acc (b ∷ xs) h =
    let n : suc (length xs) + k ≡ length xs + suc k = omega arith in
    rw n (be-of_be_from (suc k) (acc * 256 + b) xs h.1 ∙ be-snoc k acc b xs h.0)

-- Bytes that are read are written again.
pub be-of_be : (xs : Bytes) → All IsByte xs → be (length xs) (of_be xs) ≡ xs
unfolding of_be be
be-of_be xs h =
    let n : length xs + 0 ≡ length xs = omega arith in
    subst (λ n. be n (of_be xs) ≡ xs) n (be-of_be_from 0 0 xs h)
