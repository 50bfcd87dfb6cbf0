-- ===== src/Common/Sort.antt =====
-- sort.Slice of the standard library by a numeric key: elements with equal keys, whose order the
-- library leaves open, keep the order that they came in.
use Prim.Native.Nat.{ℕ, suc, ◌≤◌}
use mathlib.Core.Path.{◌≡◌, refl, ap, ◌∙◌}
use mathlib.Core.Bool.{Bool, ◌||◌}
use mathlib.Core.Logic.{inl, inr}
use mathlib.Core.List.{List, [], ◌∷◌, Perm}
use mathlib.Core.List.Perm
use native.Mathlib.Omega.{arith}
use hadock.Common.Tests.{leb, le→leb, if◌then◌else◌, Bool-cases}
use hadock.Common.Search.{IsOrdered}
use hadock.Common.Lists.{length, elem, All, All-map}

module _ {A : Type 0} (key : A → ℕ) where
  unfoldable pub insert_by : A → List A → List A
  insert_by x [] = x ∷ []
  insert_by x (y ∷ ys) =
      let rest = insert_by x ys in if leb (key x) (key y) then x ∷ y ∷ ys else y ∷ rest

  unfoldable pub sort_by : List A → List A
  unfolding insert_by
  sort_by [] = []
  sort_by (x ∷ xs) = insert_by x (sort_by xs)

  abbrev pub IsSortedBy : List A → Type 0
  IsSortedBy [] = Unit {0}
  IsSortedBy (x ∷ xs) = All (λ y. key x ≤ key y) xs × IsSortedBy xs

  All-insert_by : (P : A → Type 0) (x : A) (xs : List A) → P x → All P xs → All P (insert_by x xs)
  unfolding insert_by
  All-insert_by P x [] hx h = (hx, tt)
  All-insert_by P x (y ∷ ys) hx h = elim (Bool-cases (leb (key x) (key y))) [
    | inl p ↦ rw p (hx, h)
    | inr p ↦ rw p (h.0, All-insert_by P x ys hx h.1)
  ]

  All-le_trans : (m n : ℕ) (xs : List A) → m ≤ n → All (λ y. n ≤ key y) xs → All (λ y. m ≤ key y) xs
  All-le_trans m n [] h k = tt
  All-le_trans m n (y ∷ ys) h k = (omega arith, All-le_trans m n ys h k.1)

  insert_by-IsSortedBy : (x : A) (xs : List A) → IsSortedBy xs → IsSortedBy (insert_by x xs)
  unfolding insert_by
  insert_by-IsSortedBy x [] h = (tt, tt)
  insert_by-IsSortedBy x (y ∷ ys) h = elim (Bool-cases (leb (key x) (key y))) [
    | inl p ↦ rw p ((ground arith, All-le_trans (key x) (key y) ys (ground arith) h.0), h)
    | inr p ↦
        rw p (
          All-insert_by (λ z. key y ≤ key z) x ys (ground arith) h.0,
          insert_by-IsSortedBy x ys h.1,
        )
  ]

  pub sort_by-IsSortedBy : (xs : List A) → IsSortedBy (sort_by xs)
  unfolding sort_by
  sort_by-IsSortedBy [] = tt
  sort_by-IsSortedBy (x ∷ xs) = insert_by-IsSortedBy x (sort_by xs) (sort_by-IsSortedBy xs)

  All-insert_by_inv :
      (P : A → Type 0) (x : A) (xs : List A) → All P (insert_by x xs) → P x × All P xs
  unfolding insert_by
  All-insert_by_inv P x [] h = (h.0, tt)
  All-insert_by_inv P x (y ∷ ys) h = elim (Bool-cases (leb (key x) (key y))) [
    | inl p ↦ let h' : All P (x ∷ y ∷ ys) = rw (p, insert_by) at h in (h'.0, h'.1)
    | inr p ↦
        let h' : All P (y ∷ insert_by x ys) = rw (p, insert_by) at h in
        let (hx, hys) = All-insert_by_inv P x ys h'.1 in (hx, (h'.0, hys))
  ]

  -- What holds of all elements holds of them before they are sorted.
  pub All-sort_by_inv : (P : A → Type 0) (xs : List A) → All P (sort_by xs) → All P xs
  unfolding sort_by
  All-sort_by_inv P [] h = tt
  All-sort_by_inv P (x ∷ xs) h =
      let (hx, hxs) = All-insert_by_inv P x (sort_by xs) h in (hx, All-sort_by_inv P xs hxs)

  pub All-sort_by : (P : A → Type 0) (xs : List A) → All P xs → All P (sort_by xs)
  unfolding sort_by
  All-sort_by P [] h = tt
  All-sort_by P (x ∷ xs) h = All-insert_by P x (sort_by xs) h.0 (All-sort_by P xs h.1)

  insert_by_first : (x : A) (xs : List A) → All (λ y. key x ≤ key y) xs → insert_by x xs ≡ x ∷ xs
  unfolding insert_by
  insert_by_first x [] h = refl
  insert_by_first x (y ∷ ys) h = ground arith

  -- A sorted list stays as it is.
  pub sort_by-of_sorted : (xs : List A) → IsSortedBy xs → sort_by xs ≡ xs
  unfolding sort_by
  sort_by-of_sorted [] h = refl
  sort_by-of_sorted (x ∷ xs) h = rw (sort_by-of_sorted xs h.1) (insert_by_first x xs h.0)

  insert_by-perm : (x : A) (xs : List A) → Perm (insert_by x xs) (x ∷ xs)
  unfolding insert_by
  insert_by-perm x [] = Perm.refl (x ∷ [])
  insert_by-perm x (y ∷ ys) = elim (Bool-cases (leb (key x) (key y))) [
    | inl p ↦ rw p (Perm.refl (x ∷ y ∷ ys))
    | inr p ↦ rw p (Perm.trans (Perm.cons y (insert_by-perm x ys)) (Perm.swap x y ys))
  ]

  pub sort_by-perm : (xs : List A) → Perm (sort_by xs) xs
  unfolding sort_by
  sort_by-perm [] = Perm.refl []
  sort_by-perm (x ∷ xs) = Perm.trans (insert_by-perm x (sort_by xs)) (Perm.cons x (sort_by-perm xs))

  length-insert_by : (x : A) (xs : List A) → length (insert_by x xs) ≡ suc (length xs)
  unfolding insert_by
  length-insert_by x [] = refl
  length-insert_by x (y ∷ ys) = ground (arith, length-insert_by x ys)

  pub length-sort_by : (xs : List A) → length (sort_by xs) ≡ length xs
  unfolding sort_by
  length-sort_by [] = refl
  length-sort_by (x ∷ xs) = omega (arith, length-insert_by x (sort_by xs), length-sort_by xs)

  module _ (eq : A → A → Bool) where
    elem-insert_by : (a x : A) (xs : List A) → elem eq a (insert_by x xs) ≡ (eq x a || elem eq a xs)
    unfolding insert_by
    elem-insert_by a x [] = refl
    elem-insert_by a x (y ∷ ys) = ground (arith, elem-insert_by a x ys)

    pub elem-sort_by : (a : A) (xs : List A) → elem eq a (sort_by xs) ≡ elem eq a xs
    unfolding sort_by
    elem-sort_by a [] = refl
    elem-sort_by a (x ∷ xs) =
        elem-insert_by a x (sort_by xs) ∙ ap (λ b. eq x a || b) (elem-sort_by a xs)

-- Sorted by a key is ordered by the test that compares the keys.
pub IsSortedBy-IsOrdered :
    {A : Type 0} (key : A → ℕ) (xs : List A)
    → IsSortedBy key xs
    → IsOrdered (λ a b. leb (key a) (key b)) xs
IsSortedBy-IsOrdered key [] h = tt
IsSortedBy-IsOrdered key (x ∷ xs) h =
    (All-map xs (λ y p. le→leb (key x) (key y) p) h.0, IsSortedBy-IsOrdered key xs h.1)
