-- ===== src/Common/Search.antt =====
-- sort.Search of the standard library, and the membership test that the code builds on it:
-- `ix := sort.Search(len(xs), …); ix < len(xs) && xs[ix] == x`.
use Prim.Native.Nat.{ℕ, zero, suc, ◌+◌, ◌-◌, ◌/◌, ◌≤◌, ◌<◌}
use mathlib.Core.Path.{◌≡◌, refl, sym, ◌∙◌}
use mathlib.Core.Logic.{◌↔◌, inl, inr}
use mathlib.Core.Bool.{Bool, true, false, ◌&&◌}
use mathlib.Core.List.{List, [], ◌∷◌}
use native.Mathlib.Omega.{arith}
use native.Mathlib.Decide.{dec_lt}
use hadock.Common.Tests.{ltb, lt→ltb, if◌then◌else◌, Bool-cases}
use hadock.Common.Lists.{length, get_or, elem, All, All-get_or}

-- for i < j { h := (i + j) / 2; if !f(h) { i = h + 1 } else { j = h } }; each round narrows [i, j).
search_loop : ℕ → (ℕ → Bool) → ℕ → ℕ → ℕ
search_loop zero f i j = i
search_loop (suc fuel) f i j =
    let h = (i + j) / 2 in
    let lower = search_loop fuel f i h in
    let upper = search_loop fuel f (h + 1) j in
    if ltb i j then (if f h then lower else upper) else i

unfoldable pub search : ℕ → (ℕ → Bool) → ℕ
unfolding search_loop
search n f = search_loop n f 0 n

search_loop_lem :
    (fuel : ℕ) (f : ℕ → Bool) (i j : ℕ)
    → i ≤ j
    → j ≤ i + fuel
    → (i ≤ search_loop fuel f i j)
      × (search_loop fuel f i j ≤ j)
      × (search_loop fuel f i j < j → f (search_loop fuel f i j) ≡ true)
      × (i < search_loop fuel f i j → f (search_loop fuel f i j - 1) ≡ false)
unfolding search_loop
search_loop_lem zero f i j h k =
    (omega arith, omega arith, λ p. absurd (omega arith), λ p. absurd (omega arith))
search_loop_lem (suc fuel) f i j h k = elim (Bool-cases (ltb i j)) [
  | inr p ↦ rw p (omega arith, h, λ q. absurd (ground arith), λ q. absurd (omega arith))
  | inl p ↦ elim (Bool-cases (f ((i + j) / 2))) [
    | inl q ↦
        rw (p, q)
          (ground (arith, search_loop_lem fuel f i ((i + j) / 2) (omega arith) (ground arith)))
    | inr q ↦
        rw (p, q)
          (ground (arith, search_loop_lem fuel f ((i + j) / 2 + 1) j (ground arith) (omega arith)))
  ]
]

-- Whatever the test is, it holds at the answer (unless that is n) and fails just before it (unless
-- that is 0).
pub search_lem :
    (n : ℕ) (f : ℕ → Bool)
    → (search n f ≤ n)
      × (search n f < n → f (search n f) ≡ true)
      × (0 < search n f → f (search n f - 1) ≡ false)
unfolding search
search_lem n f =
    let (_, le, at, before) = search_loop_lem n f 0 n (omega arith) (omega arith) in
    (le, at, before)

-- An answer of 0 has probed the middle.
pub search_zero : (n : ℕ) (f : ℕ → Bool) → 0 < n → search n f ≡ 0 → f (n / 2) ≡ true
unfolding search search_loop
search_zero zero f h e = absurd (omega arith)
search_zero (suc n) f h e = elim (Bool-cases (f (suc n / 2))) [
  | inl p ↦ p
  | inr p ↦ ground (arith, search_loop_lem n f (suc n / 2 + 1) (suc n) (omega arith) (omega arith))
]

module _ {A : Type 0} (le : A → A → Bool) where
  -- Each element is below those behind it, by the Boolean order `le`.
  abbrev pub IsOrdered : List A → Type 0
  IsOrdered [] = Unit {0}
  IsOrdered (x ∷ xs) = All (λ y. le x y ≡ true) xs × IsOrdered xs

  pub IsOrdered-get_or :
      (xs : List A) (i j : ℕ) (d : A)
      → IsOrdered xs
      → i < j
      → j < length xs
      → le (get_or xs i d) (get_or xs j d) ≡ true
  IsOrdered-get_or [] i j d h p q = absurd (omega arith)
  IsOrdered-get_or (x ∷ xs) i zero d h p q = absurd (omega arith)
  IsOrdered-get_or (x ∷ xs) zero (suc j) d h p q =
      All-get_or (λ y. le x y ≡ true) xs j d h.0 (omega arith)
  IsOrdered-get_or (x ∷ xs) (suc i) (suc j) d h p q =
      IsOrdered-get_or xs i j d h.1 (omega arith) (omega arith)

module _ {A : Type 0} (eq le : A → A → Bool) where
  -- The test that the elements from some point on pass is `le x xs[i]`, in the list's own order.
  unfoldable pub found : A → A → List A → Bool
  found d x xs =
      let ix = search (length xs) (λ i. le x (get_or xs i d)) in
      ltb ix (length xs) && eq (get_or xs ix d) x

  module _ (eq_iff : (a b : A) → (eq a b ≡ true) ↔ (a ≡ b)) (le_refl : (a : A) → le a a ≡ true)
      (le_antisym : (a b : A) → le a b ≡ true → le b a ≡ true → a ≡ b) where
    get_or-elem :
        (xs : List A) (i : ℕ) (d x : A)
        → i < length xs
        → eq (get_or xs i d) x ≡ true
        → elem eq x xs ≡ true
    get_or-elem [] i d x h e = absurd (omega arith)
    get_or-elem (y ∷ xs) zero d x h e = rw e
    get_or-elem (y ∷ xs) (suc i) d x h e = elim (Bool-cases (eq y x)) [
      | inl p ↦ rw p
      | inr p ↦ rw p (get_or-elem xs i d x (omega arith) e)
    ]

    elem-get_or :
        (xs : List A) (d x : A)
        → elem eq x xs ≡ true
        → (i : ℕ) × (i < length xs) × (get_or xs i d ≡ x)
    elem-get_or [] d x h = cc
    elem-get_or (y ∷ xs) d x h = elim (Bool-cases (eq y x)) [
      | inl p ↦ (0, omega arith, (eq_iff y x).0 p)
      | inr p ↦ let (i, lt, e) = elem-get_or xs d x (rw (p, elem) at h) in (suc i, omega arith, e)
    ]

    IsOrdered-le :
        (xs : List A) (i j : ℕ) (d : A)
        → IsOrdered le xs
        → i ≤ j
        → j < length xs
        → le (get_or xs i d) (get_or xs j d) ≡ true
    IsOrdered-le xs i j d h p q = elim (dec_lt i j) [
      | yes lt ↦ IsOrdered-get_or le xs i j d h lt q
      | no ge ↦ let e : i ≡ j = omega arith in rw e (le_refl (get_or xs j d))
    ]

    -- Where x stands at i, the first index that passes the test is at most i and holds x too.
    first_index :
        (d x : A) (xs : List A) (i ix : ℕ)
        → IsOrdered le xs
        → i < length xs
        → get_or xs i d ≡ x
        → (ix < length xs → le x (get_or xs ix d) ≡ true)
        → (0 < ix → le x (get_or xs (ix - 1) d) ≡ false)
        → ix ≤ length xs
        → (ix < length xs) × (get_or xs ix d ≡ x)
    first_index d x xs i ix h lt e at before bound = elim (dec_lt i ix) [
      | yes p ↦
          let below = IsOrdered-le xs i (ix - 1) d h (omega arith) (omega arith) in
          cc (before (omega arith), rw e at below)
      | no p ↦
          let above = IsOrdered-le xs ix i d h (omega arith) lt in
          (omega arith, le_antisym _ _ (rw e at above) (at (omega arith)))
    ]

    -- On any list the search finds nothing that is not there.
    pub found→elem : (d x : A) (xs : List A) → found d x xs ≡ true → elem eq x xs ≡ true
    unfolding found
    found→elem d x xs h =
        ground (arith, get_or-elem xs (search (length xs) (λ i. le x (get_or xs i d))) d x)

    -- On an ordered list the binary search decides membership.
    pub found-elem : (d x : A) (xs : List A) → IsOrdered le xs → found d x xs ≡ elem eq x xs
    unfolding found
    found-elem d x xs h = elim (Bool-cases (elem eq x xs)) [
      | inl p ↦
          let (i, lt, e) = elem-get_or xs d x p in
          let (bound, at, before) = search_lem (length xs) (λ i. le x (get_or xs i d)) in
          let (lt', e') = first_index d x xs i _ h lt e at before bound in
          rw (p, lt→ltb _ _ lt', e') ((eq_iff x x).1 refl)
      | inr p ↦ elim (Bool-cases (found d x xs)) [
        | inl q ↦ cc (found→elem d x xs q)
        | inr q ↦ q ∙ sym p
      ]
    ]
