-- ===== src/Common/Ascending.antt =====
-- A search for `xs[i] <= x`, which is meant for descending lists, over an ascending one.
use Prim.Native.Nat.{ℕ, ◌-◌, ◌/◌, ◌<◌}
use mathlib.Core.Path.{◌≡◌}
use mathlib.Core.Bool.{Bool, true, false}
use mathlib.Core.List.{List}
use native.Mathlib.Omega.{arith}
use native.Mathlib.Decide.{dec_lt}
use hadock.Common.Lists.{length, get_or}
use hadock.Common.Search.{found, search, search_lem, search_zero, IsOrdered, IsOrdered-get_or}

module _ {A : Type 0} (eq le lt : A → A → Bool)
    (lt-le : (a b c : A) → lt a b ≡ true → le b c ≡ true → le a c ≡ true)
    (lt-ne : (a b c : A) → lt a b ≡ true → le b c ≡ true → eq a c ≡ false) where
  -- The search over two elements or more ends at one of the ends, and finds nothing there.
  pub found-ascending :
      (xs : List A) (d c : A)
      → IsOrdered lt xs
      → 1 < length xs
      → found eq (λ x y. le y x) d c xs ≡ false
  unfolding found
  found-ascending xs d c h n =
      let f : ℕ → Bool = λ i. le (get_or xs i d) c in
      let ix = search (length xs) f in
      let (bound, at, before) = search_lem (length xs) f in
      elim (dec_lt ix (length xs)) [
        | no p ↦ ground arith
        | yes p ↦ elim (dec_lt 0 ix) [
          | yes q ↦ absurd (
              ground (
                arith,
                at p,
                before q,
                lt-le (get_or xs (ix - 1) d) (get_or xs ix d) c
                    (IsOrdered-get_or lt xs (ix - 1) ix d h (omega arith) p) (at p),
              ))
          | no q ↦ ground (
            arith,
            lt-ne (get_or xs 0 d) (get_or xs (length xs / 2) d) c
                (IsOrdered-get_or lt xs 0 (length xs / 2) d h (omega arith) (omega arith))
                (search_zero (length xs) f (omega arith) (omega arith)),
          )
        ]
      ]
