-- ===== src/Common/Texts.antt =====
-- Strings as their bytes: literals, equality and the order of Go's `<` on strings.
use Prim.Native.Char.{code}
use Prim.Native.String.{String}
use mathlib.Core.Path.{◌≡◌, refl, sym, subst}
use mathlib.Core.Logic.{◌↔◌, inl, inr}
use mathlib.Core.Bool.{Bool, true, false, not, ◌&&◌, ◌||◌}
use mathlib.Core.List.{[], ◌∷◌}
use native.Mathlib.Omega.{arith}
use hadock.Common.Tests.{ltb, ◌==◌, Bool-cases}
use hadock.Common.Endian.{Bytes}

abbrev pub codes : String → Bytes
codes String.[] = []
codes (String.◌∷◌ c s) = code c ∷ codes s

-- s == t
abbrev pub text_eq : Bytes → Bytes → Bool
text_eq [] [] = true
text_eq [] (b ∷ t) = false
text_eq (a ∷ s) [] = false
text_eq (a ∷ s) (b ∷ t) = a == b && text_eq s t

-- s <= t, by the first byte that differs.
abbrev pub text_le : Bytes → Bytes → Bool
text_le [] t = true
text_le (a ∷ s) [] = false
text_le (a ∷ s) (b ∷ t) = ltb a b || (a == b && text_le s t)

pub text_eq_iff : (s t : Bytes) → (text_eq s t ≡ true) ↔ (s ≡ t)
text_eq_iff [] [] = (λ h. refl, λ h. refl)
text_eq_iff [] (b ∷ t) = (λ h. cc, λ h. cc)
text_eq_iff (a ∷ s) [] = (λ h. cc, λ h. cc)
text_eq_iff (a ∷ s) (b ∷ t) =
    (λ h. ground (arith, (text_eq_iff s t).0), λ h. ground (arith, (text_eq_iff s t).1))

pub text_le_refl : (s : Bytes) → text_le s s ≡ true
text_le_refl [] = refl
text_le_refl (a ∷ s) = ground (arith, text_le_refl s)

pub text_le_antisym : (s t : Bytes) → text_le s t ≡ true → text_le t s ≡ true → s ≡ t
text_le_antisym [] [] h k = refl
text_le_antisym [] (b ∷ t) h k = cc
text_le_antisym (a ∷ s) [] h k = cc
text_le_antisym (a ∷ s) (b ∷ t) h k = ground (arith, text_le_antisym s t)

pub text_le_trans : (s t u : Bytes) → text_le s t ≡ true → text_le t u ≡ true → text_le s u ≡ true
text_le_trans [] t u h k = refl
text_le_trans (a ∷ s) [] u h k = cc
text_le_trans (a ∷ s) (b ∷ t) [] h k = cc
text_le_trans (a ∷ s) (b ∷ t) (c ∷ u) h k = ground (arith, text_le_trans s t u)

-- s < t
abbrev pub text_lt : Bytes → Bytes → Bool
text_lt s t = text_le s t && not (text_eq s t)

pub text_lt-le : (s t u : Bytes) → text_lt s t ≡ true → text_le t u ≡ true → text_le s u ≡ true
text_lt-le s t u h k = ground (arith, text_le_trans s t u)

pub text_lt-ne : (s t u : Bytes) → text_lt s t ≡ true → text_le t u ≡ true → text_eq s u ≡ false
text_lt-ne s t u h k = elim (Bool-cases (text_eq s u)) [
  | inr p ↦ p
  | inl p ↦
      let k' : text_le t s ≡ true =
        subst (λ v. text_le t v ≡ true) (sym ((text_eq_iff s u).0 p)) k in
      absurd (ground (arith, text_le_antisym s t, (text_eq_iff s t).1))
]
