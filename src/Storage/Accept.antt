-- ===== src/Storage/Accept.antt =====
-- Control.Can against membership in the two lists.
use hadock.Common.{ℕ, ◌≡◌, refl, Bool, true, not, ◌||◌, some, List, [], ◌∷◌, Bytes, elem, ap, arith}
use hadock.Common.Search.{found-elem, IsOrdered}
use hadock.Common.Texts.{text_eq, text_le, text_eq_iff, text_le_refl, text_le_antisym}
use hadock.Panda.{HrPacket}
use hadock.Storage.{Control, check_origin, can_origin, can, origin_of}

check_origin-elem :
    (o v : Bytes) (vs : List Bytes)
    → IsOrdered text_le (v ∷ vs)
    → check_origin o (v ∷ vs) ≡ elem text_eq o (v ∷ vs)
unfolding check_origin
check_origin-elem o v vs h =
    found-elem text_eq text_le text_eq_iff text_le_refl text_le_antisym [] o (v ∷ vs) h

-- What the two lists let pass: all where both are empty, else what is accepted, and with a list of
-- rejections what is not rejected.
abbrev pub passes : Bytes → List Bytes → List Bytes → Bool
passes o [] [] = true
passes o (a ∷ xs) [] = elem text_eq o (a ∷ xs)
passes o xs (r ∷ rs) = elem text_eq o xs || not (elem text_eq o (r ∷ rs))

can_origin-passes :
    (o : Bytes) (xs rs : List Bytes)
    → IsOrdered text_le xs
    → IsOrdered text_le rs
    → can_origin o xs rs ≡ passes o xs rs
unfolding can_origin check_origin
can_origin-passes o [] [] ha hr = refl
can_origin-passes o [] (r ∷ rs) ha hr = ap not (check_origin-elem o r rs hr)
can_origin-passes o (a ∷ xs) [] ha hr = ground (arith, check_origin-elem o a xs ha)
can_origin-passes o (a ∷ xs) (r ∷ rs) ha hr =
    rw (check_origin-elem o a xs ha, check_origin-elem o r rs hr)

-- With both lists in ascending order and a type that is known, Can lets a packet pass exactly if its
-- origin of that type is in the first list, or there is a second list and the origin is not in it,
-- or both lists are empty.
pub can-passes :
    (channel_name : ℕ → Bytes) (c : Control) (p : HrPacket) (o : Bytes)
    → origin_of channel_name c.type_name p ≡ some o
    → IsOrdered text_le c.accepts
    → IsOrdered text_le c.rejects
    → can channel_name (some c) p ≡ passes o c.accepts c.rejects
unfolding can
can-passes channel_name c p o h ha hr = rw (h, can) (can_origin-passes o c.accepts c.rejects ha hr)
