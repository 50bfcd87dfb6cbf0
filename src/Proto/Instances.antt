-- ===== src/Proto/Instances.antt =====
-- The filter on instances of DecodeBinaryPackets: sorting and binary search decide membership.
use hadock.Common.{◌∙◌, ℕ, ◌≡◌, List, ◌||◌, arith, length, elem, leb, ◌==◌, ==_iff}
use hadock.Common.Search.{found, found-elem}
use hadock.Common.Sort.{
  sort_by, sort_by-IsSortedBy, elem-sort_by, length-sort_by, IsSortedBy-IsOrdered,
}
use hadock.Proto.{accepts_instance}

-- The binary search over the sorted list finds what a scan of the given list finds.
found-sort_by : (is : List ℕ) (x : ℕ) → found ◌==◌ leb 0 x (sort_by (λ i. i) is) ≡ elem ◌==◌ x is
found-sort_by is x =
    found-elem ◌==◌ leb ==_iff (λ a. ground arith) (λ a b p q. ground arith) 0 x _
      (IsSortedBy-IsOrdered (λ i. i) (sort_by (λ i. i) is) (sort_by-IsSortedBy (λ i. i) is))
    ∙ elem-sort_by (λ i. i) ◌==◌ x is

-- A packet passes exactly when no instances are given, or its instance is one of them, in whatever
-- order they are given.
pub accepts_instance-elem :
    (is : List ℕ) (x : ℕ) → accepts_instance is x ≡ (length is == 0 || elem ◌==◌ x is)
unfolding accepts_instance
accepts_instance-elem is x = ground (arith, found-sort_by is x, length-sort_by (λ i. i) is)
