-- ===== src/Notifier/Accept.antt =====
-- Which messages Options.Accept lets pass.
use hadock.Common.{
  ℕ, ◌<◌, ◌≡◌, Bool, true, false, ◌&&◌, ◌||◌, some, List, arith, length, elem, leb, ltb, ltb→lt,
  get_or, ◌-◌, ◌/◌, ◌==◌, ==_iff,
}
use hadock.Common.Search.{
  found, found-elem, found→elem, search, search_lem, search_zero, IsOrdered, IsOrdered-get_or,
}
use native.Mathlib.Decide.{dec_lt}
use hadock.Notifier.{Message, Options, accepts_source, is_negative, accept}

-- The list of channels descends.
abbrev pub IsDescending : List ℕ → Type 0
IsDescending cs = IsOrdered (λ a b. leb b a) cs

found-descending :
    (cs : List ℕ) (c : ℕ) → IsDescending cs → found ◌==◌ (λ a b. leb b a) 0 c cs ≡ elem ◌==◌ c cs
found-descending cs c h =
    found-elem ◌==◌ (λ a b. leb b a) ==_iff (λ a. ground arith) (λ a b p q. ground arith) 0 c cs h

-- With channels in descending order Accept is the conjunction of its three filters: the instance is
-- the one asked for, unless that is negative; the channel is one of the list, unless that is empty;
-- the source is as asked for.
pub accept-descending :
    (o : Options) (m : Message)
    → IsDescending o.channels
    → accept (some o) m ≡ (
        (is_negative o.instance_id || o.instance_id == m.instance_id)
        && ((length o.channels == 0 || elem ◌==◌ m.channel o.channels)
            && accepts_source o.source m))
unfolding accept
accept-descending o m h = ground (arith, found-descending o.channels m.channel h)

-- In whatever order the channels are given, a message that passes meets the three filters: the search
-- finds nothing that is not there.
accept_sound :
    (o : Options) (m : Message)
    → accept (some o) m ≡ true
    → ((is_negative o.instance_id || o.instance_id == m.instance_id)
        && ((length o.channels == 0 || elem ◌==◌ m.channel o.channels)
            && accepts_source o.source m))
      ≡ true
unfolding accept
accept_sound o m h = ground (
  arith,
  found→elem ◌==◌ (λ a b. leb b a) ==_iff (λ a. ground arith) (λ a b p q. ground arith) 0 m.channel
      o.channels,
)

-- Each channel is below those behind it.
abbrev pub IsAscending : List ℕ → Type 0
IsAscending cs = IsOrdered ltb cs

ascending-get_or :
    (cs : List ℕ) (i j : ℕ) → IsAscending cs → i < j → j < length cs → get_or cs i 0 < get_or cs j 0
ascending-get_or cs i j h p q = ltb→lt _ _ (IsOrdered-get_or ltb cs i j 0 h p q)

-- The search over an ascending list ends at one of its ends, and finds nothing there.
found-ascending :
    (cs : List ℕ) (c : ℕ)
    → IsAscending cs
    → 1 < length cs
    → found ◌==◌ (λ x y. leb y x) 0 c cs ≡ false
unfolding found
found-ascending cs c h n =
    let f : ℕ → Bool = λ i. leb (get_or cs i 0) c in
    let ix = search (length cs) f in
    let (le, at, before) = search_lem (length cs) f in
    elim (dec_lt ix (length cs)) [
      | no p ↦ ground arith
      | yes p ↦ elim (dec_lt 0 ix) [
        | yes q ↦
            absurd
              (ground (arith, at p, before q, ascending-get_or cs (ix - 1) ix h (omega arith) p))
        | no q ↦ ground (
          arith,
          search_zero (length cs) f (omega arith) (omega arith),
          ascending-get_or cs 0 (length cs / 2) h (omega arith) (omega arith),
        )
      ]
    ]

-- Two channels or more in ascending order: no message passes, not even on one of them.
accept-ascending :
    (o : Options) (m : Message)
    → IsAscending o.channels
    → 1 < length o.channels
    → accept (some o) m ≡ false
unfolding accept
accept-ascending o m h n = ground (arith, found-ascending o.channels m.channel h n)
