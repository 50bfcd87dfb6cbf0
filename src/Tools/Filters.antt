-- ===== src/Tools/Filters.antt =====
-- What the flags of vmucat and vmuzip choose.
use hadock.Common.{
  ℕ, ◌-◌, ◌<◌, ◌≤◌, ◌≡◌, true, false, ◌&&◌, ◌||◌, some, List, [], ◌∷◌, ◌++◌, Bytes, length, leb,
  ◌==◌, ==_iff, elem, All, arith, Option-cases, All-append, le→leb, subst, inl, inr,
}
use hadock.Common.Ascending.{found-ascending}
use hadock.Common.Search.{found-elem, IsOrdered}
use hadock.Common.Sort.{
  sort_by, sort_by-IsSortedBy, elem-sort_by, length-sort_by, IsSortedBy, All-sort_by,
}
use hadock.Common.Texts.{text_eq, text_le, text_lt, text_lt-le, text_lt-ne}
use hadock.Panda.{HrPacket}
use hadock.Tools.{
  split_commas, channel_of, add_channels, set_channels, takes_channel, takes_format, takes_mode,
  takes_source, vmucat_takes, vmuzip_takes,
}

-- Sorted by 255 - c, bytes descend.
descending_from :
    (c : ℕ) (cs : List ℕ)
    → c < 256
    → All (λ c. c < 256) cs
    → All (λ y. 255 - c ≤ 255 - y) cs
    → All (λ y. leb y c ≡ true) cs
descending_from c [] l b h = tt
descending_from c (y ∷ cs) l b h =
    (le→leb y c (omega (arith, b.0, h.0)), descending_from c cs l b.1 h.1)

descending :
    (cs : List ℕ)
    → All (λ c. c < 256) cs
    → IsSortedBy (λ c. 255 - c) cs
    → IsOrdered (λ a b. leb b a) cs
descending [] b h = tt
descending (c ∷ cs) b h = (descending_from c cs b.0 b.1 h.0, descending cs b.1 h.1)

-- Sorting and the search take the channels of the list, in whatever order it is.
takes_channel-sort_by :
    (cs : List ℕ) (c : ℕ)
    → All (λ c. c < 256) cs
    → takes_channel (sort_by (λ c. 255 - c) cs) c ≡ (length cs == 0 || elem ◌==◌ c cs)
unfolding takes_channel
takes_channel-sort_by cs c b =
    let sorted =
      descending (sort_by (λ c. 255 - c) cs) (All-sort_by (λ c. 255 - c) (λ c. c < 256) cs b)
        (sort_by-IsSortedBy (λ c. 255 - c) cs) in
    ground (
      arith,
      found-elem ◌==◌ (λ a b. leb b a) ==_iff (λ a. ground arith) (λ a b p q. ground arith) 0 c
          (sort_by (λ c. 255 - c) cs) sorted,
      elem-sort_by (λ c. 255 - c) ◌==◌ c cs,
      length-sort_by (λ c. 255 - c) cs,
    )

module _ (vic1 vic2 lrsd : ℕ) (bytes : (vic1 < 256) × (vic2 < 256) × (lrsd < 256)) where
  channel_of-byte : (n : Bytes) (c : ℕ) → channel_of vic1 vic2 lrsd n ≡ some c → c < 256
  unfolding channel_of
  channel_of-byte n c e = let (a, b, d) = bytes in ground arith

  add_channels-bytes :
      (cs : List ℕ) (ns : List Bytes)
      → All (λ c. c < 256) cs
      → All (λ c. c < 256) (add_channels vic1 vic2 lrsd cs ns).0
  unfolding add_channels
  add_channels-bytes cs [] h = h
  add_channels-bytes cs (n ∷ ns) h = elim (Option-cases (channel_of vic1 vic2 lrsd n)) [
    | inl e ↦ rw (e, add_channels) h
    | inr (c, e) ↦
        rw (e, add_channels)
          (add_channels-bytes (cs ++ (c ∷ [])) ns
            (All-append (λ c. c < 256) cs (c ∷ []) h (channel_of-byte n c e, tt)))
  ]

  -- With channels set by a list of known names, vmucat takes a packet exactly if its origin is the
  -- one asked for, or none is, its channel is that of one of the names, and its mode is as asked for.
  vmucat_takes-chosen :
      (mode src vs : Bytes) (named : List ℕ) (p : HrPacket)
      → add_channels vic1 vic2 lrsd [] (split_commas vs) ≡ (named, true)
      → vmucat_takes mode src (set_channels vic1 vic2 lrsd [] vs).0 p ≡ (
          (length src == 0 || text_eq p.origin src)
          && ((length named == 0 || elem ◌==◌ p.stream named) && takes_mode mode p.realtime))
  unfolding vmucat_takes set_channels takes_source
  vmucat_takes-chosen mode src vs named p e =
      let b : All (λ c. c < 256) named =
        subst (λ r. All (λ c. c < 256) r.0) e (add_channels-bytes [] (split_commas vs) tt) in
      rw (e, takes_channel-sort_by named p.stream b) (ground arith)

-- Two formats or more in ascending order: no packet is taken, whatever its format.
vmuzip_takes-ascending :
    (format_of : HrPacket → Bytes) (mode : Bytes) (fs : List Bytes) (cs : List ℕ) (p : HrPacket)
    → IsOrdered text_lt fs
    → 1 < length fs
    → vmuzip_takes format_of mode fs cs p ≡ false
unfolding vmuzip_takes takes_format
vmuzip_takes-ascending format_of mode fs cs p h n =
    ground
      (arith, found-ascending text_eq text_le text_lt text_lt-le text_lt-ne fs [] (format_of p) h n)
