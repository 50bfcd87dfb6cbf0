-- ===== src/Tools.antt =====
-- The flags and filters that cmd/vmucat/vmucat.go and cmd/vmuzip/vmuzip.go share, and what each
-- lets pass. `vic1`, `vic2` and `lrsd` are the values of panda's channels.
pub mod Filters
pub mod Counts
pub mod Workers
use hadock.Common.{
  ℕ, zero, suc, ◌-◌, ◌+◌, Bool, true, false, not, ◌&&◌, ◌||◌, Option, none, some, List, [], ◌∷◌,
  ◌++◌, Bytes, length, ltb, leb, ◌==◌, if◌then◌else◌, map,
}
use hadock.Common.Search.{found}
use hadock.Common.Sort.{sort_by}
use hadock.Common.Texts.{codes, text_eq, text_le}
use hadock.Panda.{HrPacket}
use hadock.Storage.{lower}

-- strings.Split(vs, ","): the texts between the commas, one at least.
abbrev cons_byte : ℕ → List Bytes → List Bytes
cons_byte b [] = (b ∷ []) ∷ []
cons_byte b (w ∷ ws) = (b ∷ w) ∷ ws

unfoldable pub split_commas : Bytes → List Bytes
split_commas [] = [] ∷ []
split_commas (b ∷ bs) =
    let rest = split_commas bs in if b == 44 then [] ∷ rest else cons_byte b rest

module _ (vic1 vic2 lrsd : ℕ) where
  unfoldable pub channel_of : Bytes → Option ℕ
  channel_of n =
      if text_eq n (codes "vic1")
      then some vic1
      else if text_eq n (codes "vic2")
      then some vic2
      else if text_eq n (codes "lrsd")
      then some lrsd
      else none

  -- The loop of channels.Set: the channels behind those that were set, and whether all names are known.
  unfoldable pub add_channels : List ℕ → List Bytes → List ℕ × Bool
  add_channels cs [] = (cs, true)
  add_channels cs (n ∷ ns) = elim (channel_of n) [
    | some c ↦ add_channels (cs ++ (c ∷ [])) ns
    | none ↦ (cs, false)
  ]

  -- channels.Set: the channels in descending order, unless a name is unknown. A channel is a byte.
  unfoldable pub set_channels : List ℕ → Bytes → List ℕ × Bool
  set_channels cs vs =
      let (cs', known) = add_channels cs (split_commas vs) in
      (if known then sort_by (λ c. 255 - c) cs' else cs', known)

-- mode.Set and source.Set: whether the value is one of the four.
unfoldable pub is_mode : Bytes → Bool
is_mode v =
    text_eq v (codes "realtime")
    || text_eq v (codes "playback")
    || text_eq v []
    || text_eq v (codes "*")

-- sort.SliceStable by `<` on strings.
unfoldable pub insert_text : Bytes → List Bytes → List Bytes
insert_text x [] = x ∷ []
insert_text x (y ∷ ys) = let rest = insert_text x ys in if text_le x y then x ∷ y ∷ ys else y ∷ rest

unfoldable pub sort_texts : List Bytes → List Bytes
unfolding insert_text
sort_texts [] = []
sort_texts (x ∷ xs) = insert_text x (sort_texts xs)

-- formats.Set of vmuzip, which ends in ascending order.
unfoldable pub set_formats : List Bytes → Bytes → List Bytes
set_formats fs vs = sort_texts (fs ++ map lower (split_commas vs))

-- The filter on channels: sort.Search for cs[i] <= c.
unfoldable pub takes_channel : List ℕ → ℕ → Bool
takes_channel cs c = not (ltb 0 (length cs) && not (found ◌==◌ (λ a b. leb b a) 0 c cs))

-- The filter of vmuzip on formats: sort.Search for fs[i] <= f.
unfoldable pub takes_format : List Bytes → Bytes → Bool
takes_format fs f = not (ltb 0 (length fs) && not (found text_eq (λ a b. text_le b a) [] f fs))

unfoldable pub takes_mode : Bytes → Bool → Bool
takes_mode mode realtime =
    if text_eq mode (codes "realtime")
    then realtime
    else if text_eq mode (codes "playback")
    then not realtime
    else true

unfoldable pub takes_source : Bytes → Bytes → Bool
takes_source src origin = not (ltb 0 (length src) && not (text_eq origin src))

-- What the reader of panda returns: a packet, a packet that is no HRPacket, or an error other than
-- ErrDone. The end of the list is ErrDone.
pub data Read : Type 0 where
  hr : HrPacket → Read
  unknown : Read
  failed : Read

-- The loop of Packets over a filter: what it sends, and whether it comes to ErrDone (log.Fatalln
-- ends the program on another error).
unfoldable pub packets : (HrPacket → Bool) → List Read → List HrPacket × Bool
packets wanted [] = ([], true)
packets wanted (failed ∷ rs) = ([], false)
packets wanted (unknown ∷ rs) = packets wanted rs
packets wanted (hr p ∷ rs) =
    let rest = packets wanted rs in if wanted p then (p ∷ rest.0, rest.1) else rest

-- The filters in the order of Packets of vmucat, and of Packets of vmuzip, where `format_of` is
-- panda's Format().
unfoldable pub vmucat_takes : Bytes → Bytes → List ℕ → HrPacket → Bool
vmucat_takes mode src cs p =
    takes_source src p.origin && (takes_channel cs p.stream && takes_mode mode p.realtime)

unfoldable pub vmuzip_takes : (HrPacket → Bytes) → Bytes → List Bytes → List ℕ → HrPacket → Bool
vmuzip_takes format_of mode fs cs p =
    takes_format fs (format_of p) && (takes_channel cs p.stream && takes_mode mode p.realtime)
