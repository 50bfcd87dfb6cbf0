-- ===== src/Tools/Counts.antt =====
-- The counters of cmd/vmucat/vmucat.go, in its loop over the packets.
pub mod Totals
use hadock.Common.{
  ℕ, ◌+◌, Bool, true, false, not, ◌&&◌, ◌||◌, List, [], ◌∷◌, Bytes, length, ltb, u64, if◌then◌else◌,
}
use hadock.Common.Texts.{codes, text_eq}
use hadock.Notifier.Pool.{trim_nuls, is_vmu}
use hadock.Panda.{HrPacket, Kind, table, image, other, sdh_v1, sdh_v2, idh_v1, idh_v2}

-- type Coze struct
pub record Coze : Type 0 where
  pub count : ℕ
  pub size : ℕ

-- Counter.Sources, and the map of the counters by their UPI.
abbrev pub Sources : Type 0
Sources = List (Bytes × Coze)

abbrev pub Counters : Type 0
Counters = List (Bytes × Sources)

-- The variables of main.
pub record Summary : Type 0 where
  pub count : ℕ
  pub size : ℕ
  pub counters : Counters

unfoldable pub upi_of : Kind → Bytes
upi_of (table sdh_v1) = codes "-"
upi_of (table (sdh_v2 info)) = trim_nuls info
upi_of (image (idh_v1 info)) = trim_nuls info
upi_of (image (idh_v2 info)) = trim_nuls info
upi_of other = codes "-"

unfoldable pub count_source : Bytes → ℕ → Sources → Sources
count_source o n [] = (o, record { count = 1; size = u64 n }) ∷ []
count_source o n ((j, z) ∷ zs) =
    if text_eq j o
    then (j, record { count = u64 (z.count + 1); size = u64 (z.size + n) }) ∷ zs
    else (j, z) ∷ count_source o n zs

unfoldable pub count_packet : Bytes → Bytes → ℕ → Counters → Counters
unfolding count_source
count_packet u o n [] = (u, count_source o n []) ∷ []
count_packet u o n ((j, zs) ∷ cs) =
    if text_eq j u then (j, count_source o n zs) ∷ cs else (j, zs) ∷ count_packet u o n cs

-- Whether the loop counts a packet: a table or an image of the UPI that is asked for, if any.
unfoldable pub is_counted : Bytes → HrPacket → Bool
is_counted info p = is_vmu p.kind && not (ltb 0 (length info) && not (text_eq (upi_of p.kind) info))

-- One round of the loop.
unfoldable pub count_round : Bytes → Summary → HrPacket → Summary
count_round info s p =
    if is_counted info p
    then record {
      count = u64 (s.count + 1);
      size = u64 (s.size + length p.payload);
      counters = count_packet (upi_of p.kind) p.origin (length p.payload) s.counters;
    }
    else s

unfoldable pub count_all : Bytes → Summary → List HrPacket → Summary
count_all info s [] = s
count_all info s (p ∷ ps) = count_all info (count_round info s p) ps
