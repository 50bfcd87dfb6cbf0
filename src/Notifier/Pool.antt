-- ===== src/Notifier/Pool.antt =====
-- The pool of notifier.go: packets are queued, grouped by key, and summed up at each tick in a
-- message for each group. The notifying goroutine is a function for each case of its `select`.
pub mod Conservation
pub mod Groups
use hadock.Common.{
  ℕ, zero, suc, ◌+◌, ◌-◌, ◌/◌, ◌%◌, ◌^◌, ◌≡◌, Bool, true, false, not, ◌&&◌, ◌||◌, Option, none,
  some, List, [], ◌∷◌, ◌++◌, arith, Bytes, length, ltb, leb, ◌==◌, if◌then◌else◌, u32,
}
use hadock.Common.Sort.{sort_by}
use hadock.Common.Texts.{codes, text_eq}
use hadock.Notifier.{Message}
use hadock.Panda.{HrPacket, Kind, Sdh, Idh, sdh_v1, sdh_v2, idh_v1, idh_v2, table, image, other}

-- type Item struct
pub record Item : Type 0 where
  pub instance_id : ℕ
  pub packet : HrPacket

-- type key struct
pub record Key : Type 0 where
  pub realtime : Bool
  pub origin : Bytes
  pub instance_id : ℕ

abbrev pub key_of : Item → Key
key_of i = record {
  realtime = i.packet.realtime;
  origin = i.packet.origin;
  instance_id = i.instance_id;
}

abbrev pub bool_eq : Bool → Bool → Bool
bool_eq true b = b
bool_eq false b = not b

unfoldable pub key_eq : Key → Key → Bool
key_eq j k =
    bool_eq j.realtime k.realtime && (text_eq j.origin k.origin && j.instance_id == k.instance_id)

-- The map from keys to packets.
abbrev pub Cache : Type 0
Cache = List (Key × List HrPacket)

-- The pool and the variable of its goroutine. `queue` is none where the pool has no ticker.
pub record Pool : Type 0 where
  pub limit : ℕ
  pub queue : Option (List Item)
  pub cache : Cache

abbrev pub queue_size : ℕ
queue_size = 1000

-- NewPool, with the interval and the age limit (int64 values that are not negative).
unfoldable pub new_pool : ℕ → ℕ → Pool
new_pool a e = record { limit = a; queue = if ltb 0 e then some [] else none; cache = [] }

abbrev pub is_vmu : Kind → Bool
is_vmu (table s) = true
is_vmu (image i) = true
is_vmu other = false

-- time.Since(t) > limit, at the time `now`.
abbrev pub is_old : ℕ → ℕ → ℕ → Bool
is_old now t limit = ltb (t + limit) now

enqueue : Option (List Item) → Item → Option (List Item)
enqueue none i = none
enqueue (some q) i = if ltb (length q) queue_size then some (q ++ (i ∷ [])) else some q

-- Notify at the time `now`: a full queue drops the item.
unfoldable pub notify : ℕ → Pool → Item → Pool
unfolding enqueue
notify now p i =
    if not (is_vmu i.packet.kind)
    then p
    else if ltb 0 p.limit && is_old now i.packet.vmu_timestamp p.limit
    then p
    else record p { queue = enqueue p.queue i }

-- cache[k] = append(cache[k], p)
unfoldable pub append_to : Key → HrPacket → Cache → Cache
append_to k p [] = (k, p ∷ []) ∷ []
append_to k p ((j, ps) ∷ cache) =
    if key_eq j k then (j, ps ++ (p ∷ [])) ∷ cache else (j, ps) ∷ append_to k p cache

receive_from : Option (List Item) → Pool → Pool
receive_from (some (i ∷ q)) p = record p {
  queue = some q;
  cache = append_to (key_of i) i.packet p.cache;
}
receive_from _ p = p

-- The case of the `select` that receives.
unfoldable pub receive : Pool → Pool
unfolding receive_from
receive p = receive_from p.queue p

-- bytes.Trim(bs, "\x00")
drop_nuls : Bytes → Bytes
drop_nuls [] = []
drop_nuls (b ∷ bs) = let rest = drop_nuls bs in if b == 0 then rest else b ∷ bs

cons_unless_nul : ℕ → Bytes → Bytes
cons_unless_nul b [] = if b == 0 then [] else b ∷ []
cons_unless_nul b (c ∷ cs) = b ∷ c ∷ cs

drop_last_nuls : Bytes → Bytes
unfolding cons_unless_nul
drop_last_nuls [] = []
drop_last_nuls (b ∷ bs) = cons_unless_nul b (drop_last_nuls bs)

unfoldable pub trim_nuls : Bytes → Bytes
unfolding drop_nuls drop_last_nuls
trim_nuls bs = drop_last_nuls (drop_nuls bs)

or_alt : Bytes → Bytes → Bytes
or_alt [] alt = alt
or_alt (b ∷ bs) alt = b ∷ bs

info_of : Kind → Bytes
info_of (table (sdh_v2 info)) = info
info_of (table sdh_v1) = []
info_of (image (idh_v1 info)) = info
info_of (image (idh_v2 info)) = info
info_of other = []

alt_of : Kind → Bytes
alt_of (table s) = codes "SCIENCE"
alt_of (image i) = codes "IMAGE"
alt_of other = []

-- extractUserInfo
unfoldable pub extract_user_info : HrPacket → Bytes
unfolding or_alt info_of alt_of trim_nuls
extract_user_info p =
    if is_vmu p.kind && p.realtime
    then alt_of p.kind
    else or_alt (trim_nuls (info_of p.kind)) (alt_of p.kind)

-- The last packet of a group, given the one before.
abbrev pub last_of : HrPacket → List HrPacket → HrPacket
last_of p [] = p
last_of p (q ∷ qs) = last_of q qs

abbrev pub generated_of : HrPacket → ℕ
generated_of p = elim p.generated [ some g ↦ g | none ↦ p.timestamp ]

abbrev pub seconds : ℕ → ℕ
seconds t = t / 1000000000

-- t.Sub(u) as a 64-bit pattern.
abbrev pub sub_time : ℕ → ℕ → ℕ
sub_time t u = (t + 2 ^ 64 - u) % 2 ^ 64

-- The message of a group of n packets, of which the first has the least sequence number.
unfoldable pub first_message : Key → ℕ → HrPacket → List HrPacket → Message
first_message k n first rest = record {
  origin = k.origin;
  instance_id = k.instance_id;
  realtime = k.realtime;
  count = u32 n;
  sequence = first.sequence;
  channel = first.stream;
  elapsed = sub_time (last_of first rest).timestamp first.timestamp;
  generated = seconds (generated_of first);
  acquired = seconds first.timestamp;
  reference = first.filename;
  upi = extract_user_info first;
}

-- The same for a group that is sorted; none for an empty one.
unfoldable pub message_of : Key → ℕ → List HrPacket → Option Message
message_of k n [] = none
message_of k n (first ∷ rest) = some (first_message k n first rest)

unfoldable pub summary : Key × List HrPacket → Option Message
summary (k, ps) = message_of k (length ps) (sort_by (λ (p : HrPacket). p.sequence) ps)

abbrev pub cons_some : Option Message → List Message → List Message
cons_some none ms = ms
cons_some (some m) ms = m ∷ ms

-- The messages of a tick, one for each group that is not empty. (Go leaves their order open.)
unfoldable pub summaries : Cache → List Message
summaries [] = []
summaries (g ∷ cache) = cons_some (summary g) (summaries cache)

-- The case of the `select` on the ticker: the messages go out, and the cache is emptied.
unfoldable pub tick : Pool → Pool × List Message
tick p = (record p { cache = [] }, summaries p.cache)

-- What the program does with the pool, and the clock with its goroutine.
pub data Event : Type 0 where
  notified : ℕ → Item → Event
  received : Event
  ticked : Event

unfoldable pub step : Pool → Event → Pool × List Message
step p (notified now i) = (notify now p i, [])
step p received = (receive p, [])
step p ticked = tick p

-- The messages of a sequence of events, and the pool behind them.
unfoldable pub run : Pool → List Event → Pool × List Message
run p [] = (p, [])
run p (e ∷ es) = let (p', sent) = step p e in let (p'', later) = run p' es in (p'', sent ++ later)
