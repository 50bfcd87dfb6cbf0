-- ===== src/Listen.antt =====
-- Convert of cmd/hadock/listen.go: the packets of the protocol become items, over a channel that drops
-- what it has no room for. Its two goroutines and its reader are a sequence of events.
pub mod Main
pub mod Order
pub mod Packets
pub mod Setup
use hadock.Common.{
  ℕ, ◌+◌, ◌/◌, Bool, true, false, not, ◌&&◌, ◌||◌, Option, none, some, List, [], ◌∷◌, ◌++◌, Bytes,
  length, ltb, ◌==◌, u64, if◌then◌else◌,
}
use hadock.Common.Texts.{codes, text_eq}
use hadock.Notifier.Pool.{Item}
use hadock.Panda.{HrPacket, Kind, table, image, other}
use hadock.Proto.{Packet}

-- The functions that Decode chooses from.
pub data Decoding : Type 0 where
  compressed binary : Decoding

-- Decode: `none` is an error.
unfoldable pub decoding_of : Bytes → Option Decoding
decoding_of mode =
    if text_eq mode (codes "rfc1952") || text_eq mode (codes "gzip")
    then some compressed
    else if text_eq mode (codes "binary") || text_eq mode []
    then some binary
    else none

-- The counters of Convert, by the bit patterns of their int64.
pub record Tally : Type 0 where
  pub total : ℕ
  pub images : ℕ
  pub sciences : ℕ
  pub skipped : ℕ
  pub errors : ℕ
  pub size : ℕ

abbrev pub no_tally : Tally
no_tally = record { total = 0; images = 0; sciences = 0; skipped = 0; errors = 0; size = 0 }

-- The assignments of the goroutine that logs, in their order.
pub data Reset : Type 0 where
  reset_size reset_images reset_sciences reset_skipped reset_errors reset_total : Reset

abbrev pub all_resets : List Reset
all_resets =
    reset_size ∷ reset_images ∷ reset_sciences ∷ reset_skipped ∷ reset_errors ∷ reset_total ∷ []

abbrev pub is_ready : List Reset → Bool
is_ready [] = true
is_ready (r ∷ rs) = false

-- The counters, the channel q with what was received from it, and what the ticker logged, with the
-- assignments that its goroutine has still to make behind the last line.
pub record Converter : Type 0 where
  pub tally : Tally
  pub resets_left : List Reset
  pub queue : List Item
  pub received : List Item
  pub logged : List Tally

abbrev pub new_converter : Converter
new_converter = record {
  tally = no_tally;
  resets_left = [];
  queue = [];
  received = [];
  logged = [];
}

-- A packet comes in, with the news whether a receiver waits; an item is received; the ticker fires,
-- or its goroutine makes the next assignment behind a line that it has logged.
pub data Event : Type 0 where
  arrives : Packet → Bool → Event
  receives : Event
  ticks : Event
  resets : Event

-- The counter of the type of a packet.
unfoldable pub count_kind : Kind → Tally → Tally
count_kind (table h) t = record t { sciences = u64 (t.sciences + 1) }
count_kind (image h) t = record t { images = u64 (t.images + 1) }
count_kind other t = record t { errors = u64 (t.errors + 1) }

-- What a packet becomes: an item, if it is a table or an image.
unfoldable pub item_of_kind : Kind → ℕ → HrPacket → Option Item
item_of_kind (table h) i v = some (record { instance_id = i; packet = v })
item_of_kind (image h) i v = some (record { instance_id = i; packet = v })
item_of_kind other i v = none

receive_from : List Item → Converter → Converter
receive_from [] c = c
receive_from (i ∷ q) c = record c { queue = q; received = c.received ++ (i ∷ []) }

-- n > 0, for the bit pattern n of an int64.
abbrev pub is_positive : ℕ → Bool
is_positive n = ltb 0 n && ltb n 9223372036854775808

-- The test and the line of the goroutine that logs, once it is behind its assignments.
unfoldable pub log_tally : Converter → Converter
log_tally c =
    if is_ready c.resets_left
      && (is_positive c.tally.total || is_positive c.tally.skipped || is_positive c.tally.errors)
    then record c { logged = c.logged ++ (c.tally ∷ []); resets_left = all_resets }
    else c

abbrev pub reset_counter : Reset → Tally → Tally
reset_counter reset_size t = record t { size = 0 }
reset_counter reset_images t = record t { images = 0 }
reset_counter reset_sciences t = record t { sciences = 0 }
reset_counter reset_skipped t = record t { skipped = 0 }
reset_counter reset_errors t = record t { errors = 0 }
reset_counter reset_total t = record t { total = 0 }

reset_first : List Reset → Converter → Converter
reset_first [] c = c
reset_first (r ∷ rs) c = record c { tally = reset_counter r c.tally; resets_left = rs }

-- The next assignment. Packets may come between two of them, and are not counted then.
unfoldable pub reset_next : Converter → Converter
unfolding reset_first
reset_next c = reset_first c.resets_left c

abbrev decoded_item : Option HrPacket → ℕ → Option Item
decoded_item none i = none
decoded_item (some v) i = item_of_kind v.kind i v

-- `capacity` is that of the channel. `decode` is panda's decoder for a version: none where there is no
-- decoder, or where it fails.
module _ (capacity : ℕ) (decode : ℕ → Bytes → Option HrPacket) where
  -- The `select` that sends. A receiver that waits takes the item out of turn.
  unfoldable pub has_room : Bool → List Item → Bool
  has_room waiting q = ltb (length q) (capacity + (if waiting then 1 else 0))

  unfoldable pub send : Packet → Bool → Item → Converter → Converter
  send p waiting i c =
      if has_room waiting c.queue
      then record c {
        queue = c.queue ++ (i ∷ []);
        tally = record c.tally {
          total = u64 (c.tally.total + 1);
          size = u64 (c.tally.size + length p.payload);
        };
      }
      else record c { tally = record c.tally { skipped = u64 (c.tally.skipped + 1) } }

  send_item : Option Item → Packet → Bool → Converter → Converter
  send_item none p waiting c = c
  send_item (some i) p waiting c = send p waiting i c

  -- A decoded packet, by its type.
  unfoldable pub convert_decoded : Option HrPacket → Packet → Bool → Converter → Converter
  unfolding send_item
  convert_decoded none p waiting c = record c {
    tally = record c.tally { errors = u64 (c.tally.errors + 1) };
  }
  convert_decoded (some v) p waiting c =
      send_item (item_of_kind v.kind p.instance_id v) p waiting
        (record c { tally = count_kind v.kind c.tally })

  -- One round of the goroutine that converts.
  unfoldable pub convert : Packet → Bool → Converter → Converter
  convert p waiting c = convert_decoded (decode p.version p.payload) p waiting c

  unfoldable pub step : Converter → Event → Converter
  unfolding receive_from
  step c (arrives p waiting) = convert p waiting c
  step c receives = receive_from c.queue c
  step c ticks = log_tally c
  step c resets = reset_next c

  unfoldable pub run : Converter → List Event → Converter
  run c [] = c
  run c (e ∷ es) = run (step c e) es

  -- The item of a packet.
  unfoldable pub item_of : Packet → Option Item
  item_of p = decoded_item (decode p.version p.payload) p.instance_id
