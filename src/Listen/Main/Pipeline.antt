-- ===== src/Listen/Main/Pipeline.antt =====
-- From the queue of replay to the archives of listen.
use hadock.Common.{
  ℕ, ◌+◌, ◌/◌, ◌%◌, ◌<◌, ◌≡◌, refl, ap, sym, ◌∙◌, true, ◌||◌, Option, none, some, List, [], ◌∷◌,
  ◌++◌, append-nil, append_assoc, map, Bytes, length, elem, ◌==◌, ltb, lt→ltb, u8, u16, u64, All,
  Option-cases, inl, inr, arith,
}
use hadock.Listen.{
  Converter, Event, arrives, receives, new_converter, item_of, item_of_kind, decoded_item,
  count_kind, send_item, has_room, send, convert, convert_decoded, receive_from, step, run,
}
use hadock.Listen.Main.{
  Listener, Step, handles, processes, handle, process_from, take_step, take_steps,
}
use hadock.Listen.Order.{add_item, items_behind}
use hadock.Listen.Setup.{Handler}
use hadock.Notifier.Pool.{Item}
use hadock.Panda.{HrPacket, Kind, table, image, other}
use hadock.Proto.{Packet, decode_binary_packets}
use hadock.Replay.{Replay, Run, run_replay}
use hadock.Replay.Whole.{sent_packet, sent_packets, IsSendable, decode_binary_packets-run_replay}
use hadock.Storage.Archive.{Caches, ArchiveError, Tarstore, store, store_all}
use hadock.Storage.Archive.Archives.{
  Appends, entries, entries_for, no_caches, store_all-entries_for,
}
use hadock.Storage.Files.{World}
use mathlib.Core.List.{map-append}
use mathlib.Core.Option

-- Each packet is received before the next one comes.
abbrev pub keeping_up : List Packet → List Event
keeping_up [] = []
keeping_up (p ∷ ps) = arrives p true ∷ receives ∷ keeping_up ps

module _ (capacity : ℕ) (decode : ℕ → Bytes → Option HrPacket) where
  -- An item that is sent to an empty channel is received.
  send_item-received :
      (o : Option Item) (p : Packet) (c : Converter)
      → c.queue ≡ []
      → let d = send_item capacity decode o p true c in
        ((receive_from d.queue d).queue ≡ [])
        × ((receive_from d.queue d).received ≡ add_item capacity decode o c.received)
  unfolding send_item send has_room receive_from
  send_item-received none p c e = rw e (refl, refl)
  send_item-received (some i) p c e =
      let room : ltb 0 (capacity + 1) ≡ true = lt→ltb 0 (capacity + 1) (omega arith) in
      rw (e, room) (refl, refl)

  convert-received :
      (p : Packet) (c : Converter)
      → c.queue ≡ []
      → let d = convert capacity decode p true c in
        ((receive_from d.queue d).queue ≡ [])
        × ((receive_from d.queue d).received
            ≡ add_item capacity decode (item_of capacity decode p) c.received)
  unfolding convert convert_decoded item_of
  convert-received p c e = elim (Option-cases (decode p.version p.payload)) [
    | inl f ↦
        rw (f, decoded_item, convert_decoded)
          (send_item-received none p
            (record c { tally = record c.tally { errors = u64 (c.tally.errors + 1) } }) e)
    | inr (v, f) ↦
        rw (f, decoded_item, convert_decoded)
          (send_item-received (item_of_kind v.kind p.instance_id v) p
            (record c { tally = count_kind v.kind c.tally }) e)
  ]

  run-keeping_up :
      (ps : List Packet) (c : Converter)
      → c.queue ≡ []
      → (run capacity decode c (keeping_up ps)).received
        ≡ items_behind capacity decode c.received (keeping_up ps)
  unfolding run step
  run-keeping_up [] c e = refl
  run-keeping_up (p ∷ ps) c e =
      let d = convert capacity decode p true c in
      let (eq, er) = convert-received p c e in
      run-keeping_up ps (receive_from d.queue d) eq
      ∙ ap (λ is. items_behind capacity decode is (keeping_up ps)) er

-- The items of some packets, behind one another.
abbrev item_list : Option Item → List Item
item_list none = []
item_list (some i) = i ∷ []

-- What an item is to a storage.
abbrev pub stored_item : Item → ℕ × HrPacket
stored_item i = (u8 i.instance_id, i.packet)

-- The items that some steps bring in.
abbrev pub handled : List Step → List Item
handled [] = []
handled (handles now waiting i ∷ ss) = i ∷ handled ss
handled (processes ∷ ss) = handled ss

-- What was decoded, for the instance that sent it: a table or an image, and nothing of another type.
abbrev pub kept_of_kind : Kind → ℕ → HrPacket → List (ℕ × HrPacket)
kept_of_kind (table h) i v = (i, v) ∷ []
kept_of_kind (image h) i v = (i, v) ∷ []
kept_of_kind other i v = []

abbrev pub kept_of : ℕ → Option HrPacket → List (ℕ × HrPacket)
kept_of i none = []
kept_of i (some v) = kept_of_kind v.kind i v

-- The payloads of a queue that are tables and images, of an instance.
abbrev pub decodable : (ℕ → Bytes → Option HrPacket) → ℕ → ℕ → List Bytes → List (ℕ × HrPacket)
decodable decode version i [] = []
decodable decode version i (bs ∷ queue) =
    kept_of i (decode version bs) ++ decodable decode version i queue

-- The packets that were delivered.
abbrev pub delivered : Option (List Packet) → List Packet
delivered none = []
delivered (some ps) = ps

-- A storage of archives as the loop takes it, with a number for each error.
abbrev pub archive_handler : World → Tarstore → (ArchiveError → ℕ) → Handler Caches
archive_handler w t number i p c = let r = store w t i p c in (Option.map number r.0, r.1)

kept_of_kind_lem :
    (k : Kind) (i : ℕ) (v : HrPacket)
    → i < 256
    → map stored_item (item_list (item_of_kind k i v)) ≡ kept_of_kind k i v
unfolding item_of_kind
kept_of_kind_lem (table h) i v hi = let e : u8 i ≡ i = omega arith in rw e refl
kept_of_kind_lem (image h) i v hi = let e : u8 i ≡ i = omega arith in rw e refl
kept_of_kind_lem other i v hi = refl

module _ (capacity : ℕ) (decode : ℕ → Bytes → Option HrPacket) where
  add_item-item_list :
      (o : Option Item) (is : List Item) → add_item capacity decode o is ≡ is ++ item_list o
  add_item-item_list none is = sym (append-nil is)
  add_item-item_list (some i) is = refl

  stored_item-item_of :
      (p : Packet)
      → p.instance_id < 256
      → map stored_item (item_list (item_of capacity decode p))
        ≡ kept_of p.instance_id (decode p.version p.payload)
  unfolding item_of
  stored_item-item_of p h = elim (Option-cases (decode p.version p.payload)) [
    | inl e ↦ rw (e, decoded_item) refl
    | inr (v, e) ↦ rw (e, decoded_item) (kept_of_kind_lem v.kind p.instance_id v h)
  ]

  -- The items behind the packets of a queue are those that it has tables and images for.
  items_behind-sent_packets :
      (sum1071_bis : Bytes → ℕ) (r : Replay) (queue : List Bytes) (is : List Item)
      → map stored_item
          (items_behind capacity decode is (keeping_up (sent_packets sum1071_bis r queue)))
        ≡ map stored_item is ++ decodable decode (r.version / 256) (r.version % 256) queue
  unfolding sent_packets
  items_behind-sent_packets sum1071_bis r [] is = sym (append-nil (map stored_item is))
  items_behind-sent_packets sum1071_bis r (bs ∷ queue) is =
      let p = sent_packet sum1071_bis r bs in
      let o = item_of capacity decode p in
      let h : r.version % 256 < 256 = omega arith in
      items_behind-sent_packets sum1071_bis (record r { counter = u16 (r.counter + 1) }) queue
        (add_item capacity decode o is)
      ∙ ap (λ xs. xs ++ decodable decode (r.version / 256) (r.version % 256) queue)
          (rw (add_item-item_list o is) (
            map-append stored_item is (item_list o)
            ∙ ap (λ xs. map stored_item is ++ xs) (stored_item-item_of p h)))
      ∙ append_assoc (map stored_item is) _ _

stored-process_from :
    {S M : Type 0} (capacity : ℕ) (store : Handler S) (process : Handler M)
    → (q : Option (List Item)) (l : Listener S M)
    → (process_from capacity store process q l).stored ≡ l.stored
unfolding process_from
stored-process_from capacity store process none l = refl
stored-process_from capacity store process (some []) l = refl
stored-process_from capacity store process (some (i ∷ q)) l = refl

-- What the loop does to the storage is what the storage does with the items, one behind the other.
stored-take_steps :
    {M : Type 0} (w : World) (t : Tarstore) (number : ArchiveError → ℕ) (capacity : ℕ)
    → (process : Handler M) (l : Listener Caches M) (ss : List Step)
    → (take_steps capacity (archive_handler w t number) process l ss).stored
      ≡ store_all w t (map stored_item (handled ss)) l.stored
unfolding take_steps take_step handle store_all
stored-take_steps w t number capacity process l [] = refl
stored-take_steps w t number capacity process l (handles now waiting i ∷ ss) =
    stored-take_steps w t number capacity process
      (handle capacity (archive_handler w t number) process now waiting i l) ss
stored-take_steps w t number capacity process l (processes ∷ ss) =
    let h = archive_handler w t number in
    stored-take_steps w t number capacity process (process_from capacity h process l.queue l) ss
    ∙ ap (store_all w t (map stored_item (handled ss)))
        (stored-process_from capacity h process l.queue l)

-- From replay, where it sends without fragments (a size of 0, a version below 4096 and a counter
-- below 65536), to the archives of listen, over a connection that takes all that is sent and a
-- channel that is received from before the next packet comes: whatever the modules do in between and
-- whatever errors there are, the archive of each key holds the entries of the payloads of the queue
-- that decode as tables and images, in their order, for the instance that replay was given (that
-- instance passes, payloads are neither empty nor 2^32 bytes long, the archives are empty at first,
-- and the rollers can be made and append what they are given).
pub run_replay-take_steps :
    {M : Type 0} (w : World) (t : Tarstore) (number : ArchiveError → ℕ) (sum1071_bis : Bytes → ℕ)
    → (decode : ℕ → Bytes → Option HrPacket) (capacity : ℕ) (process : Handler M)
    → (l : Listener Caches M) (is : List ℕ) (s : Run) (queue : List Bytes) (ss : List Step)
    → (k : Bytes) → Appends w t
    → s.replay.size ≡ 0
    → s.replay.version < 4096
    → s.replay.counter < 65536
    → s.conn ≡ record { received = []; outcomes = [] }
    → (length is == 0 || elem ◌==◌ (s.replay.version % 256) is) ≡ true
    → All IsSendable queue
    → handled ss
      ≡ (run capacity decode new_converter (
          keeping_up (
            delivered (
              decode_binary_packets is
                (run_replay sum1071_bis none s queue).conn.received)))).received
    → l.stored ≡ no_caches
    → entries ((take_steps capacity (archive_handler w t number) process l ss).stored k)
      ≡ entries_for w t k (decodable decode (s.replay.version / 256) (s.replay.version % 256) queue)
run_replay-take_steps w t number sum1071_bis decode capacity process l is s queue ss k a hs hv hc ho
      hi hq hss hl =
    let ps = sent_packets sum1071_bis s.replay queue in
    let d = decode_binary_packets-run_replay sum1071_bis is s queue hs hv hc ho hi hq in
    let items : handled ss ≡ items_behind capacity decode [] (keeping_up ps) =
      hss
      ∙ ap (λ o. (run capacity decode new_converter (keeping_up (delivered o))).received) d
      ∙ run-keeping_up capacity decode ps new_converter refl in
    let kept =
      ap (map stored_item) items
      ∙ items_behind-sent_packets capacity decode sum1071_bis s.replay queue [] in
    rw (stored-take_steps w t number capacity process l ss, hl, kept)
      (store_all-entries_for w t _ k a)
