-- ===== src/Listen/Order.antt =====
-- The order of the items that Convert sends.
use hadock.Common.{
  ◌&&◌, ◌||◌, ℕ, ◌+◌, ◌≤◌, ◌≡◌, refl, sym, subst, Bool, Option, none, some, List, [], ◌∷◌, ◌++◌,
  append_assoc, Bytes, length, length-append, Bool-cases, Option-cases, inl, inr, arith,
}
use hadock.Notifier.Pool.{Item}
use hadock.Panda.{HrPacket}
use hadock.Proto.{Packet}
use hadock.Listen.{
  Tally, Converter, Event, arrives, receives, ticks, resets, Reset, is_ready, reset_first,
  reset_next, item_of, item_of_kind, decoded_item, send_item, has_room, send, convert,
  convert_decoded, receive_from, log_tally, is_positive, step, run, new_converter,
}

-- xs is ys with some elements left out.
pub data Kept {A : Type 0} : List A → List A → Type 0 where
  nothing : Kept [] []
  keeps : {xs ys : List A} (a : A) → Kept xs ys → Kept (a ∷ xs) (a ∷ ys)
  drops : {xs ys : List A} (a : A) → Kept xs ys → Kept xs (a ∷ ys)

keeps_last :
    {A : Type 0} {xs ys : List A} (a : A) → Kept xs ys → Kept (xs ++ (a ∷ [])) (ys ++ (a ∷ []))
keeps_last a nothing = keeps a nothing
keeps_last a (keeps b k) = keeps b (keeps_last a k)
keeps_last a (drops b k) = drops b (keeps_last a k)

drops_last : {A : Type 0} {xs ys : List A} (a : A) → Kept xs ys → Kept xs (ys ++ (a ∷ []))
drops_last a nothing = drops a nothing
drops_last a (keeps b k) = keeps b (drops_last a k)
drops_last a (drops b k) = drops b (drops_last a k)

module _ (capacity : ℕ) (decode : ℕ → Bytes → Option HrPacket) where
  -- The items of the packets of some events, in their order.
  abbrev pub add_item : Option Item → List Item → List Item
  add_item none is = is
  add_item (some i) is = is ++ (i ∷ [])

  abbrev pub items_behind : List Item → List Event → List Item
  items_behind is [] = is
  items_behind is (arrives p waiting ∷ es) =
      items_behind (add_item (item_of capacity decode p) is) es
  items_behind is (receives ∷ es) = items_behind is es
  items_behind is (ticks ∷ es) = items_behind is es
  items_behind is (resets ∷ es) = items_behind is es

  -- What was received and what waits are some of the items so far, in their order, and no more wait
  -- than the channel and one receiver take.
  pub record IsOrdered (c : Converter) (is : List Item) : Type 0 where
    pub kept : Kept (c.received ++ c.queue) is
    pub bounded : length c.queue ≤ capacity + 1

  send-IsOrdered :
      (p : Packet) (waiting : Bool) (i : Item) (c : Converter) (is : List Item)
      → IsOrdered c is
      → IsOrdered (send capacity decode p waiting i c) (is ++ (i ∷ []))
  unfolding send has_room
  send-IsOrdered p waiting i c is h = elim (Bool-cases (has_room capacity decode waiting c.queue)) [
    | inl e ↦ rw e (record {
      kept =
          subst (λ xs. Kept xs (is ++ (i ∷ []))) (append_assoc c.received c.queue (i ∷ []))
            (keeps_last i h.kept);
      bounded = ground (arith, length-append c.queue (i ∷ []));
    })
    | inr e ↦ rw e (record { kept = drops_last i h.kept; bounded = h.bounded })
  ]

  -- Whatever the counters are, a packet of a type adds its item or nothing.
  send_item-IsOrdered :
      (p : Packet) (waiting : Bool) (o : Option Item) (c : Converter) (t : Tally) (is : List Item)
      → IsOrdered c is
      → IsOrdered (send_item capacity decode o p waiting (record c { tally = t })) (add_item o is)
  unfolding send_item
  send_item-IsOrdered p waiting none c t is h = record { kept = h.kept; bounded = h.bounded }
  send_item-IsOrdered p waiting (some i) c t is h =
      send-IsOrdered p waiting i (record c { tally = t }) is
        (record { kept = h.kept; bounded = h.bounded })

  convert-IsOrdered :
      (p : Packet) (waiting : Bool) (c : Converter) (is : List Item)
      → IsOrdered c is
      → IsOrdered (convert capacity decode p waiting c) (add_item (item_of capacity decode p) is)
  unfolding convert convert_decoded item_of
  convert-IsOrdered p waiting c is h = elim (Option-cases (decode p.version p.payload)) [
    | inl e ↦ rw (e, decoded_item, convert_decoded) (record { kept = h.kept; bounded = h.bounded })
    | inr (v, e) ↦
        rw (e, decoded_item, convert_decoded)
          (send_item-IsOrdered p waiting (item_of_kind v.kind p.instance_id v) c _ is h)
  ]

  receive-IsOrdered :
      (q : List Item) (c : Converter) (is : List Item)
      → c.queue ≡ q
      → IsOrdered c is
      → IsOrdered (receive_from q c) is
  unfolding receive_from
  receive-IsOrdered [] c is e h = h
  receive-IsOrdered (i ∷ q) c is e h =
      let k : Kept (c.received ++ (i ∷ q)) is = subst (λ q. Kept (c.received ++ q) is) e h.kept in
      let n : length (i ∷ q) ≤ capacity + 1 = subst (λ q. length q ≤ capacity + 1) e h.bounded in
      record {
        kept = subst (λ xs. Kept xs is) (sym (append_assoc c.received (i ∷ []) q)) k;
        bounded = omega arith;
      }

  log_tally-IsOrdered :
      (c : Converter) (is : List Item) → IsOrdered c is → IsOrdered (log_tally c) is
  unfolding log_tally
  log_tally-IsOrdered c is h =
      elim (Bool-cases (
        is_ready c.resets_left
        && (is_positive c.tally.total
            || is_positive c.tally.skipped
            || is_positive c.tally.errors))) [
              | inl e ↦ rw e (record { kept = h.kept; bounded = h.bounded })
              | inr e ↦ rw e h
            ]

  reset_first-IsOrdered :
      (rs : List Reset) (c : Converter) (is : List Item)
      → IsOrdered c is
      → IsOrdered (reset_first rs c) is
  unfolding reset_first
  reset_first-IsOrdered [] c is h = h
  reset_first-IsOrdered (r ∷ rs) c is h = record { kept = h.kept; bounded = h.bounded }

  run_from-IsOrdered :
      (c : Converter) (es : List Event) (is : List Item)
      → IsOrdered c is
      → IsOrdered (run capacity decode c es) (items_behind is es)
  unfolding run step reset_next
  run_from-IsOrdered c [] is h = h
  run_from-IsOrdered c (arrives p waiting ∷ es) is h =
      run_from-IsOrdered (convert capacity decode p waiting c) es
        (add_item (item_of capacity decode p) is) (convert-IsOrdered p waiting c is h)
  run_from-IsOrdered c (receives ∷ es) is h =
      run_from-IsOrdered (receive_from c.queue c) es is (receive-IsOrdered c.queue c is refl h)
  run_from-IsOrdered c (ticks ∷ es) is h =
      run_from-IsOrdered (log_tally c) es is (log_tally-IsOrdered c is h)
  run_from-IsOrdered c (resets ∷ es) is h =
      run_from-IsOrdered (reset_first c.resets_left c) es is
        (reset_first-IsOrdered c.resets_left c is h)

  -- Whatever the order of packets, receptions and ticks: the items that were received and those
  -- that wait are items of the packets that came in, in their order and none twice, and no more of
  -- them wait than the channel and one receiver take.
  pub run-IsOrdered :
      (es : List Event) → IsOrdered (run capacity decode new_converter es) (items_behind [] es)
  run-IsOrdered es =
      run_from-IsOrdered new_converter es [] (record { kept = nothing; bounded = omega arith })
