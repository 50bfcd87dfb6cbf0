-- ===== src/Notifier/Pool/Conservation.antt =====
-- No packet that the pool takes in is lost or counted twice.
use hadock.Common.{
  ℕ, suc, ◌+◌, ◌≡◌, ◌<◌, refl, ap, ◌∙◌, Bool, false, not, ◌&&◌, Option, none, some, List, [], ◌∷◌,
  ◌++◌, arith, length, length-append, ltb, if◌then◌else◌, Bool-cases, inl, inr,
}
use hadock.Common.Sort.{sort_by, length-sort_by}
use hadock.Notifier.{Message}
use hadock.Notifier.Pool.{
  Item, Key, Cache, Pool, Event, key_eq, key_of, queue_size, is_vmu, is_old, enqueue, notify,
  append_to, receive_from, receive, message_of, first_message, summary, summaries, cons_some, tick,
  step, run, notified, received, ticked,
}
use hadock.Panda.{HrPacket}

-- The packets that wait in the cache, and in the queue.
abbrev pub cached : Cache → ℕ
cached [] = 0
cached ((k, ps) ∷ cache) = length ps + cached cache

abbrev pub queued : Option (List Item) → ℕ
queued none = 0
queued (some q) = length q

-- The packets that messages tell of.
abbrev pub counted : List Message → ℕ
counted [] = 0
counted (m ∷ ms) = m.count + counted ms

-- Whether an item gets into the queue.
abbrev has_room : Option (List Item) → Bool
has_room none = false
has_room (some q) = ltb (length q) queue_size

abbrev pub admits : ℕ → Pool → Item → Bool
admits now p i =
    is_vmu i.packet.kind
    && (not (ltb 0 p.limit && is_old now i.packet.vmu_timestamp p.limit) && has_room p.queue)

-- The items that a sequence of events puts into the queue.
admitted_by : Pool → Event → ℕ
admitted_by p (notified now i) = if admits now p i then 1 else 0
admitted_by p received = 0
admitted_by p ticked = 0

unfoldable pub admitted : Pool → List Event → ℕ
unfolding admitted_by
admitted p [] = 0
admitted p (e ∷ es) = admitted_by p e + admitted (step p e).0 es

cached-append_to :
    (k : Key) (p : HrPacket) (cache : Cache) → cached (append_to k p cache) ≡ suc (cached cache)
unfolding append_to
cached-append_to k p [] = refl
cached-append_to k p ((j, ps) ∷ cache) = elim (Bool-cases (key_eq j k)) [
  | inl e ↦ rw e (omega (arith, length-append ps (p ∷ [])))
  | inr e ↦ rw e (omega (arith, cached-append_to k p cache))
]

counted-cons_some :
    (k : Key) (n : ℕ) (ps : List HrPacket) (ms : List Message)
    → length ps ≡ n
    → n < 4294967296
    → counted (cons_some (message_of k n ps) ms) ≡ n + counted ms
unfolding message_of first_message
counted-cons_some k n [] ms e h = omega arith
counted-cons_some k n (p ∷ ps) ms e h = omega arith

counted-summaries :
    (cache : Cache) → cached cache < 4294967296 → counted (summaries cache) ≡ cached cache
unfolding summaries summary
counted-summaries [] h = refl
counted-summaries ((k, ps) ∷ cache) h =
    counted-cons_some k (length ps) (sort_by (λ (p : HrPacket). p.sequence) ps) (summaries cache)
      (length-sort_by (λ (p : HrPacket). p.sequence) ps) (omega arith)
    ∙ ap (λ n. length ps + n) (counted-summaries cache (omega arith))

abbrev held : Pool → ℕ
held p = cached p.cache + queued p.queue

queued-enqueue :
    (q : Option (List Item)) (i : Item)
    → queued (enqueue q i) ≡ queued q + (if has_room q then 1 else 0)
unfolding enqueue
queued-enqueue none i = refl
queued-enqueue (some q) i = ground (arith, length-append q (i ∷ []))

notify-held :
    (now : ℕ) (p : Pool) (i : Item)
    → held (notify now p i) ≡ held p + admitted_by p (notified now i)
unfolding notify admitted_by
notify-held now p i = ground (arith, queued-enqueue p.queue i)

receive_from-held :
    (q : Option (List Item)) (p : Pool) → p.queue ≡ q → held (receive_from q p) ≡ held p
unfolding receive_from
receive_from-held none p e = refl
receive_from-held (some []) p e = refl
receive_from-held (some (i ∷ q)) p e =
    omega (arith, cached-append_to (key_of i) i.packet p.cache, ap queued e)

-- One event: what goes out and what is held after it is what was held and what came in.
step-held :
    (p : Pool) (e : Event)
    → held p < 4294967296
    → counted (step p e).1 + held (step p e).0 ≡ held p + admitted_by p e
unfolding step admitted_by
step-held p (notified now i) h = unfold admitted_by in omega (arith, notify-held now p i)
step-held p received h = unfold receive in omega (arith, receive_from-held p.queue p refl)
step-held p ticked h = unfold tick in omega (arith, counted-summaries p.cache (omega arith))

counted-append : (ms ns : List Message) → counted (ms ++ ns) ≡ counted ms + counted ns
counted-append [] ns = omega arith
counted-append (m ∷ ms) ns = omega (arith, counted-append ms ns)

-- Over any sequence of events, the packets that the messages count, with those that are still
-- cached or queued, are those that were held and those that were let into the queue: none is lost,
-- none is counted twice. (Fewer than 2^32 packets, so that the counts do not wrap.)
pub run_conserves :
    (p : Pool) (es : List Event)
    → held p + admitted p es < 4294967296
    → counted (run p es).1 + held (run p es).0 ≡ held p + admitted p es
unfolding run admitted
run_conserves p [] h = omega arith
run_conserves p (e ∷ es) h =
    let one = step-held p e (omega arith) in
    omega (
      arith,
      one,
      counted-append (step p e).1 (run (step p e).0 es).1,
      run_conserves (step p e).0 es (omega arith),
    )
