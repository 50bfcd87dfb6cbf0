-- ===== src/Notifier/Pool/Groups.antt =====
-- The groups of the cache, and what a message says of its group.
use hadock.Common.{
  ℕ, ◌≡◌, ◌≤◌, refl, sym, true, false, List, [], ◌∷◌, Option, none, some, arith, length, u32,
  Bool-cases, inl, inr, All, ◌≢◌, ◌⊎◌, All-append, length-append, subst, ◌↔◌,
}
use hadock.Common.Sort.{
  sort_by, IsSortedBy, sort_by-IsSortedBy, length-sort_by, All-sort_by, All-sort_by_inv,
}
use hadock.Common.Texts.{text_eq_iff}
use hadock.Notifier.{Message}
use hadock.Notifier.Pool.{
  Item, Key, Cache, Pool, Event, key_eq, key_of, notify, append_to, receive_from, receive,
  message_of, first_message, summary, tick, step, run, notified, received, ticked,
}
use hadock.Panda.{HrPacket}

-- A packet goes under a key that shows its mode and origin.
abbrev pub IsUnder : Key → HrPacket → Type 0
IsUnder k p = (p.realtime ≡ k.realtime) × (p.origin ≡ k.origin)

-- The keys of the cache differ, groups are not empty, and packets are under their keys.
abbrev pub IsGrouped : Cache → Type 0
IsGrouped [] = Unit {0}
IsGrouped ((k, ps) ∷ cache) =
    (1 ≤ length ps)
    × All (IsUnder k) ps
    × All (λ (g : Key × List HrPacket). key_eq k g.0 ≡ false) cache
    × IsGrouped cache

pub key_eq_iff : (j k : Key) → (key_eq j k ≡ true) ↔ (j ≡ k)
unfolding key_eq
key_eq_iff j k = (
  λ h. ground (arith, (text_eq_iff j.origin k.origin).0),
  λ h. ground (arith, (text_eq_iff j.origin k.origin).1),
)

append_to-apart :
    (j k : Key) (p : HrPacket) (cache : Cache)
    → key_eq j k ≡ false
    → All (λ (g : Key × List HrPacket). key_eq j g.0 ≡ false) cache
    → All (λ (g : Key × List HrPacket). key_eq j g.0 ≡ false) (append_to k p cache)
unfolding append_to
append_to-apart j k p [] e h = (e, tt)
append_to-apart j k p ((i, ps) ∷ cache) e h = elim (Bool-cases (key_eq i k)) [
  | inl same ↦ rw same h
  | inr apart ↦ rw apart (h.0, append_to-apart j k p cache e h.1)
]

append_to-IsGrouped :
    (k : Key) (p : HrPacket) (cache : Cache)
    → IsUnder k p
    → IsGrouped cache
    → IsGrouped (append_to k p cache)
unfolding append_to
append_to-IsGrouped k p [] u h = (omega arith, (u, tt), tt, tt)
append_to-IsGrouped k p ((j, ps) ∷ cache) u h = elim (Bool-cases (key_eq j k)) [
  | inl same ↦
      let e : k ≡ j = sym ((key_eq_iff j k).0 same) in
      rw same (
        omega (arith, length-append ps (p ∷ [])),
        All-append (IsUnder j) ps (p ∷ []) h.1 (subst (λ (i : Key). IsUnder i p) e u, tt),
        h.2,
        h.3,
      )
  | inr apart ↦
      rw apart
        (h.0, h.1, append_to-apart j k p cache apart h.2, append_to-IsGrouped k p cache u h.3)
]

receive_from-IsGrouped :
    (q : Option (List Item)) (p : Pool) → IsGrouped p.cache → IsGrouped (receive_from q p).cache
unfolding receive_from
receive_from-IsGrouped none p h = h
receive_from-IsGrouped (some []) p h = h
receive_from-IsGrouped (some (i ∷ q)) p h =
    append_to-IsGrouped (key_of i) i.packet p.cache
      ((λ _. i.packet.realtime), (λ _. i.packet.origin)) h

notify-cache : (now : ℕ) (p : Pool) (i : Item) → (notify now p i).cache ≡ p.cache
unfolding notify
notify-cache now p i = ground arith

step-IsGrouped : (p : Pool) (e : Event) → IsGrouped p.cache → IsGrouped (step p e).0.cache
unfolding step receive tick
step-IsGrouped p (notified now i) h = rw (notify-cache now p i) h
step-IsGrouped p received h = receive_from-IsGrouped p.queue p h
step-IsGrouped p ticked h = tt

-- Through every sequence of events the cache stays well formed: one group for a key, none of them
-- empty, and each packet in the group of its mode and origin.
pub run-IsGrouped : (p : Pool) (es : List Event) → IsGrouped p.cache → IsGrouped (run p es).0.cache
unfolding run
run-IsGrouped p [] h = h
run-IsGrouped p (e ∷ es) h = run-IsGrouped (step p e).0 es (step-IsGrouped p e h)

-- What a message says of the packets that it stands for.
pub record IsSummary (k : Key) (ps : List HrPacket) (m : Message) : Type 0 where
  pub counts : m.count ≡ u32 (length ps)
  pub names : (m.origin ≡ k.origin) × (m.instance_id ≡ k.instance_id) × (m.realtime ≡ k.realtime)
  pub is_first : All (λ (p : HrPacket). m.sequence ≤ p.sequence) ps
  pub is_of_group :
      ¬ All (λ (p : HrPacket). (m.sequence ≢ p.sequence) ⊎ (m.reference ≢ p.filename)) ps

message_of-IsSummary :
    (k : Key) (ps qs : List HrPacket)
    → ((P : HrPacket → Type 0) → All P qs → All P ps)
    → ((P : HrPacket → Type 0) → All P ps → All P qs)
    → IsSortedBy (λ (p : HrPacket). p.sequence) qs
    → 1 ≤ length qs
    → (m : Message) × (message_of k (length ps) qs ≡ some m) × IsSummary k ps m
unfolding message_of first_message
message_of-IsSummary k ps [] inv to h n = absurd (omega arith)
message_of-IsSummary k ps (p ∷ qs) inv to h n = (
  first_message k (length ps) p qs,
  refl,
  record {
    counts = refl;
    names = (refl, refl, refl);
    is_first = inv (λ (q : HrPacket). p.sequence ≤ q.sequence) (omega arith, h.0);
    is_of_group = λ all.
        elim (to (λ (q : HrPacket). (p.sequence ≢ q.sequence) ⊎ (p.filename ≢ q.filename)) all).0 [
          | inl ne ↦ ne refl
          | inr ne ↦ ne refl
        ];
  },
)

-- The message of a group that is not empty exists; it counts the group's packets (mod 2^32), names
-- its key, and gives the least sequence number of the group, with the file name of a packet of the
-- group that has this number.
pub summary-IsSummary :
    (k : Key) (ps : List HrPacket)
    → 1 ≤ length ps
    → (m : Message) × (summary (k, ps) ≡ some m) × IsSummary k ps m
unfolding summary
summary-IsSummary k ps h =
    let by : HrPacket → ℕ = λ p. p.sequence in
    message_of-IsSummary k ps (sort_by by ps) (λ P. All-sort_by_inv by P ps)
      (λ P. All-sort_by by P ps) (sort_by-IsSortedBy by ps) (omega (arith, length-sort_by by ps))
