-- ===== src/Distrib/Monitor/Refinement.antt =====
-- What the monitor promises: a log for each group of messages, of which it shows the last of each slot.
use hadock.Common.{
  ℕ, zero, suc, ◌+◌, ◌%◌, ◌≤◌, ◌≡◌, refl, sym, subst, true, false, Option, none, some, List, [],
  ◌∷◌, Bytes, ◌==◌, if◌then◌else◌, replicate, u32, Bool-cases, inl, inr, arith,
}
use hadock.Notifier.{Message}
use hadock.Distrib.Monitor.{
  Monkey, monkey_of, monkey_eq, Numbered, Slots, Monitor, new_monitor, Event, decodes, ticks,
  set_at, is_stale, clean, adjusted, store_message, step, run, unless_stale, slots_of, write_slot,
}

-- A message in a log: the index at its reader, and its number among all messages.
pub record Entry : Type 0 where
  pub index : ℕ
  pub when : ℕ
  pub uid : Bytes
  pub number : ℕ
  pub message : Message

-- The latest entry comes first.
pub record Logs : Type 0 where
  pub total : ℕ
  pub read_by : ℕ → ℕ
  pub log : Monkey → List Entry

abbrev pub no_logs : Logs
no_logs = record { total = 0; read_by = λ r. 0; log = λ k. [] }

-- A log whose latest entry is stale is forgotten as a whole.
abbrev pub forget : ℕ → List Entry → List Entry
forget t [] = []
forget t (e ∷ es) = if is_stale t e.when then [] else e ∷ es

abbrev pub tabulate_from {ℓ} : {A : Type ℓ} → ℕ → ℕ → (ℕ → A) → List A
tabulate_from a zero f = []
tabulate_from a (suc n) f = f a ∷ tabulate_from (suc a) n f

tabulate_from-ext :
    {A : Type 0} (a n : ℕ) (f g : ℕ → A)
    → ((j : ℕ) → a ≤ j → f j ≡ g j)
    → tabulate_from a n f ≡ tabulate_from a n g
tabulate_from-ext a zero f g h = refl
tabulate_from-ext a (suc n) f g h =
    rw (h a (omega arith), tabulate_from-ext (suc a) n f g (λ j l. h j (omega arith))) refl

set_at-tabulate_from :
    {A : Type 0} (i a n : ℕ) (v : A) (f : ℕ → A)
    → set_at i v (tabulate_from a n f) ≡ tabulate_from a n (λ j. if j == a + i then v else f j)
set_at-tabulate_from i a zero v f = refl
set_at-tabulate_from zero a (suc n) v f =
    let e : (a == a + 0) ≡ true = ground arith in
    rw
      (
        e,
        tabulate_from-ext (suc a) n f (λ j. if j == a + 0 then v else f j)
            (λ j l. sym (if_other j l)),
      )
      refl
  where
    if_other : (j : ℕ) → suc a ≤ j → (if j == a + 0 then v else f j) ≡ f j
    if_other j l = let e : (j == a + 0) ≡ false = ground arith in rw e refl
set_at-tabulate_from (suc i) a (suc n) v f =
    let e : (a == a + suc i) ≡ false = ground arith in
    let k : suc a + i ≡ a + suc i = omega arith in
    rw (e, ← k, set_at-tabulate_from i (suc a) n v f) refl

set_at-tabulate :
    {A : Type 0} (i n : ℕ) (v : A) (f : ℕ → A)
    → set_at i v (tabulate_from 0 n f) ≡ tabulate_from 0 n (λ j. if j == i then v else f j)
set_at-tabulate i n v f =
    let e : 0 + i ≡ i = omega arith in
    subst
      (λ k. set_at i v (tabulate_from 0 n f) ≡ tabulate_from 0 n (λ j. if j == k then v else f j)) e
      (set_at-tabulate_from i 0 n v f)

replicate-tabulate_from :
    {A : Type 0} (a n : ℕ) (v : A) → replicate n v ≡ tabulate_from a n (λ j. v)
replicate-tabulate_from a zero v = refl
replicate-tabulate_from a (suc n) v = rw (replicate-tabulate_from (suc a) n v) refl

module _ (n : ℕ) (from_epoch : ℕ → ℕ) where
  abbrev pub log_event : Logs → Event → Logs
  log_event l (decodes r now uid g) = record {
    total = l.total + 1;
    read_by = λ q. if q == r then l.read_by r + 1 else l.read_by q;
    log = λ k.
        if monkey_eq k (monkey_of g)
        then record {
          index = l.read_by r;
          when = now;
          uid = uid;
          number = l.total + 1;
          message = adjusted n from_epoch g;
        }
          ∷ l.log k
        else l.log k;
  }
  log_event l (ticks t) = record l { log = λ k. forget t (l.log k) }

  abbrev pub log_events : Logs → List Event → Logs
  log_events l [] = l
  log_events l (e ∷ es) = log_events (log_event l e) es

  abbrev pub shown : Entry → Numbered
  shown e = record { uid = e.uid; count = u32 e.number; message = e.message }

  -- The latest entry of a slot.
  abbrev pub last_at : List Entry → ℕ → Option Numbered
  last_at [] j = none
  last_at (e ∷ es) j = if j == e.index % n then some (shown e) else last_at es j

  -- What the monitor shows of a log.
  abbrev pub view : List Entry → Option Slots
  view [] = none
  view (e ∷ es) = some (record { when = e.when; ms = tabulate_from 0 n (last_at (e ∷ es)) })

  -- A message that is written to its slot is the latest entry.
  write_slot-view :
      (e : Entry) (es : List Entry)
      → some (write_slot n from_epoch e.index e.when (shown e) (slots_of n from_epoch (view es)))
        ≡ view (e ∷ es)
  unfolding write_slot slots_of
  write_slot-view e [] =
      let v : Option Numbered = none in
      let start : replicate n v ≡ tabulate_from 0 n (last_at []) = replicate-tabulate_from 0 n v in
      rw (start, set_at-tabulate (e.index % n) n (some (shown e)) (last_at [])) refl
  write_slot-view e (d ∷ es) =
      rw (set_at-tabulate (e.index % n) n (some (shown e)) (last_at (d ∷ es))) refl

  -- The state of the monitor, by its logs.
  pub record Shows (m : Monitor) (l : Logs) : Type 0 where
    pub counts : m.count ≡ u32 l.total
    pub indexed : (r : ℕ) → m.indices r ≡ l.read_by r
    pub shows : (k : Monkey) → m.messages k ≡ view (l.log k)

  store_message-Shows :
      (r now : ℕ) (uid : Bytes) (g : Message) (m : Monitor) (l : Logs)
      → Shows m l
      → Shows (store_message n from_epoch r now uid g m) (log_event l (decodes r now uid g))
  unfolding store_message
  store_message-Shows r now uid g m l h = record {
    counts = let c = h.counts in omega arith;
    indexed = λ q. rw (h.indexed r, h.indexed q) refl;
    shows = λ k. stored k;
  }
    where
      e : Entry
      e = record {
        index = l.read_by r;
        when = now;
        uid = uid;
        number = l.total + 1;
        message = adjusted n from_epoch g;
      }

      counted : u32 (m.count + 1) ≡ u32 (l.total + 1)
      counted = let c = h.counts in omega arith

      stored :
          (k : Monkey)
          → (store_message n from_epoch r now uid g m).messages k
            ≡ view ((log_event l (decodes r now uid g)).log k)
      stored k = elim (Bool-cases (monkey_eq k (monkey_of g))) [
        | inl s ↦ rw (s, counted, h.indexed r, h.shows k) (write_slot-view e (l.log k))
        | inr s ↦ rw s (h.shows k)
      ]

  clean-Shows :
      (t : ℕ) (m : Monitor) (l : Logs) → Shows m l → Shows (clean t m) (log_event l (ticks t))
  unfolding clean unless_stale
  clean-Shows t m l h = record {
    counts = h.counts;
    indexed = h.indexed;
    shows = λ k. rw (h.shows k) (forgets (l.log k));
  }
    where
      forgets : (es : List Entry) → unless_stale t (view es) ≡ view (forget t es)
      forgets [] = refl
      forgets (e ∷ es) = elim (Bool-cases (is_stale t e.when)) [
        | inl s ↦ rw s refl
        | inr s ↦ rw s refl
      ]

  run_from-Shows :
      (es : List Event) (m : Monitor) (l : Logs)
      → Shows m l
      → Shows (run n from_epoch m es) (log_events l es)
  unfolding run step
  run_from-Shows [] m l h = h
  run_from-Shows (decodes r now uid g ∷ es) m l h =
      run_from-Shows es _ _ (store_message-Shows r now uid g m l h)
  run_from-Shows (ticks t ∷ es) m l h = run_from-Shows es _ _ (clean-Shows t m l h)

  -- The monitor implements its logs: over any sequence of messages and ticks it shows for each group the
  -- latest message of each slot among those of its log, numbered modulo 2 ^ 32, and nothing for a group
  -- whose log is empty or was forgotten.
  pub run-Shows :
      (es : List Event) → Shows (run n from_epoch new_monitor es) (log_events no_logs es)
  run-Shows es =
      run_from-Shows es new_monitor no_logs
        (record { counts = refl; indexed = λ r. refl; shows = λ k. refl })
