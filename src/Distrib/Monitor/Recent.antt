-- ===== src/Distrib/Monitor/Recent.antt =====
-- The last messages of a reader.
use hadock.Common.{
  ℕ, zero, suc, ◌+◌, ◌%◌, ◌<◌, ◌≤◌, ◌≡◌, refl, ap, subst, ◌∙◌, false, none, some, List, [], ◌∷◌,
  ◌++◌, All, get_or, ◌==◌, ==_refl, Bool-cases, inl, inr, arith,
}
use native.Mathlib.Nat.{mod-lt}
use hadock.Common.Division.{mod-apart}
use hadock.Distrib.Monitor.{
  Monkey, monkey_of, monkey_eq, Slots, new_monitor, Event, decodes, ticks, run, is_stale,
}
use hadock.Distrib.Monitor.Refinement.{
  Entry, Logs, no_logs, forget, tabulate_from, log_event, log_events, shown, last_at, view,
  run-Shows,
}

-- An event of one reader, or a tick.
abbrev pub IsOf : ℕ → Event → Type 0
IsOf r (decodes q now uid g) = q ≡ r
IsOf r (ticks t) = Unit

-- The indices go down from below a bound.
abbrev pub IsBelow : ℕ → List Entry → Type 0
IsBelow b [] = Unit
IsBelow b (e ∷ es) = (e.index < b) × IsBelow e.index es

IsBelow-weaken : (b c : ℕ) (es : List Entry) → b ≤ c → IsBelow b es → IsBelow c es
IsBelow-weaken b c [] l h = tt
IsBelow-weaken b c (e ∷ es) l h = (omega (arith, h.0), h.1)

forget-IsBelow : (t b : ℕ) (es : List Entry) → IsBelow b es → IsBelow b (forget t es)
forget-IsBelow t b [] h = tt
forget-IsBelow t b (e ∷ es) h = elim (Bool-cases (is_stale t e.when)) [
  | inl s ↦ rw s tt
  | inr s ↦ rw s h
]

get_or-tabulate_from :
    {A : Type 0} (a n i : ℕ) (f : ℕ → A) (d : A)
    → i < n
    → get_or (tabulate_from a n f) i d ≡ f (a + i)
get_or-tabulate_from a zero i f d l = absurd (omega arith)
get_or-tabulate_from a (suc n) zero f d l = ap f (omega arith)
get_or-tabulate_from a (suc n) (suc i) f d l =
    let e : suc a + i ≡ a + suc i = omega arith in
    get_or-tabulate_from (suc a) n i f d (omega arith) ∙ ap f e

module _ (n : ℕ) (from_epoch : ℕ → ℕ) where
  log_event-IsBelow :
      (r : ℕ) (l : Logs) (e : Event)
      → IsOf r e
      → ((k : Monkey) → IsBelow (l.read_by r) (l.log k))
      → (k : Monkey)
      → IsBelow ((log_event n from_epoch l e).read_by r) ((log_event n from_epoch l e).log k)
  log_event-IsBelow r l (ticks t) o h k = forget-IsBelow t (l.read_by r) (l.log k) (h k)
  log_event-IsBelow r l (decodes q now uid g) o h k =
      elim (Bool-cases (monkey_eq k (monkey_of g))) [
        | inl s ↦ rw (s, o, ==_refl r) (omega arith, h k)
        | inr s ↦
            rw (s, o, ==_refl r) (IsBelow-weaken (l.read_by r) _ (l.log k) (omega arith) (h k))
      ]

  log_events-IsBelow :
      (r : ℕ) (es : List Event) (l : Logs)
      → All (IsOf r) es
      → ((k : Monkey) → IsBelow (l.read_by r) (l.log k))
      → (k : Monkey)
      → IsBelow ((log_events n from_epoch l es).read_by r) ((log_events n from_epoch l es).log k)
  log_events-IsBelow r [] l o h = h
  log_events-IsBelow r (e ∷ es) l o h =
      log_events-IsBelow r es (log_event n from_epoch l e) o.1 (log_event-IsBelow r l e o.0 h)

  -- What lies behind in a log is below its head.
  behind-IsBelow :
      (b : ℕ) (newer older : List Entry) (e : Entry)
      → IsBelow b (newer ++ (e ∷ older))
      → e.index < b
  behind-IsBelow b [] older e h = h.0
  behind-IsBelow b (d ∷ newer) older e h =
      omega (arith, h.0, behind-IsBelow d.index newer older e h.1)

  last_at-recent :
      (b : ℕ) (newer older : List Entry) (e : Entry)
      → IsBelow b (newer ++ (e ∷ older))
      → b ≤ e.index + n
      → last_at n from_epoch (newer ++ (e ∷ older)) (e.index % n) ≡ some (shown n from_epoch e)
  last_at-recent b [] older e h l = rw (==_refl (e.index % n)) refl
  last_at-recent b (d ∷ newer) older e h l =
      let i = behind-IsBelow d.index newer older e h.1 in
      let a = mod-apart e.index d.index n i (omega (arith, h.0)) in
      let s : (e.index % n == d.index % n) ≡ false = ground (arith, a) in
      rw s (last_at-recent d.index newer older e h.1 (omega (arith, h.0)))

  slot-recent :
      (b : ℕ) (newer older : List Entry) (e : Entry)
      → IsBelow b (newer ++ (e ∷ older))
      → b ≤ e.index + n
      → get_or (tabulate_from 0 n (last_at n from_epoch (newer ++ (e ∷ older)))) (e.index % n) none
        ≡ some (shown n from_epoch e)
  slot-recent b newer older e h l =
      let i = behind-IsBelow b newer older e h in
      let m : e.index % n < n = mod-lt e.index (omega arith) in
      let z : 0 + e.index % n ≡ e.index % n = omega arith in
      get_or-tabulate_from 0 n (e.index % n) (last_at n from_epoch (newer ++ (e ∷ older))) none m
      ∙ ap (last_at n from_epoch (newer ++ (e ∷ older))) z
      ∙ last_at-recent b newer older e h l

  -- What a log shows of an entry, where that is the last of its slot.
  view-shows :
      (b : ℕ) (newer older : List Entry) (e : Entry)
      → IsBelow b (newer ++ (e ∷ older))
      → b ≤ e.index + n
      → (w : Slots) × (view n from_epoch (newer ++ (e ∷ older)) ≡ some w)
        × (get_or w.ms (e.index % n) none ≡ some (shown n from_epoch e))
  view-shows b [] older e h l = (_, refl, slot-recent b [] older e h l)
  view-shows b (d ∷ newer) older e h l = (_, refl, slot-recent b (d ∷ newer) older e h l)

  -- With one reader, each of the last n messages of this reader, over all groups, is in its slot of
  -- the monitor, if the log of its group was not forgotten since.
  pub run-recent :
      (r : ℕ) (es : List Event) (k : Monkey) (newer older : List Entry) (e : Entry)
      → All (IsOf r) es
      → (log_events n from_epoch no_logs es).log k ≡ newer ++ (e ∷ older)
      → (log_events n from_epoch no_logs es).read_by r ≤ e.index + n
      → (w : Slots) × ((run n from_epoch new_monitor es).messages k ≡ some w)
        × (get_or w.ms (e.index % n) none ≡ some (shown n from_epoch e))
  run-recent r es k newer older e o h l =
      let b =
        subst (λ xs. IsBelow ((log_events n from_epoch no_logs es).read_by r) xs) h
          (log_events-IsBelow r es no_logs o (λ j. tt) k) in
      let v = view-shows _ newer older e b l in
      (v.0, (run-Shows n from_epoch es).shows k ∙ ap (λ xs. view n from_epoch xs) h ∙ v.1, v.2)
