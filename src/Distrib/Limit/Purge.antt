-- ===== src/Distrib/Limit/Purge.antt =====
-- What the clients of the limiter see of its purge: nothing.
use hadock.Common.{
  ℕ, ◌+◌, ◌≤◌, ◌≡◌, refl, ap, sym, subst, ◌∙◌, Bool, Option, none, some, List, [], ◌∷◌, Bytes, leb,
  leb→le, if◌then◌else◌, Bool-cases, inl, inr, arith,
}
use hadock.Common.Texts.{text_eq}
use hadock.Distrib.Limit.{
  Visitor, Limiter, Event, requests, ticks, idle_time, new_limiter, visitor_of, allow_visitor,
  allow, is_idle, purge, run,
}

-- No event is before the one in front of it.
abbrev pub IsTimed : ℕ → List Event → Type 0
IsTimed t [] = Unit
IsTimed t (requests a now ∷ es) = (t ≤ now) × IsTimed now es
IsTimed t (ticks u ∷ es) = (t ≤ u) × IsTimed u es

-- The requests alone.
abbrev pub requests_of : List Event → List Event
requests_of [] = []
requests_of (requests a now ∷ es) = requests a now ∷ requests_of es
requests_of (ticks t ∷ es) = requests_of es

module _ {B : Type 0} (new_rate : B) (allow_at : ℕ → B → Bool × B) where
  -- A rate limiter that was asked is full again 120 seconds later: it answers as a new one from then on.
  abbrev pub Refills : Type 0
  Refills =
      (s t : ℕ) (b : B) → s + idle_time ≤ t → allow_at t (allow_at s b).1 ≡ allow_at t new_rate

  -- What the limiter with purge and the one without know of an address.
  data Agrees (t : ℕ) : Option (Visitor B) → Option (Visitor B) → Type 0 where
    absent : Agrees t none none
    present : (v : Visitor B) (b : B) → v.rate ≡ (allow_at v.when b).1 → Agrees t (some v) (some v)
    purged :
        (v : Visitor B) (b : B)
        → v.rate ≡ (allow_at v.when b).1
        → v.when + idle_time ≤ t
        → Agrees t none (some v)

  Agrees-later : (t u : ℕ) (x y : Option (Visitor B)) → t ≤ u → Agrees t x y → Agrees u x y
  Agrees-later t u none none l absent = absent
  Agrees-later t u (some _) (some _) l (present v b e) = present v b e
  Agrees-later t u (some _) none l h = elim h [ ]
  Agrees-later t u none (some _) l (purged v b e i) = purged v b e (omega arith)

  Agrees-answer :
      (t now : ℕ) (x y : Option (Visitor B))
      → Refills
      → t ≤ now
      → Agrees t x y
      → allow_visitor new_rate allow_at now (visitor_of new_rate allow_at now x)
        ≡ allow_visitor new_rate allow_at now (visitor_of new_rate allow_at now y)
  Agrees-answer t now none none r l absent = refl
  Agrees-answer t now (some _) (some _) r l (present v b e) = refl
  Agrees-answer t now (some _) none r l h = elim h [ ]
  Agrees-answer t now none (some _) r l (purged v b e i) =
      let s : allow_at now v.rate ≡ allow_at now new_rate =
        ap (allow_at now) e ∙ r v.when now b (omega arith) in
      sym (ap (λ p. (p.0, record { when = now; rate = p.1 })) s)

  abbrev AllAgree : ℕ → Limiter B → Limiter B → Type 0
  AllAgree t l m = (a : Bytes) → Agrees t (l.visitors a) (m.visitors a)

  allow-AllAgree :
      (t now : ℕ) (a : Bytes) (l m : Limiter B)
      → Refills
      → t ≤ now
      → AllAgree t l m
      → ((allow new_rate allow_at a now l).0 ≡ (allow new_rate allow_at a now m).0)
        × AllAgree now (allow new_rate allow_at a now l).1 (allow new_rate allow_at a now m).1
  unfolding allow
  allow-AllAgree t now a l m r le h =
      let y : Visitor B = visitor_of new_rate allow_at now (m.visitors a) in
      let e = Agrees-answer t now (l.visitors a) (m.visitors a) r le (h a) in
      (
        ap (λ p. p.0) e,
        λ c. elim (Bool-cases (text_eq c a)) [
          | inl s ↦ rw s (
              subst (λ w. Agrees now (some w) (some (allow_visitor new_rate allow_at now y).1))
                (sym (ap (λ p. p.1) e))
                (present (allow_visitor new_rate allow_at now y).1 y.rate refl))
          | inr s ↦ rw s (Agrees-later t now (l.visitors c) (m.visitors c) le (h c))
        ],
      )

  drop-Agrees :
      (t u : ℕ) (x y : Option (Visitor B))
      → t ≤ u
      → Agrees t x y
      → Agrees u (if is_idle new_rate allow_at u x then none else x) y
  drop-Agrees t u none none l absent = absent
  drop-Agrees t u (some _) none l h = elim h [ ]
  drop-Agrees t u none (some _) l (purged v b e i) = purged v b e (omega arith)
  drop-Agrees t u (some _) (some _) l (present v b e) =
      elim (Bool-cases (leb (v.when + idle_time) u)) [
        | inl s ↦ rw s (purged v b e (leb→le _ _ s))
        | inr s ↦ rw s (present v b e)
      ]

  run-AllAgree :
      (es : List Event) (t : ℕ) (l m : Limiter B)
      → Refills
      → IsTimed t es
      → AllAgree t l m
      → run new_rate allow_at l es ≡ run new_rate allow_at m (requests_of es)
  unfolding run purge
  run-AllAgree [] t l m r i h = refl
  run-AllAgree (requests a now ∷ es) t l m r i h =
      let s = allow-AllAgree t now a l m r i.0 h in
      rw
        (
          s.0,
          run-AllAgree es now (allow new_rate allow_at a now l).1
              (allow new_rate allow_at a now m).1 r i.1 s.1,
        )
        refl
  run-AllAgree (ticks u ∷ es) t l m r i h =
      run-AllAgree es u (purge new_rate allow_at u l) m r i.1
        (λ a. drop-Agrees t u (l.visitors a) (m.visitors a) i.0 (h a))

  -- Whatever requests and ticks come, in the order of their times: all requests get the answers that
  -- they would get from a limiter that never forgets a visitor, if the rate limiter of a visitor is
  -- full again after 120 seconds.
  pub run-requests_of :
      (es : List Event)
      → Refills
      → IsTimed 0 es
      → run new_rate allow_at (new_limiter new_rate allow_at) es
        ≡ run new_rate allow_at (new_limiter new_rate allow_at) (requests_of es)
  run-requests_of es r i = run-AllAgree es 0 _ _ r i (λ a. absent)
