-- ===== src/Distrib/Limit.antt =====
-- distrib/limit.go: the rate limiter in front of a handler, and the goroutine that forgets idle visitors.
-- The map of visitors is a function from addresses; times are nanoseconds.
pub mod Purge
use hadock.Common.{
  ℕ, ◌+◌, ◌-◌, Bool, true, false, not, ◌&&◌, Option, none, some, List, [], ◌∷◌, Bytes, ltb, leb,
  if◌then◌else◌,
}
use hadock.Common.Texts.{text_eq}

-- type visitor struct
pub record Visitor (B : Type 0) : Type 0 where
  pub when : ℕ
  pub rate : B

-- type limiter struct, with the addresses that a round of purge has collected.
pub record Limiter (B : Type 0) : Type 0 where
  pub visitors : Bytes → Option (Visitor B)
  pub collected : Bytes → Bool

-- A request of an address at a time; the ticker of purge fires at a time.
pub data Event : Type 0 where
  requests : Bytes → ℕ → Event
  ticks : ℕ → Event

-- 120 seconds.
abbrev pub idle_time : ℕ
idle_time = 120000000000

-- The limiter of golang.org/x/time/rate: `new_rate` is NewLimiter(l.limit, 10), `allow_at` is its Allow
-- at a time.
module _ {B : Type 0} (new_rate : B) (allow_at : ℕ → B → Bool × B) where
  abbrev pub new_limiter : Limiter B
  new_limiter = record { visitors = λ a. none; collected = λ a. false }

  -- The visitor that Allow finds or makes.
  abbrev pub visitor_of : ℕ → Option (Visitor B) → Visitor B
  visitor_of now none = record { when = now; rate = new_rate }
  visitor_of now (some v) = v

  -- Allow of a visitor.
  abbrev pub allow_visitor : ℕ → Visitor B → Bool × Visitor B
  allow_visitor now v =
      ((allow_at now v.rate).0, record { when = now; rate = (allow_at now v.rate).1 })

  -- Allow of the limiter.
  unfoldable pub allow : Bytes → ℕ → Limiter B → Bool × Limiter B
  allow a now l =
      let r = allow_visitor now (visitor_of now (l.visitors a)) in
      (r.0, record l { visitors = λ b. if text_eq b a then some r.1 else l.visitors b })

  abbrev pub is_idle : ℕ → Option (Visitor B) → Bool
  is_idle t none = false
  is_idle t (some v) = leb (v.when + idle_time) t

  -- The first part of a round of purge.
  abbrev pub collect : ℕ → Limiter B → Limiter B
  collect t l = record l { collected = λ a. is_idle t (l.visitors a) }

  -- Its second part.
  abbrev pub delete_collected : Limiter B → Limiter B
  delete_collected l = record {
    visitors = λ a. if l.collected a then none else l.visitors a;
    collected = λ a. false;
  }

  -- A round of purge, without requests between its two parts.
  unfoldable pub purge : ℕ → Limiter B → Limiter B
  purge t l = delete_collected (collect t l)

  -- The statuses of the requests: `true` is that of the handler, `false` is 429.
  unfoldable pub run : Limiter B → List Event → List Bool
  run l [] = []
  run l (requests a now ∷ es) = (allow a now l).0 ∷ run (allow a now l).1 es
  run l (ticks t ∷ es) = run (purge t l) es
