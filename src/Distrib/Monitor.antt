-- ===== src/Distrib/Monitor.antt =====
-- distrib/monitor.go: the last messages of each origin, mode and instance, in slots that are written in
-- turns. The goroutines of the readers and the one that cleans are a sequence of events.
-- A map is a function from its keys; times are nanoseconds since the zero time. The index of a reader
-- (an int) is not bounded here.
pub mod Recent
pub mod Refinement
pub mod Serving
use hadock.Common.{
  ℕ, zero, suc, ◌+◌, ◌-◌, ◌/◌, ◌%◌, Bool, true, false, not, ◌&&◌, Option, none, some, List, [], ◌∷◌,
  Bytes, ltb, ◌==◌, if◌then◌else◌, replicate, u32,
}
use hadock.Common.Signed.{int64_div}
use hadock.Common.Texts.{text_eq}
use hadock.Notifier.{Message}
use hadock.Notifier.Pool.{bool_eq}

-- type monkey struct
pub record Monkey : Type 0 where
  pub origin : Bytes
  pub realtime : Bool
  pub instance_id : ℕ

abbrev pub monkey_of : Message → Monkey
monkey_of g = record { origin = g.origin; realtime = g.realtime; instance_id = g.instance_id }

unfoldable pub monkey_eq : Monkey → Monkey → Bool
monkey_eq j k =
    text_eq j.origin k.origin && (bool_eq j.realtime k.realtime && j.instance_id == k.instance_id)

-- type message struct
pub record Numbered : Type 0 where
  pub uid : Bytes
  pub count : ℕ
  pub message : Message

-- type pool struct
pub record Slots : Type 0 where
  pub when : ℕ
  pub ms : List (Option Numbered)

-- The monitor, and the indices of its readers.
pub record Monitor : Type 0 where
  pub count : ℕ
  pub indices : ℕ → ℕ
  pub messages : Monkey → Option Slots

abbrev pub new_monitor : Monitor
new_monitor = record { count = 0; indices = λ r. 0; messages = λ k. none }

-- A reader has decoded a message at a time, and gives it a uid; the ticker of Clean fires.
pub data Event : Type 0 where
  decodes : ℕ → ℕ → Bytes → Message → Event
  ticks : ℕ → Event

abbrev pub set_at {ℓ} : {A : Type ℓ} → ℕ → A → List A → List A
set_at i a [] = []
set_at zero a (x ∷ xs) = a ∷ xs
set_at (suc i) a (x ∷ xs) = x ∷ set_at i a xs

-- w.when.IsZero() and the age behind it.
abbrev pub is_stale : ℕ → ℕ → Bool
is_stale t when = not (when == 0) && ltb 900000000000 (t - when)

unless_stale : ℕ → Option Slots → Option Slots
unless_stale t none = none
unless_stale t (some w) = if is_stale t w.when then none else some w

-- A round of Clean.
unfoldable pub clean : ℕ → Monitor → Monitor
unfolding unless_stale
clean t m = record m { messages = λ k. unless_stale t (m.messages k) }

-- `n` is the number of slots, `from_epoch` panda's GenerationTimeFromEpoch.
module _ (n : ℕ) (from_epoch : ℕ → ℕ) where
  abbrev pub adjusted : Message → Message
  adjusted g = record g { generated = int64_div (from_epoch g.generated) 1000 }

  slots_of : Option Slots → Slots
  slots_of none = record { when = 0; ms = replicate n none }
  slots_of (some w) = w

  write_slot : ℕ → ℕ → Numbered → Slots → Slots
  write_slot i now v w = record { when = now; ms = set_at (i % n) (some v) w.ms }

  -- A round of Monitor.
  unfoldable pub store_message : ℕ → ℕ → Bytes → Message → Monitor → Monitor
  unfolding slots_of write_slot
  store_message r now uid g m =
      let i = m.indices r in
      let v : Numbered = record { uid = uid; count = u32 (m.count + 1); message = adjusted g } in
      record {
        count = u32 (m.count + 1);
        indices = λ q. if q == r then i + 1 else m.indices q;
        messages = λ k.
            if monkey_eq k (monkey_of g)
            then some (write_slot i now v (slots_of (m.messages k)))
            else m.messages k;
      }

  unfoldable pub step : Monitor → Event → Monitor
  step m (decodes r now uid g) = store_message r now uid g m
  step m (ticks t) = clean t m

  unfoldable pub run : Monitor → List Event → Monitor
  run m [] = m
  run m (e ∷ es) = run (step m e) es
