-- ===== src/Tests/MonitorRuns.antt =====
-- distrib/monitor.go with its datagrams and its answers, at concrete inputs.
use mathlib.Core.List.{Perm}
use hadock.Common.{
  ℕ, ◌-◌, ◌≡◌, refl, Bool, true, false, none, some, List, [], ◌∷◌, Bytes, length, All, ◌≤◌, arith,
}
use hadock.Common.Decimal.{dec, padded}
use hadock.Common.Sort.{sort_by, sort_by-perm}
use hadock.Common.Texts.{codes, text_eq}
use hadock.Distrib.Datagrams.{rounds}
use hadock.Distrib.Datagrams.Messages.{sent, told, rounds-sent}
use hadock.Distrib.Monitor.{Monkey, monkey_of, Monitor, Numbered, Slots, new_monitor, run}
use hadock.Distrib.Monitor.Refinement.{Shows, log_events, no_logs}
use hadock.Distrib.Monitor.Serving.{
  Data, json_data, AllDiffer, monkey_string, shown_slots, serve, serve-shown_slots,
}
use hadock.Hdk2udp.Relay.Delivery.{accepted}
use hadock.Notifier.{accept, accepts_source, accepts_channel}
use hadock.Tests.RelayRuns.{messages, of_mode, of_mode-IsCarried, realtime_only}

abbrev clock : List (ℕ × Bytes)
clock = (5, codes "u1") ∷ (6, codes "u2") ∷ []

abbrev same : ℕ → ℕ
same t = t

two_accepted : length clock ≤ length (accepted realtime_only messages)
unfolding accept accepts_source accepts_channel
two_accepted = omega arith

rounds-sent_example :
    let es = rounds 0 clock (record { buffer = []; datagrams = sent realtime_only messages }) in
    (es ≡ told 0 clock (accepted realtime_only messages))
    × Shows 300 same
        (run 300 same new_monitor es)
        (log_events 300 same no_logs (told 0 clock (accepted realtime_only messages)))
rounds-sent_example =
    rounds-sent 300 same 0 clock realtime_only messages
      (of_mode-IsCarried true, (of_mode-IsCarried false, (of_mode-IsCarried true, tt))) two_accepted

-- The latest first, whatever the less function is.
abbrev latest_first : (Numbered → Numbered → Bool) → List Numbered → List Numbered
latest_first less = sort_by (λ v. 18446744073709551616 - v.message.generated)

latest_first-perm :
    (less : Numbered → Numbered → Bool) (vs : List Numbered) → Perm (latest_first less vs) vs
latest_first-perm less vs = sort_by-perm (λ v. 18446744073709551616 - v.message.generated) vs

abbrev realtime_key : Monkey
realtime_key = monkey_of (of_mode true)

abbrev playback_key : Monkey
playback_key = monkey_of (of_mode false)

abbrev some_slots : Slots
some_slots = record {
  when = 5;
  ms = none ∷ some (record { uid = codes "u1"; count = 1; message = of_mode true }) ∷ [];
}

abbrev a_monitor : Monitor
a_monitor = record { count = 1; indices = λ r. 1; messages = λ k. some some_slots }

keys_differ : AllDiffer latest_first (realtime_key ∷ playback_key ∷ [])
unfolding monkey_string
keys_differ = ((refl, tt), (tt, tt))

serve-shown_slots_example :
    (gs : Data) × (serve latest_first
        (codes "application/json")
        a_monitor
        (realtime_key ∷ playback_key ∷ [])
      ≡ json_data gs)
    × All
        (λ j. Perm (gs (monkey_string j)) (shown_slots (a_monitor.messages j)))
        (realtime_key ∷ playback_key ∷ [])
    × ((s : Bytes)
        → All (λ j. text_eq s (monkey_string j) ≡ false) (realtime_key ∷ playback_key ∷ [])
        → gs s ≡ [])
serve-shown_slots_example =
    serve-shown_slots latest_first (codes "application/json") a_monitor realtime_key
      (playback_key ∷ []) latest_first-perm refl keys_differ

keys : monkey_string realtime_key ≡ codes "51-realtime-255"
unfolding monkey_string padded dec
keys = refl
