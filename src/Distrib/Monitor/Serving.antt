-- ===== src/Distrib/Monitor/Serving.antt =====
-- ServeHTTP of the monitor in distrib/monitor.go.
use mathlib.Core.List.{Perm}
use hadock.Common.{
  ℕ, ◌-◌, ◌≡◌, refl, sym, subst, ◌∙◌, Bool, true, false, Option, none, some, List, [], ◌∷◌, ◌++◌,
  Bytes, ltb, if◌then◌else◌, All, All-map, arith,
}
use hadock.Common.Decimal.{padded}
use hadock.Common.Signed.{int64_ge}
use hadock.Common.Texts.{codes, text_eq, text_eq_iff}
use hadock.Distrib.{is_acceptable}
use hadock.Distrib.Monitor.{Monkey, Numbered, Slots, Monitor}

-- fmt.Sprintf("%03d", i), for the bit pattern of an int32.
abbrev pub padded_int32 : ℕ → Bytes
padded_int32 i = if ltb i 2147483648 then padded 3 i else codes "-" ++ padded 2 (4294967296 - i)

text_eq_sym : (s t : Bytes) → text_eq s t ≡ text_eq t s
text_eq_sym [] [] = refl
text_eq_sym [] (b ∷ t) = refl
text_eq_sym (a ∷ s) [] = refl
text_eq_sym (a ∷ s) (b ∷ t) = ground (arith, text_eq_sym s t)

-- String of a monkey
unfoldable pub monkey_string : Monkey → Bytes
monkey_string k =
    k.origin
    ++ (codes "-"
        ++ ((if k.realtime then codes "realtime" else codes "playback")
            ++ (codes "-" ++ padded_int32 k.instance_id)))

-- The slots that are not nil.
abbrev pub present : List (Option Numbered) → List Numbered
present [] = []
present (none ∷ vs) = present vs
present (some v ∷ vs) = v ∷ present vs

abbrev pub shown_slots : Option Slots → List Numbered
shown_slots none = []
shown_slots (some w) = present w.ms

-- The variable data, whose missing keys have no messages.
abbrev pub Data : Type 0
Data = Bytes → List Numbered

abbrev pub no_data : Data
no_data = λ s. []

-- What ServeHTTP answers. encoding/xml cannot encode a map: its error is an answer of its own.
pub data Answer : Type 0 where
  no_content not_acceptable internal_error : Answer
  json_data : Data → Answer

-- The less function of ServeHTTP. It holds both ways round for two messages of one time, and for a message
-- and itself, which sort.Slice does not allow: of the order that it leaves nothing is documented.
abbrev pub not_earlier : Numbered → Numbered → Bool
not_earlier v w = int64_ge v.message.generated w.message.generated

-- `sort` is sort.Slice, with its less function.
module _ (sort : (Numbered → Numbered → Bool) → List Numbered → List Numbered) where
  -- The body of the loop over the map of messages.
  abbrev pub add_group : Monitor → Monkey → Data → Data
  add_group m k gs s =
      if text_eq s (monkey_string k)
      then sort not_earlier (gs s ++ shown_slots (m.messages k))
      else gs s

  unfoldable pub groups : Monitor → List Monkey → Data → Data
  groups m [] gs = gs
  groups m (k ∷ ks) gs = groups m ks (add_group m k gs)

  -- ServeHTTP, where the map has the keys `ks`, in the order of the loop.
  unfoldable pub serve : Bytes → Monitor → List Monkey → Answer
  serve a m [] = no_content
  serve a m (k ∷ ks) =
      if is_acceptable a (codes "application/json" ∷ [])
      then json_data (groups m (k ∷ ks) no_data)
      else if is_acceptable a (codes "application/xml" ∷ [])
      then internal_error
      else not_acceptable

  -- No two keys of a list have the same text.
  abbrev pub AllDiffer : List Monkey → Type 0
  AllDiffer [] = Unit {0}
  AllDiffer (k ∷ ks) =
      All (λ j. text_eq (monkey_string k) (monkey_string j) ≡ false) ks × AllDiffer ks

  groups-other :
      (m : Monitor) (s : Bytes) (ks : List Monkey) (gs : Data)
      → All (λ j. text_eq s (monkey_string j) ≡ false) ks
      → groups m ks gs s ≡ gs s
  unfolding groups
  groups-other m s [] gs h = refl
  groups-other m s (k ∷ ks) gs h = groups-other m s ks (add_group m k gs) h.1 ∙ rw h.0

  still-empty :
      (m : Monitor) (k : Monkey) (ks : List Monkey) (gs : Data)
      → All (λ j. text_eq (monkey_string k) (monkey_string j) ≡ false) ks
      → All (λ j. gs (monkey_string j) ≡ []) ks
      → All (λ j. add_group m k gs (monkey_string j) ≡ []) ks
  still-empty m k [] gs h e = tt
  still-empty m k (j ∷ ks) gs h e =
      (rw (text_eq_sym (monkey_string j) (monkey_string k), h.0) e.0, still-empty m k ks gs h.1 e.1)

  groups_from :
      (m : Monitor) (ks : List Monkey) (gs : Data)
      → AllDiffer ks
      → All (λ k. gs (monkey_string k) ≡ []) ks
      → All
          (λ k. groups m ks gs (monkey_string k) ≡ sort not_earlier (shown_slots (m.messages k)))
          ks
  unfolding groups
  groups_from m [] gs h e = tt
  groups_from m (k ∷ ks) gs h e = (
    groups-other m (monkey_string k) ks (add_group m k gs) h.0
        ∙ rw ((text_eq_iff (monkey_string k) (monkey_string k)).1 refl, e.0),
    groups_from m ks (add_group m k gs) h.1 (still-empty m k ks gs h.0 e.1),
  )

  none-yet : (ks : List Monkey) → All (λ k. no_data (monkey_string k) ≡ []) ks
  none-yet [] = tt
  none-yet (k ∷ ks) = (refl, none-yet ks)

  shown_groups :
      (m : Monitor) (gs : Data) (ks : List Monkey)
      → ((less : Numbered → Numbered → Bool) (vs : List Numbered) → Perm (sort less vs) vs)
      → All (λ k. gs (monkey_string k) ≡ sort not_earlier (shown_slots (m.messages k))) ks
      → All (λ k. Perm (gs (monkey_string k)) (shown_slots (m.messages k))) ks
  shown_groups m gs ks h = All-map ks λ k e.
      subst (λ vs. Perm vs (shown_slots (m.messages k))) (sym e)
        (h not_earlier (shown_slots (m.messages k)))

  -- To a client that takes JSON the monitor answers, where it has messages and the texts of their
  -- keys differ, with exactly the messages in the slots of each key, each as often as it stands
  -- there and in some order, and with none under any other text (sort.Slice permutes what it is
  -- given).
  pub serve-shown_slots :
      (a : Bytes) (m : Monitor) (k : Monkey) (ks : List Monkey)
      → ((less : Numbered → Numbered → Bool) (vs : List Numbered) → Perm (sort less vs) vs)
      → is_acceptable a (codes "application/json" ∷ []) ≡ true
      → AllDiffer (k ∷ ks)
      → (gs : Data) × (serve a m (k ∷ ks) ≡ json_data gs)
        × All (λ j. Perm (gs (monkey_string j)) (shown_slots (m.messages j))) (k ∷ ks)
        × ((s : Bytes) → All (λ j. text_eq s (monkey_string j) ≡ false) (k ∷ ks) → gs s ≡ [])
  unfolding serve
  serve-shown_slots a m k ks hs ha h = (
    groups m (k ∷ ks) no_data,
    rw ha,
    shown_groups m (groups m (k ∷ ks) no_data) (k ∷ ks) hs
        (groups_from m (k ∷ ks) no_data h (none-yet (k ∷ ks))),
    λ s o. groups-other m s (k ∷ ks) no_data o,
  )
