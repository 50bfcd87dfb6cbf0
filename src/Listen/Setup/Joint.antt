-- ===== src/Listen/Setup/Joint.antt =====
-- The joint storage and the joint module.
use hadock.Common.{ℕ, ◌≡◌, refl, ap, Option, none, some, List, [], ◌∷◌}
use hadock.Panda.{HrPacket}
use hadock.Listen.Setup.{Handler, last_error, store_all, multistore, process_all}

module _ {S : Type 0} (i : ℕ) (p : HrPacket) where
  -- All handlers run one behind the other: their errors, and the state at the end.
  abbrev pub errors_of : List (Handler S) → S → List (Option ℕ)
  errors_of [] s = []
  errors_of (h ∷ hs) s = (h i p s).0 ∷ errors_of hs (h i p s).1

  abbrev pub state_behind : List (Handler S) → S → S
  state_behind [] s = s
  state_behind (h ∷ hs) s = state_behind hs (h i p s).1

abbrev pub last_of : Option ℕ → List (Option ℕ) → Option ℕ
last_of err [] = err
last_of err (e ∷ es) = last_of (last_error err e) es

abbrev pub first_of : List (Option ℕ) → Option ℕ
first_of [] = none
first_of (none ∷ es) = first_of es
first_of (some e ∷ es) = some e

last_error-none : (e : Option ℕ) → e ≡ last_error none e
last_error-none none = refl
last_error-none (some e) = refl

module _ {S : Type 0} where
  store_all_lem :
      (err : Option ℕ) (hs : List (Handler S)) (i : ℕ) (p : HrPacket) (s : S)
      → store_all err hs i p s ≡ (last_of err (errors_of i p hs s), state_behind i p hs s)
  unfolding store_all
  store_all_lem err [] i p s = refl
  store_all_lem err (h ∷ hs) i p s = store_all_lem (last_error err (h i p s).0) hs i p (h i p s).1

  multistore_lem :
      (hs : List (Handler S)) (i : ℕ) (p : HrPacket) (s : S)
      → multistore hs i p s ≡ (last_of none (errors_of i p hs s), state_behind i p hs s)
  unfolding multistore
  multistore_lem [] i p s = store_all_lem none [] i p s
  multistore_lem (h ∷ []) i p s = ap (λ e. (e, (h i p s).1)) (last_error-none (h i p s).0)
  multistore_lem (h ∷ g ∷ hs) i p s = store_all_lem none (h ∷ g ∷ hs) i p s

  process_all_failed :
      (e : ℕ) (hs : List (Handler S)) (i : ℕ) (p : HrPacket) (s : S)
      → process_all (some e) hs i p s ≡ (some e, state_behind i p hs s)
  unfolding process_all
  process_all_failed e [] i p s = refl
  process_all_failed e (h ∷ hs) i p s = process_all_failed e hs i p (h i p s).1

  process_all_from :
      (e : Option ℕ) (hs : List (Handler S)) (i : ℕ) (p : HrPacket) (s : S)
      → process_all e hs i p s ≡ (first_of (e ∷ errors_of i p hs s), state_behind i p hs s)
  unfolding process_all
  process_all_from (some e) hs i p s = process_all_failed e hs i p s
  process_all_from none [] i p s = refl
  process_all_from none (h ∷ hs) i p s = process_all_from (h i p s).0 hs i p (h i p s).1

  -- Both joints hand a packet to all storages, or modules, in order, whatever errors these return. The
  -- storage returns the last error and the module the first.
  multistore-process_all :
      (hs : List (Handler S)) (i : ℕ) (p : HrPacket) (s : S)
      → (multistore hs i p s ≡ (last_of none (errors_of i p hs s), state_behind i p hs s))
        × (process_all none hs i p s ≡ (first_of (errors_of i p hs s), state_behind i p hs s))
  multistore-process_all hs i p s = (multistore_lem hs i p s, process_all_from none hs i p s)
