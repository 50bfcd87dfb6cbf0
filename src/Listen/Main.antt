-- ===== src/Listen/Main.antt =====
-- The loop of runListen in cmd/hadock/listen.go, and the goroutine that runs the modules, as steps.
pub mod Pipeline
use hadock.Common.{
  ℕ, ◌+◌, Bool, true, false, Option, none, some, List, [], ◌∷◌, ◌++◌, length, ltb, if◌then◌else◌,
  u8,
}
use hadock.Listen.Setup.{Handler}
use hadock.Notifier.Pool.{Item, Pool, notify}

-- The state of the storages and of the modules, the pool, the queue of the modules (none where there are
-- no modules), and the errors that were logged.
pub record Listener (S M : Type 0) : Type 0 where
  pub stored : S
  pub modules : M
  pub pool : Pool
  pub queue : Option (List Item)
  pub store_errors : List ℕ
  pub module_errors : List ℕ

-- An item comes in at a time, with the news whether the goroutine of the modules waits; or that goroutine
-- takes an item.
pub data Step : Type 0 where
  handles : ℕ → Bool → Item → Step
  processes : Step

abbrev pub log_error : Option ℕ → List ℕ → List ℕ
log_error none es = es
log_error (some e) es = es ++ (e ∷ [])

module _ {S M : Type 0} (capacity : ℕ) (store : Handler S) (process : Handler M) where
  -- The `select` on the queue: a nil queue takes nothing.
  abbrev pub offer : Bool → Item → Option (List Item) → Option (List Item)
  offer waiting i none = none
  offer waiting i (some q) =
      if ltb (length q) (capacity + (if waiting then 1 else 0))
      then some (q ++ (i ∷ []))
      else some q

  -- The body of the loop.
  unfoldable pub handle : ℕ → Bool → Item → Listener S M → Listener S M
  handle now waiting i l =
      let r = store (u8 i.instance_id) i.packet l.stored in
      record l {
        stored = r.1;
        store_errors = log_error r.0 l.store_errors;
        pool = notify now l.pool i;
        queue = offer waiting i l.queue;
      }

  -- A round of the goroutine of the modules.
  process_from : Option (List Item) → Listener S M → Listener S M
  process_from none l = l
  process_from (some []) l = l
  process_from (some (i ∷ q)) l =
      let r = process (u8 i.instance_id) i.packet l.modules in
      record l { modules = r.1; module_errors = log_error r.0 l.module_errors; queue = some q }

  unfoldable pub take_step : Listener S M → Step → Listener S M
  unfolding process_from
  take_step l (handles now waiting i) = handle now waiting i l
  take_step l processes = process_from l.queue l

  unfoldable pub take_steps : Listener S M → List Step → Listener S M
  take_steps l [] = l
  take_steps l (s ∷ ss) = take_steps (take_step l s) ss
