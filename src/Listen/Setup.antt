-- ===== src/Listen/Setup.antt =====
-- setupStorage, setupPool and setupModules of cmd/hadock/listen.go, and what the joint storage
-- (Multistore of storage/storage.go) and the joint module (Process of proto.go) do.
pub mod Joint
pub mod Pools
use hadock.Common.{
  ℕ, ◌+◌, Bool, true, false, not, ◌&&◌, ◌||◌, Option, none, some, List, [], ◌∷◌, ◌++◌, Bytes,
  length, ◌==◌, if◌then◌else◌,
}
use hadock.Common.Texts.{codes, text_eq}
use hadock.Notifier.{Options}
use hadock.Panda.{HrPacket}

-- A storage or a module, as what it does with a packet of an instance to a state S: an error (by some
-- number) or none, and the state behind.
abbrev pub Handler : Type 0 → Type 0
Handler S = ℕ → HrPacket → S → Option ℕ × S

abbrev pub last_error : Option ℕ → Option ℕ → Option ℕ
last_error err none = err
last_error err (some e) = some e

abbrev pub first_error : Option ℕ → Option ℕ → Option ℕ
first_error none e = e
first_error (some err) e = some err

module _ {S : Type 0} where
  -- The loop of multistore.Store, with `err` so far: the last error stays.
  unfoldable pub store_all : Option ℕ → List (Handler S) → Handler S
  store_all err [] i p s = (err, s)
  store_all err (h ∷ hs) i p s = store_all (last_error err (h i p s).0) hs i p (h i p s).1

  -- Multistore: one storage stands for itself.
  unfoldable pub multistore : List (Handler S) → Handler S
  multistore [] = store_all none []
  multistore (h ∷ []) = h
  multistore (h ∷ g ∷ hs) = store_all none (h ∷ g ∷ hs)

  -- multistore.Close, with `err` so far: none is a storage that is no io.Closer; the first error stays.
  unfoldable pub close_all : Option ℕ → List (Option (S → Option ℕ × S)) → S → Option ℕ × S
  close_all err [] s = (err, s)
  close_all err (none ∷ cs) s = close_all err cs s
  close_all err (some c ∷ cs) s = close_all (first_error err (c s).0) cs (c s).1

  -- The loop of multiModule.Process: the first error stays.
  unfoldable pub process_all : Option ℕ → List (Handler S) → Handler S
  process_all err [] i p s = (err, s)
  process_all err (h ∷ hs) i p s = process_all (first_error err (h i p s).0) hs i p (h i p s).1

-- The options of a storage that setupStorage and mkdirAll read.
pub record StorageOptions : Type 0 where
  pub scheme : Bytes
  pub location : Bytes
  pub shares : List Bytes

-- The constructors that setupStorage chooses from.
pub data Scheme : Type 0 where
  hrdp archive file : Scheme

pub data Choice : Type 0 where
  skips : Choice
  unrecognised : Choice
  makes : Scheme → Choice

-- The switch of setupStorage on the scheme.
unfoldable pub choice_of : Bytes → Choice
choice_of s =
    if text_eq s []
    then skips
    else if text_eq s (codes "hrdp")
    then makes hrdp
    else if text_eq s (codes "tar") || text_eq s (codes "archive")
    then makes archive
    else if text_eq s (codes "file")
    then makes file
    else unrecognised

module _ {A : Type 0} (mkdir_fails : Bytes → Bool) (make : Scheme → StorageOptions → Option A) where
  any_fails : List Bytes → Bool
  any_fails [] = false
  any_fails (l ∷ ls) = (not (length l == 0) && mkdir_fails l) || any_fails ls

  -- mkdirAll: whether it ends by an error.
  unfoldable pub mkdir_all_fails : StorageOptions → Bool
  unfolding any_fails
  mkdir_all_fails o = (not (length o.location == 0) && mkdir_fails o.location) || any_fails o.shares

  -- The storage of one entry: none is an error.
  unfoldable pub make_storage : Scheme → StorageOptions → Option A
  make_storage k o = if mkdir_all_fails o then none else make k o

  -- The loop of setupStorage.
  unfoldable pub setup_all : List StorageOptions → Option (List A)
  setup_all [] = some []
  setup_all (o ∷ os) = elim (choice_of o.scheme) [
    | skips ↦ setup_all os
    | unrecognised ↦ none
    | makes k ↦ elim (make_storage k o) [
      | none ↦ none
      | some a ↦ elim (setup_all os) [ none ↦ none | some xs ↦ some (a ∷ xs) ]
    ]
  ]

  -- setupStorage, without Multistore.
  unfoldable pub setup_storage : List StorageOptions → Option (List A)
  setup_storage [] = none
  setup_storage (o ∷ os) = setup_all (o ∷ os)

-- The options of a notifier that setupPool reads.
pub record NotifierOptions : Type 0 where
  pub scheme : Bytes
  pub location : Bytes
  pub options : Options

-- What setupPool returns: a pool of some notifiers, an error, or neither (a nil pool and a nil error).
pub data PoolResult (A : Type 0) : Type 0 where
  pool : List A → PoolResult A
  failed : PoolResult A
  neither : PoolResult A

abbrev pub add_notifier : {A : Type 0} → A → PoolResult A → PoolResult A
add_notifier a (pool ns) = pool (a ∷ ns)
add_notifier a failed = failed
add_notifier a neither = neither

-- `external` is NewExternalNotifier, `creates` says whether os.Create of a log succeeds, `debugger` is
-- NewDebuggerNotifier, to the writer of a location.
module _ {A : Type 0} (external debugger : NotifierOptions → Option A)
    (creates : Bytes → Bool) where
  -- The writer of a logger is there: /dev/null and the standard output are.
  unfoldable pub has_writer : Bytes → Bool
  has_writer l = text_eq l (codes "/dev/null") || text_eq l [] || creates l

  unfoldable pub setup_pool : List NotifierOptions → PoolResult A
  setup_pool [] = pool []
  setup_pool (o ∷ os) =
      let rest = setup_pool os in
      let made : Option A → PoolResult A =
        λ n. elim n [ none ↦ failed | some a ↦ add_notifier a rest ] in
      if text_eq o.scheme (codes "udp")
      then made (external o)
      else if text_eq o.scheme (codes "logger")
      then (if has_writer o.location then made (debugger o) else neither)
      else rest

-- What a plugin's "New" is, if there is one, and what it returns for each of its configurations.
pub data Plugin (A : Type 0) : Type 0 where
  missing : Plugin A
  with_config : (Bytes → Option A) → Plugin A
  without_config : Option A → Plugin A
  invalid : Plugin A

module _ {A : Type 0} (plugin_at : Bytes → Plugin A) where
  abbrev made_of : (Bytes → Option A) → List Bytes → List A
  made_of new [] = []
  made_of new (c ∷ cs) = elim (new c) [ none ↦ made_of new cs | some a ↦ a ∷ made_of new cs ]

  abbrev add_modules : List A → Option (List A) → Option (List A)
  add_modules xs none = none
  add_modules xs (some ys) = some (xs ++ ys)

  -- The loop of setupModules: a module is a location with its configurations; one that cannot be
  -- made is left out.
  unfoldable load_modules : List (Bytes × List Bytes) → Option (List A)
  load_modules [] = some []
  load_modules ((l, cs) ∷ ms) = elim (plugin_at l) [
    | missing ↦ none
    | with_config new ↦ add_modules (made_of new cs) (load_modules ms)
    | without_config none ↦ load_modules ms
    | without_config (some a) ↦ add_modules (a ∷ []) (load_modules ms)
    | invalid ↦ none
  ]

  -- setupModules, without Process: with no modules there is no module, and no error.
  unfoldable pub setup_modules : List (Bytes × List Bytes) → Option (Option (List A))
  unfolding load_modules
  setup_modules [] = some none
  setup_modules (m ∷ ms) = elim (load_modules (m ∷ ms)) [ none ↦ none | some xs ↦ some (some xs) ]
