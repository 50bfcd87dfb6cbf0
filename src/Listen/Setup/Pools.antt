-- ===== src/Listen/Setup/Pools.antt =====
-- The pool of setupPool, where a log cannot be made.
use hadock.Common.{◌≡◌, Bool, true, false, Option, some, List, [], ◌∷◌, ◌++◌, Bytes, All}
use hadock.Common.Texts.{codes, text_eq}
use hadock.Listen.Setup.{NotifierOptions, neither, has_writer, setup_pool}

module _ {A : Type 0} (external debugger : NotifierOptions → Option A)
    (creates : Bytes → Bool) where
  -- An entry that setupPool passes over, or makes a notifier of.
  pub data IsMade (o : NotifierOptions) : Type 0 where
    sends : (a : A) → text_eq o.scheme (codes "udp") ≡ true → external o ≡ some a → IsMade o
    logs :
        (a : A)
        → text_eq o.scheme (codes "udp") ≡ false
        → text_eq o.scheme (codes "logger") ≡ true
        → has_writer external debugger creates o.location ≡ true
        → debugger o ≡ some a
        → IsMade o
    passed :
        text_eq o.scheme (codes "udp") ≡ false
        → text_eq o.scheme (codes "logger") ≡ false
        → IsMade o

  -- Behind entries that are made or passed over, a logger whose file cannot be created: setupPool
  -- returns neither a pool nor an error, whatever follows.
  setup_pool-neither :
      (before behind : List NotifierOptions) (o : NotifierOptions)
      → All IsMade before
      → o.scheme ≡ codes "logger"
      → has_writer external debugger creates o.location ≡ false
      → setup_pool external debugger creates (before ++ (o ∷ behind)) ≡ neither
  unfolding setup_pool
  setup_pool-neither [] behind o h s e = rw (s, e)
  setup_pool-neither (b ∷ before) behind o h s e =
      made b h.0 (setup_pool-neither before behind o h.1 s e)
    where
      made :
          (b : NotifierOptions)
          → IsMade b
          → setup_pool external debugger creates (before ++ (o ∷ behind)) ≡ neither
          → setup_pool external debugger creates (b ∷ (before ++ (o ∷ behind))) ≡ neither
      made b (sends a u n) ih = rw (u, n, ih)
      made b (logs a u l w n) ih = rw (u, l, w, n, ih)
      made b (passed u l) ih = rw (u, l, ih)
