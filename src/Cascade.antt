-- ===== src/Cascade.antt =====
-- cascading/proxy.go: what hadock receives is copied to a second server, by a connection that is
-- made anew when a write to it fails. Proxy dials by TCP alone, so that the case of a UDP connection
-- is left out.
pub mod Delivery
use hadock.Common.{
  ℕ, zero, suc, ◌+◌, Bool, true, false, Option, none, some, List, [], ◌∷◌, ◌++◌, Bytes, take,
}

-- Where the proxy writes to: a connection, by its number, or ioutil.Discard.
pub data Writer : Type 0 where
  to_conn : ℕ → Writer
  discard : Writer

-- type proxy struct, with the goroutines of reconnect that run (by the connection that they close at the
-- end), the connections that were closed, and what was written to each connection, the latest first.
pub record Proxy : Type 0 where
  pub conn : ℕ
  pub writer : Writer
  pub reconnects : List ℕ
  pub closed : List ℕ
  pub sent : List (ℕ × Bytes)

-- Proxy: the first connection was dialled.
abbrev pub new_proxy : ℕ → Proxy
new_proxy x = record { conn = x; writer = to_conn x; reconnects = []; closed = []; sent = [] }

-- A write, which the connection takes, or fails after some bytes; a dial of the goroutine at a place
-- fails, or makes a connection; the proxy is closed.
pub data Event : Type 0 where
  writes : Bytes → Option ℕ → Event
  dials : ℕ → Option ℕ → Event
  closes : Event

-- Write. It always reports that all bytes were written.
write_to : Writer → Bytes → Option ℕ → Proxy → Proxy
write_to discard bs e p = p
write_to (to_conn x) bs none p = record p { sent = (x, bs) ∷ p.sent }
write_to (to_conn x) bs (some n) p = record p {
  sent = (x, take n bs) ∷ p.sent;
  writer = discard;
  reconnects = p.conn ∷ p.reconnects;
}

unfoldable pub write : Bytes → Option ℕ → Proxy → Proxy
unfolding write_to
write bs e p = write_to p.writer bs e p

abbrev at : List ℕ → ℕ → Option ℕ
at [] i = none
at (x ∷ xs) zero = some x
at (x ∷ xs) (suc i) = at xs i

abbrev without : List ℕ → ℕ → List ℕ
without [] i = []
without (x ∷ xs) zero = xs
without (x ∷ xs) (suc i) = x ∷ without xs i

-- A dial of a loop of reconnect succeeded: the deferred Close is that of the connection that `c.Conn`
-- was when the goroutine began.
connect : ℕ → Option ℕ → ℕ → Proxy → Proxy
connect i none x p = p
connect i (some old) x p = record p {
  conn = x;
  writer = to_conn x;
  reconnects = without p.reconnects i;
  closed = old ∷ p.closed;
}

-- A round of the loop of reconnect.
unfoldable pub dial : ℕ → Option ℕ → Proxy → Proxy
unfolding connect
dial i none p = p
dial i (some x) p = connect i (at p.reconnects i) x p

unfoldable pub step : Proxy → Event → Proxy
step p (writes bs e) = write bs e p
step p (dials i x) = dial i x p
step p closes = record p { closed = p.conn ∷ p.closed }

unfoldable pub run : Proxy → List Event → Proxy
run p [] = p
run p (e ∷ es) = run (step p e) es
