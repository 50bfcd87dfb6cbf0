-- ===== src/Cascade/Delivery.antt =====
-- The connections of the proxy.
use hadock.Common.{ℕ, zero, suc, ◌≡◌, refl, ap, Option, none, some, List, [], ◌∷◌, ◌++◌, Bytes, All}
use hadock.Cascade.{
  to_conn, discard, Proxy, new_proxy, Event, writes, dials, closes, write, write_to, dial, connect,
  step, run,
}

-- The proxy writes to its connection and no goroutine dials, or it discards and exactly one does, to
-- replace the connection it has.
pub data IsSteady (p : Proxy) : Type 0 where
  up : p.writer ≡ to_conn p.conn → p.reconnects ≡ [] → IsSteady p
  down : p.writer ≡ discard → p.reconnects ≡ p.conn ∷ [] → IsSteady p

write-IsSteady : (bs : Bytes) (e : Option ℕ) (p : Proxy) → IsSteady p → IsSteady (write bs e p)
unfolding write write_to
write-IsSteady bs none p (up w r) = simp w (up refl r)
write-IsSteady bs (some n) p (up w r) = simp w (down refl (ap (λ rs. p.conn ∷ rs) r))
write-IsSteady bs e p (down w r) = simp w (down w r)

dial-IsSteady : (i : ℕ) (x : Option ℕ) (p : Proxy) → IsSteady p → IsSteady (dial i x p)
unfolding dial connect
dial-IsSteady i none p h = h
dial-IsSteady i (some x) p (up w r) = simp r (up w r)
dial-IsSteady zero (some x) p (down w r) = simp r (up refl refl)
dial-IsSteady (suc i) (some x) p (down w r) = simp r (down w r)

step-IsSteady : (p : Proxy) (e : Event) → IsSteady p → IsSteady (step p e)
unfolding step
step-IsSteady p (writes bs e) h = write-IsSteady bs e p h
step-IsSteady p (dials i x) h = dial-IsSteady i x p h
step-IsSteady p closes (up w r) = up w r
step-IsSteady p closes (down w r) = down w r

run_from-IsSteady : (es : List Event) (p : Proxy) → IsSteady p → IsSteady (run p es)
unfolding run
run_from-IsSteady [] p h = h
run_from-IsSteady (e ∷ es) p h = run_from-IsSteady es (step p e) (step-IsSteady p e h)

-- Whatever writes, dials and closings come, and however they end: the proxy writes to its connection
-- and nothing dials, or it discards what is written and exactly one goroutine dials.
run-IsSteady : (x : ℕ) (es : List Event) → IsSteady (run (new_proxy x) es)
run-IsSteady x es = run_from-IsSteady es (new_proxy x) (up refl refl)

run-append : (p : Proxy) (es fs : List Event) → run p (es ++ fs) ≡ run (run p es) fs
unfolding run
run-append p [] fs = refl
run-append p (e ∷ es) fs = run-append (step p e) es fs

-- An event that leaves the proxy without a connection.
pub data IsWaiting : Event → Type 0 where
  ignored : (bs : Bytes) (e : Option ℕ) → IsWaiting (writes bs e)
  refused : (i : ℕ) → IsWaiting (dials i none)

waiting-step : (e : Event) (p : Proxy) → p.writer ≡ discard → IsWaiting e → step p e ≡ p
unfolding step write write_to dial
waiting-step (writes bs e) p w (ignored _ _) = simp w refl
waiting-step (dials i none) p w (refused _) = refl
waiting-step (dials i (some x)) p w h = elim h [ ]
waiting-step closes p w h = elim h [ ]

waiting-run : (es : List Event) (p : Proxy) → p.writer ≡ discard → All IsWaiting es → run p es ≡ p
unfolding run
waiting-run [] p w h = refl
waiting-run (e ∷ es) p w h = rw (waiting-step e p w h.0) (waiting-run es p w h.1)

-- A steady proxy that discards sends again as soon as a dial succeeds.
dialled-sends :
    (p : Proxy) (x : ℕ) (bs : Bytes)
    → p.writer ≡ discard
    → IsSteady p
    → (run p (dials 0 (some x) ∷ writes bs none ∷ [])).sent ≡ (x, bs) ∷ p.sent
unfolding run step dial connect write write_to
dialled-sends p x bs w (up v r) = cc
dialled-sends p x bs w (down v r) = simp r refl

-- After any run that ends without a connection, and any writes and dials that fail behind it, the
-- first dial that succeeds ends the loss: what is written next goes to the new connection, and nothing
-- of what was written in between.
pub run-sends_again :
    (y x : ℕ) (es waiting : List Event) (bs : Bytes)
    → (run (new_proxy y) es).writer ≡ discard
    → All IsWaiting waiting
    → (run (new_proxy y) (es ++ (waiting ++ (dials 0 (some x) ∷ writes bs none ∷ [])))).sent
      ≡ (x, bs) ∷ (run (new_proxy y) es).sent
run-sends_again y x es waiting bs w h =
    rw
      (
        run-append (new_proxy y) es (waiting ++ (dials 0 (some x) ∷ writes bs none ∷ [])),
        run-append (run (new_proxy y) es) waiting (dials 0 (some x) ∷ writes bs none ∷ []),
        waiting-run waiting (run (new_proxy y) es) w h,
      )
      (dialled-sends (run (new_proxy y) es) x bs w (run-IsSteady y es))
