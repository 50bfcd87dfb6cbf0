-- ===== src/Tools/Workers/Bounds.antt =====
-- The workers of cmd/vmuzip/vmuzip.go, whatever the order of their steps.
use hadock.Common.{
  ℕ, zero, suc, ◌≡◌, ◌≤◌, ◌<◌, refl, ap, sym, ◌∙◌, Bool, true, false, ◌&&◌, List, [], ◌∷◌, ◌++◌,
  append_assoc, Bytes, length, length-append, ltb, leb, Bool-cases, inl, inr, arith,
}
use hadock.Panda.{HrPacket}
use hadock.Storage.Paths.{Calendar}
use hadock.Tools.Workers.{
  Calls, Zip, new_zip, Step, goes_on, ends, go_on, take_packet, end_at, step, run,
}

module _ (join : Bytes → Bytes → Bytes) (cal : Calendar) (stream_of format_of : HrPacket → Bytes)
    (raw flat : Bool) (limit parallel : ℕ) (dir : Bytes) (ps : List HrPacket) where
  -- A state in which packets were handed out from the front of the queue, with those behind them
  -- there as long as the loop goes on; in which a limit is kept, and the semaphore too; and in which
  -- nothing was handed out if the semaphore has no room.
  pub record IsBounded (z : Zip) : Type 0 where
    pub in_order :
        (rest : List HrPacket) × (z.started ++ rest ≡ ps) × ((z.stopped ≡ false) → rest ≡ z.waiting)
    pub limited : 0 < limit → length z.started ≤ limit
    pub counted : length z.running ≤ parallel
    pub none_started : parallel ≡ 0 → z.started ≡ []

  end_at-length :
      (k : ℕ) (o : Calls) (rs : List HrPacket)
      → length (end_at join cal stream_of format_of raw flat limit parallel dir k o rs).0
        ≤ length rs
  unfolding end_at
  end_at-length k o [] = omega arith
  end_at-length zero o (p ∷ rs) = omega arith
  end_at-length (suc k) o (p ∷ rs) = omega (arith, end_at-length k o rs)

  take_packet-IsBounded :
      (ws : List HrPacket) (z : Zip)
      → z.waiting ≡ ws
      → z.stopped ≡ false
      → IsBounded z
      → IsBounded (take_packet join cal stream_of format_of raw flat limit parallel dir ws z)
  unfolding take_packet
  take_packet-IsBounded [] z e s h = h
  take_packet-IsBounded (p ∷ ws) z e s h =
      elim (Bool-cases (ltb 0 limit && leb limit (length z.started))) [
        | inl f ↦ rw f (record {
          in_order = (h.in_order.0, h.in_order.1, λ q. absurd (cc));
          limited = h.limited;
          counted = h.counted;
          none_started = h.none_started;
        })
        | inr f ↦ elim (Bool-cases (ltb (length z.running) parallel)) [
          | inr g ↦ rw (f, g) h
          | inl g ↦
              let (rest, whole, same) = h.in_order in
              rw (f, g)
                (record {
                  in_order = (
                    ws,
                    append_assoc z.started (p ∷ []) ws
                        ∙ ap (λ xs. z.started ++ xs) (sym e ∙ sym (same s))
                        ∙ whole,
                    λ q. refl,
                  );
                  limited = λ l. ground (arith, length-append z.started (p ∷ []));
                  counted = ground (arith, length-append z.running (p ∷ []));
                  none_started = λ n. absurd (ground arith);
                })
        ]
      ]

  go_on-IsBounded :
      (b : Bool) (z : Zip)
      → z.stopped ≡ b
      → IsBounded z
      → IsBounded (go_on join cal stream_of format_of raw flat limit parallel dir b z)
  unfolding go_on
  go_on-IsBounded true z s h = h
  go_on-IsBounded false z s h = take_packet-IsBounded z.waiting z refl s h

  step-IsBounded :
      (z : Zip) (t : Step)
      → IsBounded z
      → IsBounded (step join cal stream_of format_of raw flat limit parallel dir z t)
  unfolding step
  step-IsBounded z goes_on h = go_on-IsBounded z.stopped z refl h
  step-IsBounded z (ends k o) h = record {
    in_order = h.in_order;
    limited = h.limited;
    counted = omega (arith, h.counted, end_at-length k o z.running);
    none_started = h.none_started;
  }

  run_from-IsBounded :
      (z : Zip) (ts : List Step)
      → IsBounded z
      → IsBounded (run join cal stream_of format_of raw flat limit parallel dir z ts)
  unfolding run
  run_from-IsBounded z [] h = h
  run_from-IsBounded z (t ∷ ts) h =
      run_from-IsBounded (step join cal stream_of format_of raw flat limit parallel dir z t) ts
        (step-IsBounded z t h)

  -- Whatever the order in which the loop goes on and workers end, and however their calls end: no
  -- more workers run than the semaphore takes, packets are handed out in the order of the queue and
  -- none twice or left out, no more of them than the limit, if there is one; and without room in the
  -- semaphore, which `-p 0` gives, none ever is.
  pub run-IsBounded :
      (ts : List Step)
      → IsBounded (run join cal stream_of format_of raw flat limit parallel dir (new_zip ps) ts)
  run-IsBounded ts = run_from-IsBounded (new_zip ps) ts (record {
    in_order = (ps, refl, λ q. refl);
    limited = λ l. omega arith;
    counted = omega arith;
    none_started = λ n. refl;
  })
