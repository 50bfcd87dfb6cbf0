-- ===== src/Listen/Packets/Origins.antt =====
-- Where the packets come from that ListenPackets queues.
use hadock.Common.{
  ℕ, zero, suc, ◌%◌, ◌≡◌, ◌≤◌, ◌<◌, refl, ap, sym, subst, ◌∙◌, true, none, List, [], ◌∷◌, ◌++◌,
  append-nil, append_assoc, map, Bytes, length, length-append, ◌==◌, ◌||◌, elem, if◌then◌else◌, All,
  Bool-cases, inl, inr, arith,
}
use hadock.Proto.{Packet, decode_binary_packets}
use hadock.Listen.Main.Pipeline.{delivered}
use hadock.Listen.Packets.{
  Server, accept_conn, enqueue_packet, dequeue, Step, accepts, accept_fails, sends, send_panics,
  takes, Reach, start, later,
}
use hadock.Replay.{Run, run_replay}
use hadock.Replay.Whole.{sent_packets, IsSendable, decode_binary_packets-run_replay}

-- The packets of a connection.
abbrev pub of_conn : ℕ → List (ℕ × Packet) → List Packet
of_conn k [] = []
of_conn k ((j, p) ∷ xs) = let rest = of_conn k xs in if k == j then p ∷ rest else rest

of_conn-append :
    (k : ℕ) (xs ys : List (ℕ × Packet)) → of_conn k (xs ++ ys) ≡ of_conn k xs ++ of_conn k ys
of_conn-append k [] ys = refl
of_conn-append k ((j, p) ∷ xs) ys = ground (arith, of_conn-append k xs ys)

left-nil : (xs ys : List Packet) → xs ++ ys ≡ [] → xs ≡ []
left-nil [] ys h = refl
left-nil (x ∷ xs) ys h = cc

module _ (capacity : ℕ) (decode : Bytes → List Packet) where
  -- The packets that the connection at a place of a list makes.
  abbrev pub packets_at : ℕ → List Bytes → List Packet
  packets_at k [] = []
  packets_at zero (bs ∷ bss) = decode bs
  packets_at (suc k) (bs ∷ bss) = packets_at k bss

  packets_at-last :
      (k : ℕ) (bss : List Bytes) (bs : Bytes)
      → packets_at k (bss ++ (bs ∷ [])) ≡ (if k == length bss then decode bs else packets_at k bss)
  packets_at-last zero [] bs = refl
  packets_at-last (suc k) [] bs = ground arith
  packets_at-last zero (b ∷ bss) bs = ground arith
  packets_at-last (suc k) (b ∷ bss) bs = ground (arith, packets_at-last k bss bs)

  packets_at-beyond : (k : ℕ) (bss : List Bytes) → length bss ≤ k → packets_at k bss ≡ []
  packets_at-beyond k [] h = refl
  packets_at-beyond zero (b ∷ bss) h = absurd (omega arith)
  packets_at-beyond (suc k) (b ∷ bss) h = packets_at-beyond k bss (omega arith)

  -- What was received and what waits, connection by connection, is what its bytes decode to but what
  -- is still to be sent.
  pub record IsServed (s : Server) : Type 0 where
    pub conserved :
        (k : ℕ) → of_conn k (s.received ++ s.queue) ++ s.pending k ≡ packets_at k s.accepted
    pub bounded : length s.queue ≤ capacity

  accept_conn-IsServed :
      (bs : Bytes) (s : Server) → IsServed s → IsServed (accept_conn capacity decode bs s)
  accept_conn-IsServed bs s h = record {
    conserved = λ k. elim (Bool-cases (k == length s.accepted)) [
      | inl e ↦
          let n : length s.accepted ≤ k = ground arith in
          let none_yet =
            left-nil (of_conn k (s.received ++ s.queue)) (s.pending k)
              (h.conserved k ∙ packets_at-beyond k s.accepted n) in
          rw (packets_at-last k s.accepted bs, e, none_yet)
      | inr e ↦ rw (packets_at-last k s.accepted bs, e, h.conserved k)
    ];
    bounded = h.bounded;
  }

  enqueue_packet-IsServed :
      (k : ℕ) (p : Packet) (ps : List Packet) (s : Server)
      → s.pending k ≡ p ∷ ps
      → length s.queue < capacity
      → IsServed s
      → IsServed (enqueue_packet capacity decode k p ps s)
  enqueue_packet-IsServed k p ps s e l h = record {
    conserved = λ j.
        let o : of_conn j (s.received ++ (s.queue ++ ((k, p) ∷ [])))
            ≡ of_conn j (s.received ++ s.queue) ++ of_conn j ((k, p) ∷ []) =
          ap (of_conn j) (sym (append_assoc s.received s.queue _))
          ∙ of_conn-append j (s.received ++ s.queue) ((k, p) ∷ []) in
        elim (Bool-cases (j == k)) [
          | inl f ↦
              let same : j ≡ k = ground arith in
              rw (o, f)
                (append_assoc (of_conn j (s.received ++ s.queue)) (p ∷ []) ps
                  ∙ ap (λ xs. of_conn j (s.received ++ s.queue) ++ xs) (sym (ap s.pending same ∙ e))
                  ∙ h.conserved j)
          | inr f ↦ rw (o, f, append-nil (of_conn j (s.received ++ s.queue))) (h.conserved j)
        ];
    bounded = omega (arith, length-append s.queue ((k, p) ∷ []));
  }

  dequeue-IsServed :
      (x : ℕ × Packet) (xs : List (ℕ × Packet)) (s : Server)
      → s.queue ≡ x ∷ xs
      → IsServed s
      → IsServed (dequeue capacity decode x xs s)
  dequeue-IsServed x xs s e h =
      let n : length (x ∷ xs) ≤ capacity = subst (λ q. length q ≤ capacity) e h.bounded in
      record {
        conserved = λ k.
            ap (λ q. of_conn k q ++ s.pending k)
              (append_assoc s.received (x ∷ []) xs ∙ ap (λ q. s.received ++ q) (sym e))
            ∙ h.conserved k;
        bounded = omega arith;
      }

  step-IsServed : {s t : Server} → Step capacity decode s t → IsServed s → IsServed t
  step-IsServed (accept_fails s c a) h = record { conserved = h.conserved; bounded = h.bounded }
  step-IsServed (send_panics k p ps s e c a) h = record {
    conserved = h.conserved;
    bounded = h.bounded;
  }
  step-IsServed (accepts bs s c a) h = accept_conn-IsServed bs s h
  step-IsServed (sends k p ps s e l c a) h = enqueue_packet-IsServed k p ps s e l h
  step-IsServed (takes x xs s e a) h = dequeue-IsServed x xs s e h

  -- However connections are accepted and their goroutines are scheduled: what was received from the
  -- queue and what waits in it are, for each connection, the first packets that its bytes decode to,
  -- in their order and none lost or twice, with the others still to be sent; and the queue holds no
  -- more than its capacity.
  pub reach-IsServed : (s : Server) → Reach capacity decode s → IsServed s
  reach-IsServed s start = record { conserved = λ k. refl; bounded = omega arith }
  reach-IsServed s (later r t) = step-IsServed t (reach-IsServed _ r)

-- A sender of packets in one piece, with what it sends, over a connection that takes all of it.
abbrev pub Sender : Type 0
Sender = Run × List Bytes

module _ (sum1071_bis : Bytes → ℕ) (is : List ℕ) where
  pub record IsSender (r : Sender) : Type 0 where
    pub whole : r.0.replay.size ≡ 0
    pub version_fits : r.0.replay.version < 4096
    pub counter_fits : r.0.replay.counter < 65536
    pub connected : r.0.conn ≡ record { received = []; outcomes = [] }
    pub passes : (length is == 0 || elem ◌==◌ (r.0.replay.version % 256) is) ≡ true
    pub sendable : All IsSendable r.1

  abbrev pub bytes_sent : Sender → Bytes
  bytes_sent (s, queue) = (run_replay sum1071_bis none s queue).conn.received

  -- DecodeBinaryPackets, as the packets that it delivers.
  abbrev pub decoded : Bytes → List Packet
  decoded bs = delivered (decode_binary_packets is bs)

  -- The packets of the sender at a place.
  abbrev pub sent_at : ℕ → List Sender → List Packet
  sent_at k [] = []
  sent_at zero ((s, queue) ∷ rs) = sent_packets sum1071_bis s.replay queue
  sent_at (suc k) (r ∷ rs) = sent_at k rs

  packets_at-sent_at :
      (capacity k : ℕ) (rs : List Sender)
      → All IsSender rs
      → packets_at capacity decoded k (map bytes_sent rs) ≡ sent_at k rs
  packets_at-sent_at capacity k [] h = refl
  packets_at-sent_at capacity zero ((s, queue) ∷ rs) h = ap delivered (
      decode_binary_packets-run_replay sum1071_bis is s queue h.0.whole h.0.version_fits
        h.0.counter_fits h.0.connected h.0.passes h.0.sendable)
  packets_at-sent_at capacity (suc k) (r ∷ rs) h = packets_at-sent_at capacity k rs h.1

  -- Several runs of replay at a time, each over its own connection, which takes all it is sent: once
  -- all is sent to the queue and the queue is empty, the packets of each run were received in their
  -- order, whole and none lost or twice, however the goroutines of the connections were scheduled
  -- (the runs send without fragments, with versions below 4096 and counters below 65536; their
  -- payloads are neither empty nor 2^32 bytes long, and their instances pass).
  pub reach-sent_at :
      (capacity : ℕ) (rs : List Sender) (s : Server)
      → Reach capacity decoded s
      → All IsSender rs
      → s.accepted ≡ map bytes_sent rs
      → s.queue ≡ []
      → ((k : ℕ) → s.pending k ≡ [])
      → (k : ℕ) → of_conn k s.received ≡ sent_at k rs
  reach-sent_at capacity rs s r h ha hq hp k =
      let c = (reach-IsServed capacity decoded s r).conserved k in
      let e : of_conn k (s.received ++ s.queue) ++ s.pending k ≡ of_conn k s.received =
        rw (hq, hp k, append-nil s.received, append-nil (of_conn k s.received)) in
      sym e ∙ c ∙ ap (packets_at capacity decoded k) ha ∙ packets_at-sent_at capacity k rs h
