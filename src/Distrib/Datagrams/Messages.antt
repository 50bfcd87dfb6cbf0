-- ===== src/Distrib/Datagrams/Messages.antt =====
-- The messages of the notifier as distrib/monitor.go decodes them.
use hadock.Common.{
  ℕ, zero, suc, ◌-◌, ◌^◌, ◌≡◌, ◌≤◌, ◌<◌, refl, ap, sym, subst, ◌∙◌, Bool, true, false, not, Option,
  none, some, List, [], ◌∷◌, ◌++◌, append-nil, append_assoc, map, Bytes, length, length-append,
  take, take_whole, drop, take-append, drop-append, leb, ◌==◌, All, u16, Bool-cases, inl, inr,
  arith,
}
use hadock.Common.Endian.{be, length-be, of_be-be}
use hadock.Distrib.Datagrams.{
  Stream, buffer_length, read_from, prefixed, read_full, read_once, read_field, string_behind,
  read_string, decode_message, rounds,
}
use hadock.Distrib.Monitor.{Event, decodes, new_monitor, run}
use hadock.Distrib.Monitor.Refinement.{Shows, log_events, no_logs, run-Shows}
use hadock.Hdk2udp.Relay.Delivery.{IsCarried, accepted}
use hadock.Notifier.{Message, Options, accept, notify, bool_byte, write_string, encode_message}
use hadock.Notifier.Codec.{IsWritable}

-- A stream that has some bytes buffered.
abbrev buffered : Bytes → List Bytes → Stream
buffered bs ds = record { buffer = bs; datagrams = ds }

prefix-fits : (n : ℕ) (xs rest : Bytes) → length xs ≡ n → leb n (length (xs ++ rest)) ≡ true
prefix-fits n xs rest h = ground (arith, length-append xs rest)

take-prefix : (n : ℕ) (xs rest : Bytes) → length xs ≡ n → take n (xs ++ rest) ≡ xs
take-prefix n xs rest h = subst (λ k. take k (xs ++ rest) ≡ xs) h (take-append xs rest)

drop-prefix : (n : ℕ) (xs rest : Bytes) → length xs ≡ n → drop n (xs ++ rest) ≡ rest
drop-prefix n xs rest h = subst (λ k. drop k (xs ++ rest) ≡ rest) h (drop-append xs rest)

read_full-buffered :
    (n : ℕ) (xs rest : Bytes) (ds : List Bytes)
    → length xs ≡ n
    → read_full n (xs ++ rest) ds ≡ (some xs, buffered rest ds)
unfolding read_full read_from
read_full-buffered n xs rest [] h =
    rw (prefix-fits n xs rest h, take-prefix n xs rest h, drop-prefix n xs rest h)
read_full-buffered n xs rest (d ∷ ds) h =
    rw (prefix-fits n xs rest h, take-prefix n xs rest h, drop-prefix n xs rest h)

read_once-buffered :
    (n : ℕ) (xs rest : Bytes) (ds : List Bytes)
    → length xs ≡ n
    → read_once n (xs ++ rest) ds ≡ (some xs, buffered rest ds)
unfolding read_once
read_once-buffered zero [] rest ds h = refl
read_once-buffered zero (x ∷ xs) rest ds h = absurd (omega arith)
read_once-buffered (suc n) [] rest ds h = absurd (omega arith)
read_once-buffered (suc n) (x ∷ xs) rest ds h =
    rw (take-prefix n xs rest (omega arith), drop-prefix n xs rest (omega arith))

read_field-be :
    (k v : ℕ) (rest : Bytes) (ds : List Bytes)
    → v < 256 ^ k
    → read_field k (buffered (be k v ++ rest) ds) ≡ (v, buffered rest ds)
unfolding read_field
read_field-be k v rest ds h =
    rw (read_full-buffered k (be k v) rest ds (length-be k v), of_be-be k v h)

read_string-write_string :
    (bs rest : Bytes) (ds : List Bytes)
    → length bs < 65536
    → read_string (buffered (write_string bs ++ rest) ds) ≡ (bs, buffered rest ds)
unfolding read_string write_string
read_string-write_string bs rest ds h =
    let e : u16 (length bs) ≡ length bs = omega arith in
    let z : length bs - length bs ≡ 0 = omega arith in
    rw (e, append_assoc (be 2 (length bs)) bs rest)
      (rw (read_full-buffered 2 (be 2 (length bs)) (bs ++ rest) ds (length-be 2 (length bs))) (
        rw (of_be-be 2 (length bs) h)
          (rw (read_once-buffered (length bs) bs rest ds refl) (rw (z, append-nil bs)))))

bool_byte_fits : (b : Bool) → bool_byte b < 256 ^ 1
bool_byte_fits b = ground arith

not-zero-bool_byte : (b : Bool) → not (bool_byte b == 0) ≡ b
not-zero-bool_byte true = refl
not-zero-bool_byte false = refl

decode_message-buffered :
    (m : Message) (rest : Bytes) (ds : List Bytes)
    → IsWritable m
    → decode_message (buffered (encode_message m ++ rest) ds) ≡ (m, buffered rest ds)
unfolding decode_message encode_message
decode_message-buffered m rest ds w = simp append_assoc (
    rw (read_string-write_string m.origin _ ds w.origin_fits) (
      rw (read_field-be 4 m.sequence _ ds w.sequence_fits) (
        rw (read_field-be 4 m.instance_id _ ds w.instance_fits) (
          rw (read_field-be 1 m.channel _ ds w.channel_fits) (
            rw (read_field-be 1 (bool_byte m.realtime) _ ds (bool_byte_fits m.realtime)) (
              rw (read_field-be 4 m.count _ ds w.count_fits) (
                rw (read_field-be 8 m.elapsed _ ds w.elapsed_fits) (
                  rw (read_field-be 8 m.generated _ ds w.generated_fits) (
                    rw (read_field-be 8 m.acquired _ ds w.acquired_fits) (
                      rw (read_string-write_string m.reference _ ds w.reference_fits) (
                        rw (
                          read_string-write_string m.upi rest ds w.upi_fits,
                          not-zero-bool_byte m.realtime,
                        ))))))))))))

prefixed-nil : (r : Option Bytes × Stream) → prefixed [] r ≡ r
prefixed-nil (none, s) = refl
prefixed-nil (some bs, s) = refl

-- A read from an empty buffer begins in the next datagram.
read_full-next :
    (d : Bytes) (ds : List Bytes)
    → length d ≤ buffer_length
    → read_full 2 [] (d ∷ ds) ≡ read_full 2 d ds
unfolding read_full
read_full-next d ds h =
    prefixed-nil (read_full 2 (take buffer_length d) ds)
    ∙ ap (λ bs. read_full 2 bs ds) (take_whole buffer_length d h)

read_string-next :
    (d : Bytes) (ds : List Bytes)
    → length d ≤ buffer_length
    → read_string (buffered [] (d ∷ ds)) ≡ read_string (buffered d ds)
unfolding read_string
read_string-next d ds h = ap string_behind (read_full-next d ds h)

decode_message-next :
    (d : Bytes) (ds : List Bytes)
    → length d ≤ buffer_length
    → decode_message (buffered [] (d ∷ ds)) ≡ decode_message (buffered d ds)
unfolding decode_message
decode_message-next d ds h = rw (read_string-next d ds h)

decode_message-encode_message :
    (m : Message) (ds : List Bytes)
    → IsWritable m
    → length (encode_message m) ≤ buffer_length
    → decode_message (buffered [] (encode_message m ∷ ds)) ≡ (m, buffered [] ds)
decode_message-encode_message m ds w h =
    decode_message-next (encode_message m) ds h
    ∙ ap (λ bs. decode_message (buffered bs ds)) (sym (append-nil (encode_message m)))
    ∙ decode_message-buffered m [] ds w

abbrev add_datagram : Option Bytes → List Bytes → List Bytes
add_datagram none ds = ds
add_datagram (some bs) ds = bs ∷ ds

-- The datagrams that a notifier with some options sends.
abbrev pub sent : Option Options → List Message → List Bytes
sent o [] = []
sent o (m ∷ ms) = add_datagram (notify o m) (sent o ms)

-- The messages of some rounds, one for each.
abbrev pub told : ℕ → List (ℕ × Bytes) → List Message → List Event
told r [] ms = []
told r (t ∷ ts) [] = []
told r ((now, uid) ∷ ts) (m ∷ ms) = decodes r now uid m ∷ told r ts ms

accepted-IsCarried :
    (o : Option Options) (ms : List Message) → All IsCarried ms → All IsCarried (accepted o ms)
accepted-IsCarried o [] h = tt
accepted-IsCarried o (m ∷ ms) h = elim (Bool-cases (accept o m)) [
  | inl e ↦ rw e (h.0, accepted-IsCarried o ms h.1)
  | inr e ↦ rw e (accepted-IsCarried o ms h.1)
]

sent-accepted :
    (o : Option Options) (ms : List Message) → sent o ms ≡ map encode_message (accepted o ms)
unfolding notify
sent-accepted o [] = refl
sent-accepted o (m ∷ ms) = elim (Bool-cases (accept o m)) [
  | inl e ↦ rw (e, sent-accepted o ms)
  | inr e ↦ rw (e, sent-accepted o ms)
]

rounds-told :
    (r : ℕ) (ts : List (ℕ × Bytes)) (ms : List Message)
    → All IsCarried ms
    → length ts ≤ length ms
    → rounds r ts (buffered [] (map encode_message ms)) ≡ told r ts ms
unfolding rounds
rounds-told r [] ms h l = refl
rounds-told r (t ∷ ts) [] h l = absurd (omega arith)
rounds-told r ((now, uid) ∷ ts) (m ∷ ms) h l =
    rw (decode_message-encode_message m (map encode_message ms) h.0.0 h.0.1)
      (ap (λ es. decodes r now uid m ∷ es) (rounds-told r ts ms h.1 (omega arith)))

-- From the notifications to what the monitor shows: a reader of the datagrams of a notifier makes,
-- round by round, events of the messages that the options accept, in their order; so that the
-- monitor shows for each group the latest of them in each slot. The messages fit their widths and
-- the buffer of 4096 bytes.
pub rounds-sent :
    (n : ℕ) (from_epoch : ℕ → ℕ) (r : ℕ) (ts : List (ℕ × Bytes)) (o : Option Options)
    (ms : List Message)
    → All IsCarried ms
    → length ts ≤ length (accepted o ms)
    → let es = rounds r ts (record { buffer = []; datagrams = sent o ms }) in
      (es ≡ told r ts (accepted o ms))
      × Shows n from_epoch
          (run n from_epoch new_monitor es)
          (log_events n from_epoch no_logs (told r ts (accepted o ms)))
rounds-sent n from_epoch r ts o ms h l =
    let e =
      ap (λ ds. rounds r ts (buffered [] ds)) (sent-accepted o ms)
      ∙ rounds-told r ts (accepted o ms) (accepted-IsCarried o ms h) l in
    (
      e,
      subst
          (λ es.
            Shows n from_epoch (run n from_epoch new_monitor es)
              (log_events n from_epoch no_logs (told r ts (accepted o ms))))
          (sym e) (run-Shows n from_epoch (told r ts (accepted o ms))),
    )
