-- ===== src/Hdk2udp/Relay/Delivery.antt =====
-- From the notifications to the parameters.
use hadock.Common.{
  ℕ, suc, ◌+◌, ◌%◌, ◌≡◌, ◌≤◌, refl, ap, sym, subst, ◌∙◌, false, Option, none, some, List, [], ◌∷◌,
  ◌++◌, append-nil, map, Bytes, length, take, take_whole, All, ◌<◌, ◌==◌, if◌then◌else◌, Bool-cases,
  inl, inr, arith,
}
use hadock.Common.Endian.{be}
use hadock.Hdk2udp.Parameters.{ParameterData, parameter_data}
use hadock.Hdk2udp.Parameters.Reading.{message_of_parameters, message_of_parameters-parameter_data}
use hadock.Hdk2udp.Relay.{
  Channel, goes_out, Turn, new_sender, prepare, queue_decoded, queued, send_to,
}
use hadock.Hdk2udp.Relay.Losses.{arrivals_from, send_to-arrivals_from}
use hadock.Notifier.{Message, Options, write_string, encode_message, accept, notify}
use hadock.Notifier.Codec.{IsWritable, decode_message-encode_message}
use hadock.Storage.Paths.{Calendar}
use mathlib.Core.Option

abbrev pub queue_datagram : Option Bytes → List (Option Bytes) → List (Option Bytes)
queue_datagram none ds = ds
queue_datagram (some bs) ds = some bs ∷ ds

-- The datagrams of some notifications.
abbrev pub notified : Option Options → List Message → List (Option Bytes)
notified o [] = []
notified o (m ∷ ms) = let rest = notified o ms in queue_datagram (notify o m) rest

abbrev pub accepted : Option Options → List Message → List Message
accepted o [] = []
accepted o (m ∷ ms) = let rest = accepted o ms in if accept o m then m ∷ rest else rest

-- Messages that a datagram can carry to the reader's buffer.
abbrev pub IsCarried : Message → Type 0
IsCarried m = IsWritable m × (length (encode_message m) ≤ 4096)

suc-nonzero : (k : ℕ) → (suc k == 0) ≡ false
suc-nonzero k = ground arith

encode_message-nonempty : (m : Message) → (length (encode_message m) == 0) ≡ false
unfolding encode_message write_string be
encode_message-nonempty m = suc-nonzero _

module _ (join : Bytes → Bytes → Bytes) (cal : Calendar) (generation_time : ℕ → ℕ)
    (c : Channel) where
  abbrev pub prepared : Message → Message
  prepared m = record m { reference = prepare join cal generation_time c m }

  queued-encode_message :
      (m : Message) (ds : List (Option Bytes))
      → IsCarried m
      → queued join cal generation_time c (some (encode_message m) ∷ ds)
        ≡ prepared m ∷ queued join cal generation_time c ds
  unfolding queued queue_decoded
  queued-encode_message m ds (w, h) =
      let t : take 4096 (encode_message m) ≡ encode_message m ++ [] =
        take_whole 4096 (encode_message m) h ∙ sym (append-nil (encode_message m)) in
      rw (encode_message-nonempty m, t, decode_message-encode_message m [] w)

  queued-notified :
      (o : Option Options) (ms : List Message)
      → All IsCarried ms
      → queued join cal generation_time c (notified o ms) ≡ map prepared (accepted o ms)
  unfolding notify queued
  queued-notified o [] h = refl
  queued-notified o (m ∷ ms) h = elim (Bool-cases (accept o m)) [
    | inl e ↦ rw e (
        queued-encode_message m (notified o ms) h.0
        ∙ ap (λ xs. prepared m ∷ xs) (queued-notified o ms h.1))
    | inr e ↦ rw e (queued-notified o ms h.1)
  ]

  accepted-channels :
      (o : Option Options) (ms : List Message)
      → All IsCarried ms
      → All (λ m. m.channel < 256) (map prepared (accepted o ms))
  accepted-channels o [] h = tt
  accepted-channels o (m ∷ ms) h = elim (Bool-cases (accept o m)) [
    | inl e ↦ rw e (h.0.0.channel_fits, accepted-channels o ms h.1)
    | inr e ↦ rw e (accepted-channels o ms h.1)
  ]

-- proto.Marshal encodes all parameters, and `parse` has them back.
pub record IsCodec (encode : ParameterData → Option Bytes) (parse : Bytes → Option ParameterData)
    : Type 0 where
  pub bytes_of : ParameterData → Bytes
  pub encodes : (d : ParameterData) → encode d ≡ some (bytes_of d)
  pub parses : (d : ParameterData) → parse (bytes_of d) ≡ some d

-- The messages under the numbers from k on, without their times.
abbrev pub numbered : ℕ → List Message → List (Option (ℕ × Message))
numbered k [] = []
numbered k (m ∷ ms) =
    some (k % 65536, record m { generated = 0; acquired = 0 }) ∷ numbered (k + 1) ms

-- What a reader has of what arrives: the sequence number and the message.
abbrev pub read_arrived :
    (Bytes → Option ParameterData) → (ℕ → ℕ) → ℕ × Bytes → Option (ℕ × Message)
read_arrived parse channel_of (c, bs) =
    Option.map (λ d. (d.seq_num, message_of_parameters channel_of d)) (parse bs)

module _ (channel_int32 channel_of acquisition_time generation_time : ℕ → ℕ)
    (encode : ParameterData → Option Bytes) (parse : Bytes → Option ParameterData) where
  parameter_data-seq_num :
      (now : ℕ) (m : Message) (n : Bytes) (i : ℕ)
      → (parameter_data channel_int32 acquisition_time generation_time now m n i).seq_num ≡ i
  unfolding parameter_data
  parameter_data-seq_num now m n i = refl

  arrivals_from-numbered :
      (n : Bytes) (k c : ℕ) (ts : List Turn)
      → IsCodec encode parse
      → ((x : ℕ) → x < 256 → channel_of (channel_int32 x) ≡ x)
      → All (λ t. t.attempt ≡ goes_out) ts
      → All (λ m. m.channel < 256) (map (λ t. t.message) ts)
      → map
          (read_arrived parse channel_of)
          (arrivals_from channel_int32 acquisition_time generation_time encode n k c ts)
        ≡ numbered k (map (λ t. t.message) ts)
  arrivals_from-numbered n k c [] q hc ha hm = refl
  arrivals_from-numbered n k c (t ∷ ts) q hc ha hm =
      let d =
        parameter_data channel_int32 acquisition_time generation_time t.now t.message n
          (k % 65536) in
      let e =
        message_of_parameters-parameter_data channel_int32 acquisition_time generation_time
          channel_of t.now t.message n (k % 65536) (hc t.message.channel hm.0) in
      let ih = arrivals_from-numbered n (k + 1) c ts q hc ha.1 hm.1 in
      let number = parameter_data-seq_num t.now t.message n (k % 65536) in
      let same : c + 0 ≡ c = omega arith in rw (q.encodes d, ha.0, q.parses d, e, number, same, ih)

-- From the notifications to the parameters, where no write fails: a reader of the parameters has the
-- messages that the options of the notifier accept, in their order, with the references that hdk2udp
-- prepares and without their two times, numbered from 1 modulo 2 ^ 16. The messages fit their widths
-- and the buffer of 4096 bytes, an int32 of a channel tells which channel it is, and what is encoded
-- can be parsed.
pub send_to-notified :
    (join : Bytes → Bytes → Bytes) (cal : Calendar)
    → (channel_int32 channel_of acquisition_time generation_time : ℕ → ℕ)
    → (encode : ParameterData → Option Bytes) (parse : Bytes → Option ParameterData)
    → (c : Channel) (o : Option Options) (ms : List Message) (ts : List Turn) → IsCodec encode parse
    → ((x : ℕ) → x < 256 → channel_of (channel_int32 x) ≡ x)
    → All IsCarried ms
    → map (λ t. t.message) ts ≡ queued join cal generation_time c (notified o ms)
    → All (λ t. t.attempt ≡ goes_out) ts
    → map
        (read_arrived parse channel_of)
        (send_to channel_int32 acquisition_time generation_time encode c.name ts new_sender).arrived
      ≡ numbered 1 (map (prepared join cal generation_time c) (accepted o ms))
send_to-notified join cal channel_int32 channel_of acquisition_time generation_time encode parse c o
      ms ts q hc hm ht ha =
    let e = ht ∙ queued-notified join cal generation_time c o ms hm in
    let channels =
      subst (All (λ m. m.channel < 256)) (sym e)
        (accepted-channels join cal generation_time c o ms hm) in
    ap (map (read_arrived parse channel_of))
      (send_to-arrivals_from channel_int32 acquisition_time generation_time encode c.name ts).0
    ∙ arrivals_from-numbered channel_int32 channel_of acquisition_time generation_time encode parse
        c.name 1 0 ts q hc ha channels
    ∙ ap (numbered 1) e
