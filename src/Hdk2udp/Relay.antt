-- ===== src/Hdk2udp/Relay.antt =====
-- channel.Run, channel.Prepare, sendTo and conn.Write of cmd/hdk2udp/main.go: the messages that come in as
-- datagrams go out as parameters. The datagrams of all groups are one sequence, in the order in which
-- the goroutines queue their messages.
pub mod Delivery
pub mod Losses
use hadock.Common.{
  ℕ, ◌+◌, Bool, true, false, Option, none, some, List, [], ◌∷◌, ◌++◌, Bytes, length, take, ◌==◌,
  if◌then◌else◌, u16,
}
use hadock.Common.Reader.{Result, ok, err}
use hadock.Common.Texts.{codes}
use hadock.Hdk2udp.{reference_dir}
use hadock.Hdk2udp.Parameters.{ParameterData, parameter_data}
use hadock.Notifier.{Message, decode_message}
use hadock.Storage.Paths.{Calendar}

-- type channel struct, without its addresses
pub record Channel : Type 0 where
  pub name : Bytes
  pub prefix : Bytes
  pub time : Bytes
  pub interval : ℕ
  pub levels : List Bytes

-- The default of main for the levels.
abbrev pub or_levels : List Bytes → List Bytes
or_levels [] = codes "classic" ∷ codes "vmu" ∷ []
or_levels (n ∷ ns) = n ∷ ns

-- strings.HasPrefix(ref, "/") and what follows it.
unfoldable pub rooted : Bytes → Bytes
rooted [] = codes "/"
rooted (b ∷ bs) = if b == 47 then b ∷ bs else 47 ∷ (b ∷ bs)

-- How a call of c.Conn.Write ends: well; by an error that is temporary, or none of package net; or by
-- another, with the news whether net.Dial makes a new connection.
pub data Attempt : Type 0 where
  goes_out : Attempt
  fails : Attempt
  breaks : Bool → Attempt

-- The message of a turn of sendTo, with the time and the end of the write.
pub record Turn : Type 0 where
  pub message : Message
  pub now : ℕ
  pub attempt : Attempt

-- The variable i of sendTo, the connection by its number among those that were made, what arrived over
-- which connection, the connections that were closed, and the errors that were logged, by i.
pub record Sender : Type 0 where
  pub i : ℕ
  pub connection : ℕ
  pub arrived : List (ℕ × Bytes)
  pub closed : List ℕ
  pub marshal_errors : List ℕ
  pub write_errors : List ℕ

abbrev pub new_sender : Sender
new_sender = record {
  i = 0;
  connection = 0;
  arrived = [];
  closed = [];
  marshal_errors = [];
  write_errors = [];
}

-- conn.Write: whether it returns an error.
unfoldable pub write : Attempt → Bytes → Sender → Bool × Sender
write goes_out bs s = (false, record s { arrived = s.arrived ++ ((s.connection, bs) ∷ []) })
write fails bs s = (false, s)
write (breaks false) bs s = (false, s)
write (breaks true) bs s =
    (false, record s { connection = s.connection + 1; closed = s.closed ++ (s.connection ∷ []) })

log_write : Bool × Sender → Sender
log_write (true, s) = record s { write_errors = s.write_errors ++ (s.i ∷ []) }
log_write (false, s) = s

-- The reader of a group: `join` and `cal` as for the references, `generation_time` of panda.
module _ (join : Bytes → Bytes → Bytes) (cal : Calendar) (generation_time : ℕ → ℕ) where
  -- Prepare
  unfoldable pub prepare : Channel → Message → Bytes
  prepare c m = rooted (
      join
        (reference_dir join cal generation_time c.prefix (or_levels c.levels) c.time c.interval m)
        m.reference)

  queue_decoded : Channel → Result Message → List Message → List Message
  queue_decoded c (ok m) ms = record m { reference = prepare c m } ∷ ms
  queue_decoded c (err e) ms = ms

  -- The loop of the goroutine in Run: `none` is an error of Read. A datagram is cut to the buffer.
  unfoldable pub queued : Channel → List (Option Bytes) → List Message
  unfolding queue_decoded
  queued c [] = []
  queued c (none ∷ ds) = queued c ds
  queued c (some bs ∷ ds) =
      let rest = queued c ds in
      if length bs == 0 then rest else queue_decoded c (decode_message (take 4096 bs)).0 rest

-- `encode` is proto.Marshal.
module _ (channel_int32 acquisition_time generation_time : ℕ → ℕ)
    (encode : ParameterData → Option Bytes) where
  send_marshalled : Option Bytes → Attempt → Sender → Sender
  unfolding log_write
  send_marshalled none a s = record s { marshal_errors = s.marshal_errors ++ (s.i ∷ []) }
  send_marshalled (some bs) a s = log_write (write a bs s)

  -- A round of the loop of sendTo.
  unfoldable pub send_turn : Bytes → Turn → Sender → Sender
  unfolding send_marshalled
  send_turn n t s =
      let i = u16 (s.i + 1) in
      send_marshalled
        (encode (parameter_data channel_int32 acquisition_time generation_time t.now t.message n i))
        t.attempt (record s { i = i })

  -- sendTo
  unfoldable pub send_to : Bytes → List Turn → Sender → Sender
  send_to n [] s = s
  send_to n (t ∷ ts) s = send_to n ts (send_turn n t s)
