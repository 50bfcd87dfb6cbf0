-- ===== src/Notifier.antt =====
-- notifier.go: the messages that tell of stored packets, and the options that choose among them.
-- Signed integers (int32, int64, time.Duration) stand by their two's complement bit patterns.
pub mod Accept
pub mod Codec
pub mod Pool
use hadock.Common.{
  ℕ, ◌+◌, ◌≡◌, Bool, true, false, not, ◌&&◌, ◌||◌, Option, none, some, List, [], ◌∷◌, ◌++◌, arith,
  Bytes, length, ltb, leb, ◌==◌, if◌then◌else◌, u16,
}
use hadock.Common.Endian.{be}
use hadock.Common.Reader.{Result, ok, err, Reader, pure, ◌>>=◌, read_full, read_be}
use hadock.Common.Search.{found}

-- type Message struct. Strings are their bytes.
pub record Message : Type 0 where
  pub origin : Bytes
  pub sequence : ℕ
  pub instance_id : ℕ
  pub channel : ℕ
  pub realtime : Bool
  pub count : ℕ
  pub elapsed : ℕ
  pub generated : ℕ
  pub acquired : ℕ
  pub reference : Bytes
  pub upi : Bytes

abbrev pub bool_byte : Bool → ℕ
bool_byte b = if b then 1 else 0

-- A string behind its length, which is cut to 16 bits.
unfoldable pub write_string : Bytes → Bytes
write_string bs = be 2 (u16 (length bs)) ++ bs

-- What Notify sends of a message that is accepted.
unfoldable pub encode_message : Message → Bytes
encode_message m =
    write_string m.origin
    ++ (be 4 m.sequence
        ++ (be 4 m.instance_id
            ++ (be 1 m.channel
                ++ (be 1 (bool_byte m.realtime)
                    ++ (be 4 m.count
                        ++ (be 8 m.elapsed
                            ++ (be 8 m.generated
                                ++ (be 8 m.acquired
                                    ++ (write_string m.reference ++ write_string m.upi)))))))))

-- The closure readString of DecodeMessage.
unfoldable pub read_string : Reader Bytes
read_string = do z ← read_be 2; read_full z

-- A binary.Read whose error is dropped: the variable keeps the value that it has.
unfoldable pub read_or : ℕ → ℕ → Reader ℕ
read_or d k r = elim (read_be k r).0 [
  | ok v ↦ (ok v, (read_be k r).1)
  | err e ↦ (ok d, (read_be k r).1)
]

-- The messages that DecodeMessage returns beside an error are not used by its callers.
unfoldable pub decode_message : Reader Message
decode_message = do
  origin ← read_string
  sequence ← read_or 0 4
  instance_id ← read_or 0 4
  channel ← read_or 0 1
  realtime ← read_or 0 1
  count ← read_or 0 4
  elapsed ← read_or 0 8
  generated ← read_or 0 8
  acquired ← read_or 0 8
  reference ← read_string
  upi ← read_string
  pure (record {
    origin = origin;
    sequence = sequence;
    instance_id = instance_id;
    channel = channel;
    realtime = not (realtime == 0);
    count = count;
    elapsed = elapsed;
    generated = generated;
    acquired = acquired;
    reference = reference;
    upi = upi;
  })

-- The values of Options.Source that Accept knows, and any other.
pub data Source : Type 0 where
  realtime playback any_source unknown_source : Source

-- type Options struct
pub record Options : Type 0 where
  pub source : Source
  pub instance_id : ℕ
  pub channels : List ℕ

-- o.Instance >= 0, of an int32
abbrev pub is_negative : ℕ → Bool
is_negative i = leb 2147483648 i

unfoldable pub accepts_source : Source → Message → Bool
accepts_source realtime m = m.realtime
accepts_source playback m = not m.realtime
accepts_source any_source m = true
accepts_source unknown_source m = false

-- The search asks for channels[i] <= c: it is made for channels in descending order.
unfoldable pub accepts_channel : List ℕ → ℕ → Bool
accepts_channel cs c = not (ltb 0 (length cs) && not (found ◌==◌ (λ a b. leb b a) 0 c cs))

-- Accept: `none` are the nil options, which accept all. The errors are told apart by their text alone.
unfoldable pub accept : Option Options → Message → Bool
unfolding accepts_source accepts_channel
accept none m = true
accept (some o) m =
    if not (is_negative o.instance_id) && not (o.instance_id == m.instance_id)
    then false
    else if accepts_channel o.channels m.channel
    then accepts_source o.source m
    else false

-- Notify of the UDP notifier: what it sends.
unfoldable pub notify : Option Options → Message → Option Bytes
notify o m = if accept o m then some (encode_message m) else none
