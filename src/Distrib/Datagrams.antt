-- ===== src/Distrib/Datagrams.antt =====
-- decodeMessage and readString of distrib/monitor.go, over a bufio.Reader whose source gives a datagram at
-- each read; and what Monitor makes of it. A source without a datagram refuses to read.
pub mod Messages
use hadock.Common.{
  ℕ, zero, suc, ◌+◌, ◌-◌, Bool, true, false, not, Option, none, some, List, [], ◌∷◌, ◌++◌, Bytes,
  length, take, drop, replicate, leb, ◌==◌, if◌then◌else◌,
}
use hadock.Common.Endian.{of_be}
use hadock.Notifier.{Message}
use hadock.Distrib.Monitor.{Event, decodes}

-- What is buffered, and the datagrams that are still to come.
pub record Stream : Type 0 where
  pub buffer : Bytes
  pub datagrams : List Bytes

-- The default size of a bufio.Reader: the rest of a longer datagram is lost.
abbrev pub buffer_length : ℕ
buffer_length = 4096

-- io.ReadFull of n bytes, which are fewer than the buffer takes: it goes on in the next datagram.
unfoldable pub read_from : ℕ → Bytes → List Bytes → Option Bytes × Stream
read_from n buf ds =
    if leb n (length buf)
    then (some (take n buf), record { buffer = drop n buf; datagrams = ds })
    else (none, record { buffer = []; datagrams = ds })

abbrev pub prefixed : Bytes → Option Bytes × Stream → Option Bytes × Stream
prefixed bs (none, s) = (none, s)
prefixed bs (some cs, s) = (some (bs ++ cs), s)

unfoldable pub read_full : ℕ → Bytes → List Bytes → Option Bytes × Stream
read_full n buf [] = read_from n buf []
read_full n buf (d ∷ ds) =
    let rest = read_full (n - length buf) (take buffer_length d) ds in
    if leb n (length buf) then read_from n buf (d ∷ ds) else prefixed buf rest

-- One Read into n bytes: of what is buffered, or else of the next datagram; and directly of it where n is
-- not below the size of the buffer.
abbrev pub read_datagram : ℕ → List Bytes → Option Bytes × Stream
read_datagram n [] = (none, record { buffer = []; datagrams = [] })
read_datagram n (d ∷ ds) =
    if leb buffer_length n then (some (take n d), record { buffer = []; datagrams = ds }) else (
      some (take n (take buffer_length d)),
      record { buffer = drop n (take buffer_length d); datagrams = ds },
    )

unfoldable pub read_once : ℕ → Bytes → List Bytes → Option Bytes × Stream
read_once zero buf ds = (some [], record { buffer = buf; datagrams = ds })
read_once (suc n) [] ds = read_datagram (suc n) ds
read_once (suc n) (b ∷ buf) ds =
    (some (take (suc n) (b ∷ buf)), record { buffer = drop (suc n) (b ∷ buf); datagrams = ds })

abbrev pub number_or_zero : Option Bytes → ℕ
number_or_zero none = 0
number_or_zero (some bs) = of_be bs

-- A binary.Read into a field of k bytes that is zero.
unfoldable pub read_field : ℕ → Stream → ℕ × Stream
read_field k s = let r = read_full k s.buffer s.datagrams in (number_or_zero r.0, r.1)

-- string(bs), for bs of z bytes into which a Read put some.
abbrev pub padded_to : ℕ → Option Bytes → Bytes
padded_to z none = []
padded_to z (some bs) = bs ++ replicate (z - length bs) 0

abbrev pub string_behind : Option Bytes × Stream → Bytes × Stream
string_behind (none, s) = ([], s)
string_behind (some z, s) =
    let r = read_once (of_be z) s.buffer s.datagrams in (padded_to (of_be z) r.0, r.1)

-- readString, whose error is dropped.
unfoldable pub read_string : Stream → Bytes × Stream
read_string s = string_behind (read_full 2 s.buffer s.datagrams)

-- decodeMessage. It never returns an error.
unfoldable pub decode_message : Stream → Message × Stream
decode_message s =
    let origin = read_string s in
    let sequence = read_field 4 origin.1 in
    let instance_id = read_field 4 sequence.1 in
    let channel = read_field 1 instance_id.1 in
    let realtime = read_field 1 channel.1 in
    let count = read_field 4 realtime.1 in
    let elapsed = read_field 8 count.1 in
    let generated = read_field 8 elapsed.1 in
    let acquired = read_field 8 generated.1 in
    let reference = read_string acquired.1 in
    let upi = read_string reference.1 in
    (
      record {
        origin = origin.0;
        sequence = sequence.0;
        instance_id = instance_id.0;
        channel = channel.0;
        realtime = not (realtime.0 == 0);
        count = count.0;
        elapsed = elapsed.0;
        generated = generated.0;
        acquired = acquired.0;
        reference = reference.0;
        upi = upi.0;
      },
      upi.1,
    )

-- The rounds of Monitor for reader r, each with its time and uid.
unfoldable pub rounds : ℕ → List (ℕ × Bytes) → Stream → List Event
rounds r [] s = []
rounds r ((now, uid) ∷ ts) s = let d = decode_message s in decodes r now uid d.0 ∷ rounds r ts d.1
