-- ===== src/Proto/Compressed.antt =====
-- DecodeCompressedPackets of proto.go, over the reads of a gzip.Reader. The payloads are slices of one
-- array, which each read writes to.
pub mod Overwriting
use hadock.Common.{
  ℕ, ◌+◌, ◌/◌, ◌%◌, Bool, true, false, List, [], ◌∷◌, ◌++◌, Bytes, length, take, drop, ltb,
  if◌then◌else◌,
}
use hadock.Common.Endian.{of_be}

-- How a Read of the gzip.Reader ends, with the extra field of its header: with some bytes; with
-- ErrHeader, ErrChecksum, or an error that the switch does not name; at the end of the stream.
pub data GzipRead : Type 0 where
  reads : Bytes → Bytes → GzipRead
  errs : Bytes → GzipRead
  ends : GzipRead

-- A packet that was sent: its payload is the front of the array.
pub record View : Type 0 where
  pub version : ℕ
  pub instance_id : ℕ
  pub size : ℕ

pub data Phase : Type 0 where
  running returned panicked : Phase

-- The array bs, the length of vs, and what was sent.
pub record Decoder : Type 0 where
  pub array : Bytes
  pub size : ℕ
  pub sent : List View
  pub phase : Phase

-- A decoder at its beginning, where the array has zero bytes alone.
abbrev pub new_decoder : Bytes → Decoder
new_decoder bs = record { array = bs; size = 0; sent = []; phase = running }

abbrev pub payload_of : Bytes → View → Bytes
payload_of array v = take v.size array

-- Read: the bytes are copied to the front of the array.
abbrev pub overwrite : Bytes → Bytes → Bytes
overwrite bs array = bs ++ drop (length bs) array

abbrev pub view_of : Bytes → ℕ → View
view_of extra n =
    let version = of_be (take 2 extra) in
    record { version = version / 256 % 16; instance_id = version % 256; size = n }

-- What is behind the switch. binary.BigEndian.Uint16 panics where there are not two bytes.
unfoldable pub send_packet : Bytes → Decoder → Decoder
send_packet extra s =
    if ltb (length extra) 2
    then record s { phase = panicked }
    else record s { sent = s.sent ++ (view_of extra s.size ∷ []) }

-- A round of the loop. At the end of the stream it returns, and leaves the channel open.
unfoldable pub step_running : GzipRead → Decoder → Decoder
step_running (reads bs extra) s =
    send_packet extra (record s { array = overwrite bs s.array; size = length bs })
step_running (errs extra) s = send_packet extra s
step_running ends s = record s { phase = returned }

step_in : Phase → GzipRead → Decoder → Decoder
step_in running r s = step_running r s
step_in returned r s = s
step_in panicked r s = s

unfoldable pub step : Decoder → GzipRead → Decoder
unfolding step_in
step s r = step_in s.phase r s

unfoldable pub run : Decoder → List GzipRead → Decoder
run s [] = s
run s (r ∷ rs) = run (step s r) rs
