-- ===== src/Notifier/Codec.antt =====
-- Messages that are sent are read back.
use hadock.Common.{
  ℕ, ◌^◌, ◌<◌, ◌≡◌, refl, Bool, true, false, not, ◌++◌, arith, Bytes, length, ◌==◌, u16,
  append_assoc,
}
use hadock.Common.Endian.{be}
use hadock.Common.Reader.{ok, pure, ◌>>=◌, read_be-be, read_full-append}
use hadock.Notifier.{
  Message, bool_byte, write_string, encode_message, read_string, read_or, decode_message,
}

-- The fields fit their widths.
pub record IsWritable (m : Message) : Type 0 where
  pub origin_fits : length m.origin < 65536
  pub sequence_fits : m.sequence < 2 ^ 32
  pub instance_fits : m.instance_id < 2 ^ 32
  pub channel_fits : m.channel < 256
  pub count_fits : m.count < 2 ^ 32
  pub elapsed_fits : m.elapsed < 2 ^ 64
  pub generated_fits : m.generated < 2 ^ 64
  pub acquired_fits : m.acquired < 2 ^ 64
  pub reference_fits : length m.reference < 65536
  pub upi_fits : length m.upi < 65536

read_string-write_string :
    (bs rest : Bytes) → length bs < 65536 → read_string (write_string bs ++ rest) ≡ (ok bs, rest)
unfolding read_string write_string ◌>>=◌
read_string-write_string bs rest h =
    let e : u16 (length bs) ≡ length bs = omega arith in
    rw (append_assoc (be 2 (u16 (length bs))) bs rest, e)
      (rw (read_be-be 2 (length bs) (bs ++ rest) h) (read_full-append bs rest (length bs) refl))

read_or-be : (d k v : ℕ) (rest : Bytes) → v < 256 ^ k → read_or d k (be k v ++ rest) ≡ (ok v, rest)
unfolding read_or
read_or-be d k v rest h = rw (read_be-be k v rest h, read_or) (rw (read_be-be k v rest h))

bool_byte_fits : (b : Bool) → bool_byte b < 256
bool_byte_fits b = ground arith

not-zero-bool_byte : (b : Bool) → not (bool_byte b == 0) ≡ b
not-zero-bool_byte true = refl
not-zero-bool_byte false = refl

-- The decoder reads back the message that was encoded, and leaves what follows it.
pub decode_message-encode_message :
    (m : Message) (rest : Bytes)
    → IsWritable m
    → decode_message (encode_message m ++ rest) ≡ (ok m, rest)
unfolding decode_message encode_message ◌>>=◌ pure
decode_message-encode_message m rest w = simp append_assoc (
    rw (read_string-write_string m.origin _ w.origin_fits) (
      rw (read_or-be 0 4 m.sequence _ w.sequence_fits) (
        rw (read_or-be 0 4 m.instance_id _ w.instance_fits) (
          rw (read_or-be 0 1 m.channel _ w.channel_fits) (
            rw (read_or-be 0 1 (bool_byte m.realtime) _ (bool_byte_fits m.realtime)) (
              rw (read_or-be 0 4 m.count _ w.count_fits) (
                rw (read_or-be 0 8 m.elapsed _ w.elapsed_fits) (
                  rw (read_or-be 0 8 m.generated _ w.generated_fits) (
                    rw (read_or-be 0 8 m.acquired _ w.acquired_fits) (
                      rw (read_string-write_string m.reference _ w.reference_fits) (
                        rw (
                          read_string-write_string m.upi rest w.upi_fits,
                          not-zero-bool_byte m.realtime,
                        ))))))))))))
