-- ===== src/TcpProxy.antt =====
-- proxy.go: what is written is passed on by TCP, compressed or as it is, over a connection that is made
-- anew when a write fails for good.
pub mod Plain
use hadock.Common.{
  ℕ, ◌+◌, Bool, true, false, Option, none, some, List, [], ◌∷◌, ◌++◌, Bytes, take, ◌||◌,
  if◌then◌else◌,
}
use hadock.Common.Texts.{codes, text_eq}
use hadock.Hdk2udp.Relay.{Attempt, goes_out, fails, breaks}

-- The levels of compress/gzip.
pub data Level : Type 0 where
  no_compression best_speed best_compression default_compression : Level

-- The switch of DialProxy.
unfoldable pub gzip_level : Bytes → Option Level
gzip_level e =
    if text_eq e (codes "no")
    then some no_compression
    else if text_eq e (codes "speed")
    then some best_speed
    else if text_eq e (codes "best")
    then some best_compression
    else if text_eq e (codes "default")
    then some default_compression
    else none

-- A Write: how that of the writer ends (by the errors that conn.Write of cmd/hdk2udp tells apart as well),
-- whether Flush sends anything behind it, and how many bytes the connection has taken where it fails.
pub record Event : Type 0 where
  pub bytes : Bytes
  pub attempt : Attempt
  pub flushes : Bool
  pub taken : ℕ

-- The field writer: a connection by its number, or a gzip.Writer in a state of G that writes to it.
pub data Writer (G : Type 0) : Type 0 where
  plain : ℕ → Writer G
  zipped : ℕ → G → Writer G

-- type proxy struct, with the connections that were closed, and what was sent over which connection.
pub record Proxy (G : Type 0) : Type 0 where
  pub conn : ℕ
  pub level : Level
  pub writer : Writer G
  pub closed : List ℕ
  pub sent : List (ℕ × Bytes)

-- Whether a writer has Flush, which a connection has not.
abbrev pub is_flusher : {G : Type 0} → Writer G → Bool
is_flusher (plain c) = false
is_flusher (zipped c g) = true

-- `new_writer` is gzip.NewWriterLevel, and `deflate` is a Write of its result followed by Flush, with what
-- these send.
module _ {G : Type 0} (new_writer : Level → G) (deflate : G → Bytes → G × Bytes) where
  -- DialProxy, of a connection that is made. Without compression the level stays zero, which is
  -- NoCompression.
  abbrev pub with_level : Option Level → Proxy G
  with_level none = record {
    conn = 0;
    level = no_compression;
    writer = plain 0;
    closed = [];
    sent = [];
  }
  with_level (some l) = record {
    conn = 0;
    level = l;
    writer = zipped 0 (new_writer l);
    closed = [];
    sent = [];
  }

  unfoldable pub dial_proxy : Bytes → Proxy G
  dial_proxy e = with_level (gzip_level e)

  -- The new connection takes the place of the old one and of the writer, before the writer is asked
  -- for Flush.
  unfoldable pub reconnect : Proxy G → Proxy G
  reconnect p =
      let c = p.conn + 1 in
      record p {
        conn = c;
        writer = if is_flusher {G = G} (plain c) then zipped c (new_writer p.level) else plain c;
        closed = p.closed ++ (p.conn ∷ []);
      }

  -- The writer takes the bytes.
  unfoldable pub pass_on : Writer G → Bytes → Bool → Proxy G → Proxy G
  pass_on (plain c) bs flushes p = record p { sent = p.sent ++ ((c, bs) ∷ []) }
  pass_on (zipped c g) bs flushes p =
      let r = deflate g bs in
      record p { writer = zipped c r.0; sent = p.sent ++ (if flushes then (c, r.1) ∷ [] else []) }

  -- What the connection took of a write that failed.
  abbrev pub pass_part : Writer G → Bytes → ℕ → Proxy G → Proxy G
  pass_part (plain c) bs n p = record p { sent = p.sent ++ ((c, take n bs) ∷ []) }
  pass_part (zipped c g) bs n p =
      let r = deflate g bs in
      record p { writer = zipped c r.0; sent = p.sent ++ ((c, take n r.1) ∷ []) }

  write_as : Attempt → Event → Proxy G → Proxy G
  write_as goes_out e p = pass_on p.writer e.bytes e.flushes p
  write_as fails e p = pass_part p.writer e.bytes e.taken p
  write_as (breaks false) e p = pass_part p.writer e.bytes e.taken p
  write_as (breaks true) e p = reconnect (pass_part p.writer e.bytes e.taken p)

  -- Write. It always reports that all bytes were written, and drops the error of Flush.
  unfoldable pub write : Event → Proxy G → Proxy G
  unfolding write_as
  write e p = write_as e.attempt e p

  unfoldable pub run : Proxy G → List Event → Proxy G
  run p [] = p
  run p (e ∷ es) = run (write e p) es
