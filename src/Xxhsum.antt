-- ===== src/Xxhsum.antt =====
-- plugins/xxhsum/sum.go: a module that prints checksums of packets. The hashes are github.com/midbel/xxh's,
-- and the bytes of a packet panda's: parameters.
use hadock.Common.{ℕ, Option, none, some, List, [], ◌∷◌, ◌++◌, Bytes, ◌==◌, if◌then◌else◌, u32, u64}
use hadock.Panda.{HrPacket}

-- digest32 and digest64, with their seeds.
pub data Digest : Type 0 where
  digest32 digest64 : ℕ → Digest

-- New, behind its configuration, for c.Alg and c.Seed: none is an error.
unfoldable pub new_digest : ℕ → ℕ → Option Digest
new_digest alg seed =
    if alg == 32
    then some (digest32 (u32 seed))
    else if alg == 64
    then some (digest64 (u64 seed))
    else none

-- A line that is printed: the time, the sequence number and the checksum.
pub record Line : Type 0 where
  pub timestamp : ℕ
  pub sequence : ℕ
  pub sum : ℕ

pub data SumError : Type 0 where
  no_bytes empty_payload : SumError

-- `bytes_of` is the method Bytes of a packet, `sum32` and `sum64` take the bytes and the seed.
module _ (bytes_of : HrPacket → Option Bytes) (sum32 sum64 : Bytes → ℕ → ℕ) where
  abbrev pub hash : Digest → Bytes → ℕ
  hash (digest32 seed) bs = sum32 bs seed
  hash (digest64 seed) bs = sum64 bs seed

  abbrev pub print_sum : Digest → HrPacket → Option Bytes → List Line → Option SumError × List Line
  print_sum d p none ls = (some no_bytes, ls)
  print_sum d p (some []) ls = (some empty_payload, ls)
  print_sum d p (some (b ∷ bs)) ls = (
    none,
    ls ++ (record { timestamp = p.timestamp; sequence = p.sequence; sum = hash d (b ∷ bs) } ∷ []),
  )

  -- Process of both digests, with what is printed.
  unfoldable pub process_sum : Digest → ℕ → HrPacket → List Line → Option SumError × List Line
  process_sum d i p ls = print_sum d p (bytes_of p) ls
