-- ===== src/Replay.antt =====
-- cmd/hadock/replay.go: packets of an archive sent in the hadock protocol.
-- Sum1071Bis, of a package that is not in the repository, is a parameter.
pub mod Delivery
pub mod Fragments
pub mod Reassembly
pub mod Walk
pub mod Whole
use hadock.Common.{
  ℕ, zero, suc, ◌+◌, ◌*◌, ◌/◌, ◌%◌, ◌≡◌, refl, Bool, true, false, Option, none, some, List, [], ◌∷◌,
  ◌++◌, arith, Bytes, length, take, drop, ◌==◌, leb, if◌then◌else◌, u16, u32, u64,
}
use hadock.Common.Endian.{be}
use hadock.Proto.{preamble, hadock_version_1, hadock_version_2}
use Prim.Native.Nat.{bit_or}

-- type replay struct. A `size` of 0 stands for every s <= 0.
pub record Replay : Type 0 where
  pub size : ℕ
  pub counter : ℕ
  pub version : ℕ

-- uint16(p)<<12 | uint16(t)<<8 | uint16(m), in Replay
unfoldable pub version_word : ℕ → ℕ → ℕ → ℕ
version_word p t m = bit_or (bit_or (u16 (u16 p * 4096)) (u16 (u16 t * 256))) (u16 m)

-- Replay, behind the dial.
unfoldable pub new_replay : ℕ → ℕ → ℕ → Replay
new_replay s t m =
    let p = if s == 0 then hadock_version_1 else hadock_version_2 in
    record { size = s; counter = 0; version = version_word p t m }

-- The bytes that the digest of preparePacketV1 covers.
unfoldable pub packet_head : Replay → Bytes → Bytes
packet_head r bs =
    be 4 preamble ++ (be 2 r.version ++ (be 2 r.counter ++ (be 4 (u32 (length bs)) ++ bs)))

-- How one io.Copy to the connection ends: whole, or by an error behind n bytes. The flag says that the
-- error is a net.Error which is not temporary.
pub data Outcome : Type 0 where
  whole : Outcome
  failed : ℕ → Bool → Outcome

-- The connection: what it received, and how the next copies end. (With no outcomes left they end
-- well.)
pub record Conn : Type 0 where
  pub received : Bytes
  pub outcomes : List Outcome

-- The result of Write: the count, and `some fatal` for an error.
pub record Written : Type 0 where
  pub conn : Conn
  pub count : ℕ
  pub error : Option Bool

copy_outcome : Conn → Bytes → List Outcome → Written
copy_outcome c bs [] = record {
  conn = record c { received = c.received ++ bs };
  count = length bs;
  error = none;
}
copy_outcome c bs (whole ∷ os) = record {
  conn = record { received = c.received ++ bs; outcomes = os };
  count = length bs;
  error = none;
}
copy_outcome c bs (failed n fatal ∷ os) = record {
  conn = record { received = c.received ++ take n bs; outcomes = os };
  count = length (take n bs);
  error = some fatal;
}

-- io.Copy(r.inner, w)
unfoldable pub copy : Conn → Bytes → Written
unfolding copy_outcome
copy c bs = copy_outcome c bs c.outcomes

-- The variables of the loop of runReplay.
pub record Run : Type 0 where
  pub replay : Replay
  pub conn : Conn
  pub packets : ℕ
  pub bytes : ℕ

-- The rounds that the flag -n still allows: `none` is no limit.
abbrev pub no_rounds : Option ℕ → Bool
no_rounds none = false
no_rounds (some zero) = true
no_rounds (some (suc n)) = false

abbrev pub rounds_after : Option ℕ → Option ℕ
rounds_after none = none
rounds_after (some zero) = some zero
rounds_after (some (suc n)) = some n

module _ (sum1071_bis : Bytes → ℕ) where
  unfoldable pub prepare_packet_v1 : Replay → Bytes → Bytes
  prepare_packet_v1 r bs = packet_head r bs ++ be 2 (u16 (sum1071_bis (packet_head r bs)))

  -- One round of the loop of preparePacketV2: fragment i of c, with the payload vs.
  unfoldable pub fragment : Replay → ℕ → ℕ → Bytes → Bytes
  fragment r c i vs =
      be 4 preamble
      ++ (be 2 r.version
          ++ (be 2 (u16 i)
              ++ (be 2 (u16 c)
                  ++ (be 2 r.counter
                      ++ (be 4 (u32 (length vs)) ++ (vs ++ be 2 (u16 (sum1071_bis vs))))))))

  -- `for i := 0; re.Len() > 0; i++`. Each round takes a byte at least, where the size is not 0.
  unfoldable pub fragments : ℕ → Replay → ℕ → ℕ → Bytes → List Bytes
  unfolding fragment
  fragments fuel r c i [] = []
  fragments zero r c i (b ∷ re) = []
  fragments (suc fuel) r c i (b ∷ re) =
      fragment r c i (take r.size (b ∷ re)) ∷ fragments fuel r c (i + 1) (drop r.size (b ∷ re))

  unfoldable pub prepare_packet_v2 : Replay → Bytes → List Bytes
  unfolding fragments
  prepare_packet_v2 r bs = fragments (length bs) r (length bs / r.size) 0 bs

  -- The loop of writePacket over the fragments. `total` is declared inside the loop, so that it is 0
  -- where a copy fails. n is the count for a loop that comes to its end.
  unfoldable pub write_fragments : Conn → ℕ → List Bytes → Written
  write_fragments c n [] = record { conn = c; count = n; error = none }
  write_fragments c n (w ∷ ws) =
      let next = write_fragments (copy c w).conn n ws in
      elim (copy c w).error [ none ↦ next | some fatal ↦ copy c w ]

  unfoldable pub write_packet : Replay → Conn → Bytes → Written
  write_packet r c bs =
      if r.size == 0
      then record (copy c (prepare_packet_v1 r bs)) { count = length bs }
      else write_fragments c (length bs) (prepare_packet_v2 r bs)

  -- Write: the counter goes up also where the packet was not written.
  unfoldable pub write : Replay → Conn → Bytes → Replay × Written
  write r c bs = (record r { counter = u16 (r.counter + 1) }, write_packet r c bs)

  -- One round of runReplay on what the queue gave; the Boolean says that the loop returns.
  unfoldable pub replay_round : Run → Bytes → Run × Bool
  replay_round s [] = (s, false)
  replay_round s (b ∷ bs) =
      let (r, w) = write s.replay s.conn (b ∷ bs) in
      elim w.error [
        | some true ↦ (record s { replay = r; conn = w.conn }, true)
        | _ ↦ (
          record {
            replay = r;
            conn = w.conn;
            packets = u64 (s.packets + 1);
            bytes = u64 (s.bytes + length (b ∷ bs));
          },
          false,
        )
      ]

  -- The loop of runReplay over what the queue gives until it is closed. Signals are left out.
  unfoldable pub run_replay : Option ℕ → Run → List Bytes → Run
  run_replay left s [] = s
  run_replay left s (bs ∷ queue) =
      let rest = run_replay (rounds_after left) (replay_round s bs).0 queue in
      if no_rounds left then s else if (replay_round s bs).1 then (replay_round s bs).0 else rest
