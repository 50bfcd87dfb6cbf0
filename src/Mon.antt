-- ===== src/Mon.antt =====
-- plugins/mon/mon.go: a module that counts packets and logs gaps. Times are nanoseconds since the zero
-- time, so that 0 is the time that IsZero holds of. The files of the log and their rotation are left out.
pub mod Gaps
use hadock.Common.{
  ℕ, ◌+◌, ◌*◌, ◌-◌, Bool, true, false, not, ◌&&◌, Option, none, some, List, [], ◌∷◌, ◌++◌, ltb,
  ◌==◌, if◌then◌else◌, u32, u64,
}
use hadock.Panda.{HrPacket, Kind, table, image, other}

-- What is logged: a gap ("g") or a summary ("a").
pub data Cause : Type 0 where
  gap summary : Cause

pub record Report : Type 0 where
  pub cause : Cause
  pub first : ℕ
  pub last : ℕ
  pub size : ℕ
  pub count : ℕ

-- type monitor struct, with what its logger was given.
pub record Counter : Type 0 where
  pub delta : ℕ
  pub first : ℕ
  pub last : ℕ
  pub starts : ℕ
  pub ends : ℕ
  pub size : ℕ
  pub count : ℕ
  pub logged : List Report

-- New, with the setting delta in seconds.
unfoldable pub new_counter : ℕ → Counter
new_counter every = record {
  delta = if ltb 0 every then 1000000000 * every else 5000000000;
  first = 0;
  last = 0;
  starts = 0;
  ends = 0;
  size = 0;
  count = 0;
  logged = [];
}

abbrev pub report : Cause → Counter → Report
report c m = record { cause = c; first = m.first; last = m.last; size = m.size; count = m.count }

-- What panda knows of a packet: whether it has VMUProtocol2, the sequence number of its VMU header, and
-- the lengths of the headers.
pub record Headers : Type 0 where
  pub is_v2 : HrPacket → Bool
  pub vmu_sequence : HrPacket → ℕ
  pub vmu_length : ℕ
  pub idh_length : ℕ
  pub sdh_length : ℕ

module _ (h : Headers) where
  abbrev pub header_length : Kind → ℕ
  header_length (image i) = h.idh_length
  header_length (table s) = h.sdh_length
  header_length other = 0

  -- The assignments in front of the test.
  abbrev pub see : ℕ → ℕ → Counter → Counter
  see t n m =
      if m.first == 0
      then record m { last = t; ends = n; first = t; starts = n }
      else record m { last = t; ends = n }

  abbrev pub is_gap : Counter → Bool
  is_gap m =
      let d = m.last - m.first in
      let delta = u32 (m.ends + 4294967296 - m.starts) in
      (ltb 0 d && ltb m.delta d) && (ltb 1 delta && ltb m.ends delta)

  abbrev pub report_gap : Counter → Counter
  report_gap m =
      if is_gap m
      then record m {
        logged = m.logged ++ (report gap m ∷ []);
        size = 0;
        count = 0;
        first = m.last;
        starts = m.ends;
      }
      else m

  abbrev pub add_packet : Kind → Counter → Counter
  add_packet k m = record m {
    count = u64 (m.count + 1);
    size = u64 (m.size + h.vmu_length + header_length k);
  }

  -- The packet behind the type switch: none is a panic, where its header is nil.
  process_kind : Kind → HrPacket → Counter → Option Counter
  process_kind other p m = none
  process_kind (table s) p m =
      some (add_packet (table s) (report_gap (see p.vmu_timestamp (h.vmu_sequence p) m)))
  process_kind (image i) p m =
      some (add_packet (image i) (report_gap (see p.vmu_timestamp (h.vmu_sequence p) m)))

  -- Process
  unfoldable pub process : HrPacket → Counter → Option Counter
  unfolding process_kind
  process p m = if h.is_v2 p then process_kind p.kind p m else some m

  unfoldable pub process_all : List HrPacket → Counter → Option Counter
  process_all [] m = some m
  process_all (p ∷ ps) m = elim (process p m) [ none ↦ none | some n ↦ process_all ps n ]

-- A round of rotate for its first ticker.
unfoldable pub summarize : Bool → Counter → Counter
summarize a m = if a then record m { logged = m.logged ++ (report summary m ∷ []) } else m
