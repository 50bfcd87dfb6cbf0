-- ===== src/Panda.antt =====
-- What the code asks of packets of the package panda, which is not in the repository: the values
-- that the methods of panda.HRPacket return, and the type of the packet.
use hadock.Common.{ℕ, Bool, Bytes, Option}

-- The science headers that the code tells apart: *panda.SDHv1, *panda.SDHv2 with its field Info.
pub data Sdh : Type 0 where
  sdh_v1 : Sdh
  sdh_v2 : Bytes → Sdh

-- The image headers: *panda.IDHv1 and *panda.IDHv2, with their field Info.
pub data Idh : Type 0 where
  idh_v1 : Bytes → Idh
  idh_v2 : Bytes → Idh

-- The type of a packet: *panda.Table with its SDH, *panda.Image with its IDH, or another.
pub data Kind : Type 0 where
  table : Sdh → Kind
  image : Idh → Kind
  other : Kind

-- Times are nanoseconds since the Unix epoch.
pub record HrPacket : Type 0 where
  pub kind : Kind
  pub origin : Bytes
  pub stream : ℕ
  pub realtime : Bool
  pub sequence : ℕ
  pub filename : Bytes
  pub payload : Bytes
  pub timestamp : ℕ
  -- VMUHeader.Timestamp() of tables and images
  pub vmu_timestamp : ℕ
  -- Generated(), for packets that have this method
  pub generated : Option ℕ
