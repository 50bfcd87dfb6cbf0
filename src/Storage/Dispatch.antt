-- ===== src/Storage/Dispatch.antt =====
-- runDispatch of cmd/hadock/dispatch.go, and the files that it reads: those of the store of
-- storage/hrdp.go with the format "hadock".
pub mod Stored
use hadock.Common.{ℕ, Bool, true, false, Option, none, some, List, [], ◌∷◌, ◌++◌, Bytes}
use hadock.Common.Scanner.{FileEnd, done, scan_file, Visit, refused, directory, contents}
use hadock.Panda.{HrPacket}
use hadock.Storage.Hadock.{RawMethods, encode_hadock, scan_packets}

-- What is handed to the writer goes to the end of the file: whether there is an error, and the file.
abbrev pub append_encoded : Option Bytes → Bytes → Bool × Bytes
append_encoded none file = (true, file)
append_encoded (some bs) file = (false, file ++ bs)

module _ (raw : RawMethods) where
  -- hrdpstore.Store, over the file that is written.
  abbrev pub store_hadock : ℕ → HrPacket → Bytes → Bool × Bytes
  store_hadock i p file = append_encoded (encode_hadock raw i p) file

  -- What stores leave of a file: packets with their instances, in their order.
  unfoldable pub store_hadock_all : Bytes → List (ℕ × HrPacket) → Bytes
  store_hadock_all file [] = file
  store_hadock_all file (ip ∷ ips) = store_hadock_all (store_hadock ip.0 ip.1 file).1 ips

-- How runDispatch ends behind its configuration.
pub data Dispatched : Type 0 where
  dispatched unreadable : Dispatched
  scan_failed : FileEnd → Dispatched

abbrev pub dispatch_file : List Bytes × FileEnd → List Bytes × Dispatched → List Bytes × Dispatched
dispatch_file (ts, done) r = (ts ++ r.0, r.1)
dispatch_file (ts, e) r = (ts, scan_failed e)

-- The calls of filepath.Walk, with the tokens that the loop sees: it reads an empty struct of each, which
-- takes no byte and does not fail, and does nothing else.
unfoldable pub dispatch : List Visit → List Bytes × Dispatched
dispatch [] = ([], dispatched)
dispatch (refused ∷ vs) = ([], unreadable)
dispatch (directory ∷ vs) = dispatch vs
dispatch (contents bs ∷ vs) = dispatch_file (scan_file scan_packets bs) (dispatch vs)
