-- ===== src/Tests/ModuleRuns.antt =====
-- plugins/svs/svs.go, internal/science/svs.go and plugins/mon/mon.go at concrete inputs.
use hadock.Common.{
  ℕ, ◌≤◌, ◌<◌, ◌≡◌, ◌↔◌, refl, true, false, Bool, none, some, List, [], ◌∷◌, ◌++◌, Bytes, replicate,
  take, arith, u64,
}
use hadock.Common.Reader.{out_of_fuel}
use hadock.Common.Texts.{codes}
use hadock.Mon.{Counter, Headers, new_counter, process_all}
use hadock.Mon.Gaps.{IsAbove, process_all-silent}
use hadock.Panda.{HrPacket, table, sdh_v1}
use hadock.Svs.{
  Table, svs_magic, meta_length, svs_table, export_svs_data, writes, process, converted,
  metadata_of,
}
use hadock.Svs.Agreement.{process-export_svs_data}
use hadock.Svs.Rounds.{IsEndless, svs_table-IsEndless}

abbrev as_is : ℕ → Bytes
as_is v = v ∷ []

svs_table-IsEndless_example :
    ((svs_table as_is 4 (1 ∷ 2 ∷ 0 ∷ 5 ∷ [])).1 ≡ some out_of_fuel)
    ↔ IsEndless as_is (1 ∷ 2 ∷ 0 ∷ 5 ∷ [])
svs_table-IsEndless_example = svs_table-IsEndless as_is 4 (1 ∷ 2 ∷ 0 ∷ 5 ∷ []) (omega arith)

-- One column, and one value of it behind the metadata.
abbrev svs_bytes : Bytes
svs_bytes = replicate 73 0 ++ (1 ∷ 2 ∷ 0 ∷ 0 ∷ 0 ∷ 128 ∷ 63 ∷ [])

abbrev svs_packet : HrPacket
svs_packet = record {
  kind = table sdh_v1;
  origin = codes "90";
  stream = 3;
  realtime = true;
  sequence = 2;
  filename = codes "f";
  payload = svs_magic ∷ svs_bytes;
  timestamp = 5;
  vmu_timestamp = 5;
  generated = none;
}

abbrev always : HrPacket → Bool
always p = true

abbrev never : HrPacket → Bool
never p = false

abbrev never_fails : Bytes → HrPacket → Bool
never_fails ext p = false

process-export_svs_data_example :
    (t : Table) × (process as_is always never never_fails 80 svs_packet
      ≡ converted (metadata_of (take meta_length svs_packet.payload)) t)
    × (export_svs_data as_is 80 svs_packet.payload ≡ writes t)
process-export_svs_data_example =
    process-export_svs_data as_is always never never_fails 80 svs_packet svs_bytes
      (record {
        version = refl;
        source = refl;
        is_data = refl;
        prepared = refl;
        xml = refl;
        csv = refl;
      })
      refl (omega arith)

abbrev some_headers : Headers
some_headers = record {
  is_v2 = λ p. true;
  vmu_sequence = λ p. p.sequence;
  vmu_length = 16;
  idh_length = 64;
  sdh_length = 44;
}

abbrev numbered : ℕ → ℕ → HrPacket
numbered n t = record svs_packet { sequence = n; vmu_timestamp = t }

-- Hours apart, and with most of the numbers left out.
abbrev with_gaps : List HrPacket
with_gaps = numbered 1000 3600000000000 ∷ numbered 50000 7200000000000 ∷ []

numbered-IsAbove : (n t : ℕ) → 5 ≤ n → n < 4294967296 → IsAbove some_headers 5 (numbered n t)
numbered-IsAbove n t l h = record { version = refl; typed = λ e. cc; above = l; fits = h }

process_all-silent_example :
    (m : Counter) × (process_all some_headers (numbered 5 1 ∷ with_gaps) (new_counter 0) ≡ some m)
    × (m.logged ≡ [])
    × (m.starts ≡ 5)
    × (m.count ≡ u64 3)
process_all-silent_example =
    process_all-silent some_headers 0 (numbered 5 1) with_gaps (λ e. omega arith)
      (
        numbered-IsAbove 5 1 (omega arith) (omega arith),
        (
          numbered-IsAbove 1000 3600000000000 (omega arith) (omega arith),
          (numbered-IsAbove 50000 7200000000000 (omega arith) (omega arith), tt),
        ),
      )
