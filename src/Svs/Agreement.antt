-- ===== src/Svs/Agreement.antt =====
-- The plugin and the export of the HTTP side, on the same packet.
use hadock.Common.{
  ℕ, zero, suc, ◌+◌, ◌≤◌, ◌≡◌, refl, sym, ap, ◌∙◌, subst, map, List, [], Bool, true, false, ◌∷◌,
  Bytes, length, take, drop, le→leb, ◌==◌,
}
use hadock.Common.Reader.{Reader, Result, ok, err, read_le, pure, ◌>>=◌, read_full}
use hadock.Common.Texts.{codes, text_eq}
use hadock.Panda.{HrPacket}
use hadock.Svs.{
  Table, add_line, data_values, add_data_round, data_rounds, with_data_columns, process_data,
  column_name, read_values, add_round, svs_rounds, with_columns, svs_table, svs_magic, meta_length,
  writes, export_svs_data, metadata_of, read_metadata, converted, process, process_files, origin,
}

data_values-read_values : (w n : ℕ) → data_values w n ≡ read_values w n
unfolding data_values read_values
data_values-read_values w zero = refl
data_values-read_values w (suc n) =
    ap (λ (m : Reader (List ℕ)). read_le w >>= λ v. m >>= λ vs. pure (v ∷ vs))
      (data_values-read_values w n)

module _ (format : ℕ → Bytes) where
  add_data_round-add_round :
      (i : ℕ) (x : Result (List ℕ)) (t : Table)
      → add_data_round format i x t ≡ add_round format i x t
  unfolding add_data_round add_round
  add_data_round-add_round i (err e) t = refl
  add_data_round-add_round i (ok vs) t = refl

  data_rounds-svs_rounds :
      (fuel n i : ℕ) (r : Bytes) → data_rounds format fuel n i r ≡ svs_rounds format fuel n i r
  unfolding data_rounds svs_rounds
  data_rounds-svs_rounds fuel n i [] = refl
  data_rounds-svs_rounds zero n i (b ∷ r) = refl
  data_rounds-svs_rounds (suc fuel) n i (b ∷ r) =
      let e = data_values-read_values 4 n in
      ap
        (λ (m : Reader (List ℕ)).
          add_data_round format i (m (b ∷ r)).0 (data_rounds format fuel n (i + 1) (m (b ∷ r)).1))
        e
      ∙ add_data_round-add_round i (read_values 4 n (b ∷ r)).0 _
      ∙ ap (add_round format i (read_values 4 n (b ∷ r)).0)
          (data_rounds-svs_rounds fuel n (i + 1) (read_values 4 n (b ∷ r)).1)

  with_data_columns-with_columns :
      (fuel n : ℕ) (x : Result (List ℕ)) (r : Bytes)
      → with_data_columns format fuel n x r ≡ with_columns format fuel n x r
  unfolding with_data_columns with_columns
  with_data_columns-with_columns fuel n (err e) r = refl
  with_data_columns-with_columns fuel n (ok vs) r =
      ap (add_line (codes "t" ∷ map column_name vs)) (data_rounds-svs_rounds fuel n 0 r)

  -- The loops of the plugin and those of ExportSVSData make one table.
  process_data-svs_table :
      (fuel : ℕ) (bs : Bytes) → process_data format fuel bs ≡ svs_table format fuel bs
  unfolding process_data svs_table
  process_data-svs_table fuel [] = refl
  process_data-svs_table fuel (n ∷ r) =
      ap (λ (m : Reader (List ℕ)). with_data_columns format fuel n (m r).0 (m r).1)
        (data_values-read_values 2 n)
      ∙ with_data_columns-with_columns fuel n (read_values 2 n r).0 (read_values 2 n r).1

module _ (format : ℕ → Bytes) (is_v2 prepare_fails : HrPacket → Bool)
    (create_fails : Bytes → HrPacket → Bool) where
  -- A packet that the plugin converts, whose files can be made.
  pub record IsConverted (p : HrPacket) : Type 0 where
    pub version : is_v2 p ≡ true
    pub source : text_eq p.origin origin ≡ true
    pub is_data : (p.sequence == 1) ≡ false
    pub prepared : prepare_fails p ≡ false
    pub xml : create_fails (codes ".xml") p ≡ false
    pub csv : create_fails (codes ".csv") p ≡ false

  read_metadata-there :
      (bs : Bytes)
      → meta_length ≤ length bs
      → read_metadata bs ≡ (ok (metadata_of (take meta_length bs)), drop meta_length bs)
  unfolding read_metadata read_full ◌>>=◌ pure
  read_metadata-there bs l = rw (le→leb meta_length (length bs) l) refl

  export-there :
      (fuel : ℕ) (bs : Bytes)
      → meta_length ≤ length (svs_magic ∷ bs)
      → export_svs_data format fuel (svs_magic ∷ bs)
        ≡ writes (svs_table format fuel (drop meta_length (svs_magic ∷ bs)))
  unfolding export_svs_data
  export-there fuel bs l = rw (le→leb meta_length (length (svs_magic ∷ bs)) l) refl

  -- Of a data packet of version 2 and of the origin of SVS, whose files can be made, whose payload
  -- has the metadata and starts by the magic byte, the plugin and ExportSVSData, each by its own
  -- loops, make the same table, or stop at the same error of it, whatever the bytes behind the
  -- metadata are.
  pub process-export_svs_data :
      (fuel : ℕ) (p : HrPacket) (bs : Bytes)
      → IsConverted p
      → p.payload ≡ svs_magic ∷ bs
      → meta_length ≤ length p.payload
      → (t : Table) × (process format is_v2 prepare_fails create_fails fuel p
          ≡ converted (metadata_of (take meta_length p.payload)) t)
        × (export_svs_data format fuel p.payload ≡ writes t)
  unfolding process process_files export_svs_data
  process-export_svs_data fuel p bs c h l = (
    svs_table format fuel (drop meta_length p.payload),
    rw
        (
          c.version,
          c.source,
          c.is_data,
          c.prepared,
          read_metadata-there p.payload l,
          process_files,
          c.xml,
          c.csv,
        )
        (ap (converted (metadata_of (take meta_length p.payload)))
          (process_data-svs_table format fuel (drop meta_length p.payload))),
    subst
        (λ ps.
          export_svs_data format fuel ps ≡ writes (svs_table format fuel (drop meta_length ps)))
        (sym h) (export-there fuel bs (subst (λ ps. meta_length ≤ length ps) h l)),
  )
