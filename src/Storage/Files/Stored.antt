-- ===== src/Storage/Files/Stored.antt =====
-- What Store leaves on the disk.
use hadock.Common.{
  ◌⊎◌, ℕ, ◌-◌, true, false, none, some, List, [], ◌∷◌, ◌++◌, Bytes, length, length-append, take,
  take-append, drop-append, le→leb, All, ◌≡◌, refl, ap, sym, subst, ◌∙◌, arith, Bool-cases, inl,
  inr, if◌then◌else◌,
}
use hadock.Common.Texts.{text_eq, text_eq_iff}
use hadock.Panda.{HrPacket, Kind, table, image, other}
use hadock.Storage.{can}
use hadock.Storage.Disk.{Node, inode, Disk, done, put_bytes, mkdir_all, is_regular, write_file}
use hadock.Storage.Disk.Laws.{
  names-set_name, >>-ok, mkdir_all-ok, IsPlain, IsFile, is_regular-file, put_bytes-IsFile,
  put_bytes-names_ne, write_file-ok,
}
use hadock.Storage.Files.{
  World, Filestore, Linkstore, bad, has_suffix, is_bad, trim_bad, dir_of, encode_with, remove_if,
  link_share, link_shares, finish, write_packet, is_superseded, store,
}
use hadock.Storage.Files.Links.{
  cleared, remove_if-cleared, names-cleared, IsReady, Avoids, link_share_lem,
}

has_suffix-append : (s t : Bytes) → has_suffix (s ++ t) t ≡ true
has_suffix-append s t =
    let n : length (s ++ t) - length t ≡ length s = omega (arith, length-append s t) in
    rw (le→leb (length t) (length (s ++ t)) (omega (arith, length-append s t)), n, drop-append s t)
      ((text_eq_iff t t).1 refl)

trim-append :
    (s t : Bytes)
    → (if has_suffix (s ++ t) t then take (length (s ++ t) - length t) (s ++ t) else s ++ t) ≡ s
trim-append s t =
    let n : length (s ++ t) - length t ≡ length s = omega (arith, length-append s t) in
    rw (has_suffix-append s t, n) (take-append s t)

trim_bad-append : (s : Bytes) → trim_bad (s ++ bad) ≡ s
unfolding trim_bad
trim_bad-append s = trim-append s bad

is_bad-append : (s : Bytes) → is_bad (s ++ bad) ≡ true
unfolding is_bad
is_bad-append s = has_suffix-append s bad

-- What the store asks of the system for a packet p of instance i, its encoding bs, and of the names
-- that are there: a directory, a write and links that succeed, a name for the file that is free or
-- that of a file, and shares whose names are apart from those of the store.
module _ (w : World) (f : Filestore) (i : ℕ) (p : HrPacket) where
  abbrev pub dir : Bytes
  dir = dir_of w f.dirs i p

  abbrev pub file : Bytes
  file = w.join dir p.filename

  abbrev pub bad_file : Bytes
  bad_file = w.join dir (p.filename ++ bad)

  -- A share can be made, and its names are none of those of the store.
  abbrev pub IsApart : Linkstore → Type 0
  IsApart s = IsReady w s i p file × Avoids w s i p file file × Avoids w s i p file bad_file

  pub record IsWritable (d : Disk) : Type 0 where
    pub taken : can w.channel_name (some f.control) p ≡ true
    pub made : w.refusals.mkdir_fails dir ≡ false
    pub written : w.refusals.write_fails file ≡ none
    pub plain : IsPlain d file
    pub distinct : text_eq bad_file file ≡ false
    pub distinct' : text_eq file bad_file ≡ false
    pub apart : All IsApart f.links

  -- Linking to all shares leaves the files and the names of the store alone.
  link_shares_lem :
      (ss : List Linkstore) (d : Disk) (n : Node)
      → All IsApart ss
      → d.names file ≡ some n
      → (e : Disk) × (link_shares w ss file i p d ≡ (none, e))
        × (e.contents ≡ d.contents)
        × (e.names file ≡ d.names file)
        × (e.names bad_file ≡ d.names bad_file)
  unfolding link_shares done
  link_shares_lem [] d n a h = (d, refl, refl, refl, refl)
  link_shares_lem (s ∷ ss) d n a h =
      let (d1, run, kept, names, linked) = link_share_lem w s i p file d n a.0.0 a.0.1 h in
      let same = names file a.0.1 in
      let (e, run', kept', old', bad') = link_shares_lem ss d1 n a.1 (same ∙ h) in
      (
        e,
        >>-ok (link_share w s file i p) _ d d1 run ∙ run',
        kept' ∙ kept,
        old' ∙ same,
        bad' ∙ names bad_file a.0.2,
      )

  -- The file holds bs, and there is no bad version of it, if the store removes those.
  pub record IsStored (bs : Bytes) (d : Disk) : Type 0 where
    pub index : ℕ
    pub stored : IsFile d file bs index
    pub cleaned : f.rembad ≡ true → d.names bad_file ≡ none

  put-IsStored :
      (d e : Disk) (bs : Bytes)
      → IsWritable d
      → e.contents ≡ (put_bytes (cleared f.rembad bad_file d) file bs).contents
      → e.names file ≡ (put_bytes (cleared f.rembad bad_file d) file bs).names file
      → e.names bad_file ≡ (put_bytes (cleared f.rembad bad_file d) file bs).names bad_file
      → IsStored bs e
  put-IsStored d e bs h c n b =
      let d1 = cleared f.rembad bad_file d in
      let plain : IsPlain d1 file =
        subst (λ o. (o ≡ none) ⊎ ((i : ℕ) × (o ≡ some (inode i))))
          (sym (names-cleared f.rembad bad_file file d h.distinct)) h.plain in
      let (j, there) = put_bytes-IsFile d1 file bs plain in
      record {
        index = j;
        stored = record { named = n ∙ there.named; holds = ap (λ c. c j) c ∙ there.holds };
        cleaned = λ r.
            b
            ∙ put_bytes-names_ne d1 file bad_file bs h.distinct' plain
            ∙ subst (λ b. (cleared b bad_file d).names bad_file ≡ none) (sym r)
                (names-set_name d bad_file none);
      }

  abbrev pub IsNoImage : Kind → Type 0
  IsNoImage (image h) = ⊥
  IsNoImage _ = Unit {0}

  finish-done : (k : Kind) (d : Disk) → IsNoImage k → finish w k f dir i p d ≡ (none, d)
  unfolding finish done
  finish-done (table h) d n = refl
  finish-done other d n = refl
  finish-done (image h) d n = absurd n

  write_packet-IsStored :
      (d : Disk) (bs : Bytes)
      → IsWritable d
      → encode_with w f.is_raw p ≡ some bs
      → IsNoImage p.kind
      → (e : Disk) × (write_packet w f dir i p d ≡ (none, e)) × IsStored bs e
  unfolding write_packet
  write_packet-IsStored d bs h c n =
      let d1 = cleared f.rembad bad_file d in
      let plain : IsPlain d1 file =
        subst (λ o. (o ≡ none) ⊎ ((i : ℕ) × (o ≡ some (inode i))))
          (sym (names-cleared f.rembad bad_file file d h.distinct)) h.plain in
      let d2 = put_bytes d1 file bs in
      let (j, there) = put_bytes-IsFile d1 file bs plain in
      let (e, run, kept, old, gone) = link_shares_lem f.links d2 (inode j) h.apart there.named in
      (
        e,
        rw (c, write_packet)
            (>>-ok (remove_if w f.rembad bad_file) _ d d1 (remove_if-cleared w f.rembad bad_file d)
              ∙ >>-ok (write_file w.refusals file bs) _ d1 d2
                  (write_file-ok w.refusals d1 file bs plain h.written)
              ∙ >>-ok (link_shares w f.links file i p) _ d2 e run
              ∙ finish-done p.kind e n),
        put-IsStored d e bs h kept old gone,
      )

  -- A packet that is no image, that the control takes and no good version supersedes: Store ends
  -- without an error, its file holds the encoding whatever the shares do, and the bad version is
  -- gone where those are removed.
  pub store-IsStored :
      (d : Disk) (bs : Bytes)
      → IsWritable d
      → encode_with w f.is_raw p ≡ some bs
      → IsNoImage p.kind
      → is_superseded w f dir p d ≡ false
      → (e : Disk) × (store w f i p d ≡ (none, e)) × IsStored bs e
  unfolding store
  store-IsStored d bs h c n s =
      let (e, run, there) = write_packet-IsStored d bs h c n in
      (
        e,
        rw h.taken (
            >>-ok (mkdir_all w.refusals dir) _ d d (mkdir_all-ok w.refusals dir d h.made)
            ∙ rw s run),
        there,
      )

  superseded :
      (dir : Bytes) (q : HrPacket) (d : Disk)
      → f.rembad ≡ true
      → is_bad q.filename ≡ true
      → is_regular d (w.join dir (trim_bad q.filename)) ≡ true
      → is_superseded w f dir q d ≡ true
  unfolding is_superseded
  superseded dir q d r b t = rw (r, b, t)

  -- Once a packet is stored, Store leaves the disk as it is on the bad version of that packet, where
  -- bad versions are removed.
  pub store-bad_version :
      (d : Disk) (bs : Bytes) (q : HrPacket)
      → IsStored bs d
      → f.rembad ≡ true
      → q.filename ≡ p.filename ++ bad
      → dir_of w f.dirs i q ≡ dir
      → w.refusals.mkdir_fails dir ≡ false
      → store w f i q d ≡ (none, d)
  unfolding store
  store-bad_version d bs q h r e same m =
      let m' : w.refusals.mkdir_fails (dir_of w f.dirs i q) ≡ false = rw same m in
      let there : is_regular d (w.join (dir_of w f.dirs i q) (trim_bad q.filename)) ≡ true =
        rw (same, e, trim_bad-append p.filename) (is_regular-file d file h.index h.stored.named) in
      let s : is_superseded w f (dir_of w f.dirs i q) q d ≡ true =
        superseded (dir_of w f.dirs i q) q d r (ap is_bad e ∙ is_bad-append p.filename) there in
      elim (Bool-cases (can w.channel_name (some f.control) q)) [
        | inr k ↦ rw k
        | inl k ↦ rw k (
            >>-ok (mkdir_all w.refusals (dir_of w f.dirs i q)) _ d d
              (mkdir_all-ok w.refusals (dir_of w f.dirs i q) d m')
            ∙ rw s)
      ]
