-- ===== src/Storage/Files/Links.antt =====
-- What a share does to the disk.
use hadock.Common.{
  ℕ, Bool, true, false, not, ◌&&◌, ◌||◌, none, some, [], ◌++◌, Bytes, ◌≡◌, refl, ap, ◌∙◌, arith,
  Bool-cases, inl, inr, if◌then◌else◌,
}
use hadock.Common.Texts.{codes, text_eq}
use hadock.Panda.{HrPacket}
use hadock.Storage.Disk.{
  Node, inode, symlink, Disk, done, set_name, set_contents, remove, mkdir_all, write_file,
}
use hadock.Storage.Disk.Laws.{
  IsFile, put_bytes-old, names-set_contents, set_contents-same, write_file-ok, contents-set_name,
  >>-ok, names-set_name, names-set_name_ne, link-names, symlink_to-names, mkdir_all-ok, remove-ok,
}
use hadock.Storage.Files.{World, Linkstore, bad, dir_of, remove_if, link_by, link_share}

-- The disk after `remove_if`.
abbrev pub cleared : Bool → Bytes → Disk → Disk
cleared true p d = set_name d p none
cleared false p d = d

pub remove_if-cleared :
    (w : World) (b : Bool) (p : Bytes) (d : Disk) → remove_if w b p d ≡ (none, cleared b p d)
unfolding remove_if remove done
remove_if-cleared w true p d = refl
remove_if-cleared w false p d = refl

pub names-cleared :
    (b : Bool) (p q : Bytes) (d : Disk) → text_eq p q ≡ false → (cleared b p d).names q ≡ d.names q
names-cleared true p q d h = names-set_name_ne d p q none h
names-cleared false p q d h = refl

names-cleared_free :
    (b : Bool) (p q : Bytes) (d : Disk) → d.names q ≡ none → (cleared b p d).names q ≡ none
unfolding set_name
names-cleared_free true p q d h = elim (Bool-cases (text_eq p q)) [ inl e ↦ rw e | inr e ↦ rw e h ]
names-cleared_free false p q d h = h

pub contents-cleared : (b : Bool) (p : Bytes) (d : Disk) → (cleared b p d).contents ≡ d.contents
contents-cleared true p d = contents-set_name d p none
contents-cleared false p d = refl

-- What stands behind the name of a link of type t.
abbrev pub is_hard : Bytes → Bool
is_hard t = text_eq t (codes "hard") || text_eq t []

abbrev pub link_node : Bytes → Bytes → Node → Node
link_node t old n = if is_hard t then n else symlink old

link_by-names :
    (w : World) (t old p : Bytes) (n : Node) (d : Disk)
    → (is_hard t || text_eq t (codes "soft")) ≡ true
    → d.names old ≡ some n
    → d.names p ≡ none
    → w.refusals.link_fails p ≡ false
    → link_by w t old p d ≡ (none, set_name d p (some (link_node t old n)))
unfolding link_by
link_by-names w t old p n d k ho hp hl = elim (Bool-cases (is_hard t)) [
  | inl e ↦ rw (e, link_by) (link-names w.refusals old p n d ho hp hl)
  | inr e ↦
      let soft : text_eq t (codes "soft") ≡ true = ground arith in
      rw (e, soft, link_by) (symlink_to-names w.refusals old p d hp hl)
]

module _ (w : World) (s : Linkstore) (i : ℕ) (p : HrPacket) (old : Bytes) where
  -- The name of the link, and that of the bad version.
  abbrev pub target : Bytes
  target = w.join (dir_of w s.dirs i p) (w.base old)

  abbrev pub bad_target : Bytes
  bad_target = w.join (dir_of w s.dirs i p) (w.base old ++ bad)

  -- The share can be made, and its names are not q.
  pub record IsReady : Type 0 where
    pub made : w.refusals.mkdir_fails (dir_of w s.dirs i p) ≡ false
    pub allowed : w.refusals.link_fails target ≡ false
    pub known : (is_hard s.link_type || text_eq s.link_type (codes "soft")) ≡ true

  abbrev pub Avoids : Bytes → Type 0
  Avoids q = (text_eq target q ≡ false) × (text_eq bad_target q ≡ false)

  -- Linking removes what was there, leaves the files and the other names alone, and puts the link.
  pub link_share_lem :
      (d : Disk) (n : Node)
      → IsReady
      → Avoids old
      → d.names old ≡ some n
      → (e : Disk) × (link_share w s old i p d ≡ (none, e))
        × (e.contents ≡ d.contents)
        × ((q : Bytes) → Avoids q → e.names q ≡ d.names q)
        × (e.names target ≡ some (link_node s.link_type old n))
  unfolding link_share
  link_share_lem d n r a h =
      let b = not p.realtime && s.rembad in
      let d1 = set_name d target none in
      let d2 = cleared b bad_target d1 in
      let n2 : d2.names old ≡ some n =
        names-cleared b bad_target old d1 a.1 ∙ names-set_name_ne d target old none a.0 ∙ h in
      let m2 : d2.names target ≡ none =
        names-cleared_free b bad_target target d1 (names-set_name d target none) in
      (
        set_name d2 target (some (link_node s.link_type old n)),
        >>-ok (mkdir_all w.refusals (dir_of w s.dirs i p)) _ d d
              (mkdir_all-ok w.refusals _ d r.made)
            ∙ >>-ok (remove target) _ d d1 (remove-ok target d)
            ∙ >>-ok (remove_if w b bad_target) _ d1 d2 (remove_if-cleared w b bad_target d1)
            ∙ link_by-names w s.link_type old target n d2 r.known n2 m2 r.allowed,
        contents-set_name d2 target _
            ∙ contents-cleared b bad_target d1
            ∙ contents-set_name d target none,
        λ q v.
            names-set_name_ne d2 target q _ v.0
            ∙ names-cleared b bad_target q d1 v.1
            ∙ names-set_name_ne d target q none v.0,
        names-set_name d2 target _,
      )

  -- A hard link is made of the stored file, and shows whatever the store writes there later.
  link_share-follows :
      (d : Disk) (j : ℕ) (bs : Bytes)
      → IsReady
      → Avoids old
      → d.names old ≡ some (inode j)
      → is_hard s.link_type ≡ true
      → w.refusals.write_fails old ≡ none
      → (e : Disk) × (link_share w s old i p d ≡ (none, e))
        × IsFile e target (d.contents j) j
        × (write_file w.refusals old bs e ≡ (none, set_contents e j bs))
        × IsFile (set_contents e j bs) target bs j
  link_share-follows d j bs r a h k f =
      let (e, run, kept, names, linked) = link_share_lem d (inode j) r a h in
      let here : e.names target ≡ some (inode j) =
        linked ∙ ap (λ b. some (if b then inode j else symlink old)) k in
      let old_here : e.names old ≡ some (inode j) = names old a ∙ h in
      (
        e,
        run,
        record { named = here; holds = ap (λ c. c j) kept },
        write_file-ok w.refusals e old bs (inr (j, old_here)) f
            ∙ ap (λ d. (none, d)) (put_bytes-old e old bs j old_here),
        record {
          named = ap (λ f. f target) (names-set_contents e j bs) ∙ here;
          holds = set_contents-same e j bs;
        },
      )
