-- ===== src/Storage/Disk.antt =====
-- What storage/files.go asks of the operating system: files behind names, with hard and symbolic
-- links, and the calls of package os that the stores make. A call that fails says so by an error.
pub mod Laws
use hadock.Common.{
  ℕ, zero, suc, ◌==◌, Bool, true, false, Option, none, some, Bytes, take, if◌then◌else◌,
}
use hadock.Common.Texts.{text_eq}

-- What a name stands for: a regular file, or the name of another.
pub data Node : Type 0 where
  inode : ℕ → Node
  symlink : Bytes → Node

-- Files below `next` have been made.
pub record Disk : Type 0 where
  pub names : Bytes → Option Node
  pub contents : ℕ → Bytes
  pub next : ℕ

-- What the system refuses: directories that cannot be made, files whose write ends behind some
-- bytes, links that cannot be made.
pub record Refusals : Type 0 where
  pub mkdir_fails : Bytes → Bool
  pub write_fails : Bytes → Option ℕ
  pub link_fails : Bytes → Bool

pub data DiskError : Type 0 where
  not_made not_encoded not_written not_linked no_metadata : DiskError

-- An action on the disk, and the error that it ends by.
abbrev pub Action : Type 0
Action = Disk → Option DiskError × Disk

abbrev pub followed_by : Option DiskError × Disk → Action → Option DiskError × Disk
followed_by (none, d) b = b d
followed_by (some e, d) b = (some e, d)

-- `if err := a(); err != nil { return err }; b()`
infixr 5 ◌>>◌
unfoldable pub ◌>>◌ : Action → Action → Action
◌>>◌ a b d = followed_by (a d) b

unfoldable pub done : Action
done d = (none, d)

unfoldable pub fail_with : DiskError → Action
fail_with e d = (some e, d)

unfoldable pub set_name : Disk → Bytes → Option Node → Disk
set_name d p n = record d { names = λ q. if text_eq p q then n else d.names q }

unfoldable pub set_contents : Disk → ℕ → Bytes → Disk
set_contents d i bs = record d { contents = λ j. if j == i then bs else d.contents j }

-- The name behind symbolic links, of which the system follows 40.
unfoldable pub resolve : ℕ → Disk → Bytes → Option Bytes
resolve zero d p = none
resolve (suc k) d p = elim (d.names p) [
  | none ↦ some p
  | some n ↦ elim n [ inode i ↦ some p | symlink t ↦ resolve k d t ]
]

-- os.Stat: whether the name is that of a regular file.
unfoldable pub is_regular : Disk → Bytes → Bool
is_regular d p = elim (resolve 40 d p) [
  | none ↦ false
  | some q ↦ elim (d.names q) [ none ↦ false | some n ↦ true ]
]

-- os.Remove, whose error the callers drop.
unfoldable pub remove : Bytes → Action
remove p d = (none, set_name d p none)

abbrev put_at : Option Node → Disk → Bytes → Bytes → Disk
put_at none d p bs = record (set_name (set_contents d d.next bs) p (some (inode d.next))) {
  next = suc d.next;
}
put_at (some (inode i)) d p bs = set_contents d i bs
put_at (some (symlink t)) d p bs = d

-- The bytes of a name that is not symbolic: those of its file, or of a new one.
unfoldable pub put_bytes : Disk → Bytes → Bytes → Disk
put_bytes d p bs = put_at (d.names p) d p bs

module _ (r : Refusals) where
  -- os.MkdirAll
  unfoldable pub mkdir_all : Bytes → Action
  mkdir_all p d = if r.mkdir_fails p then (some not_made, d) else (none, d)

  -- ioutil.WriteFile
  unfoldable pub write_file : Bytes → Bytes → Action
  write_file p bs d = elim (resolve 40 d p) [
    | none ↦ (some not_written, d)
    | some q ↦ elim (r.write_fails p) [
      | none ↦ (none, put_bytes d q bs)
      | some n ↦ (some not_written, put_bytes d q (take n bs))
    ]
  ]

  -- A link to `node` at p, unless the name is taken.
  make_link : Option Node → Bytes → Action
  make_link none p d = (some not_linked, d)
  make_link (some n) p d = elim (d.names p) [
    | some m ↦ (some not_linked, d)
    | none ↦ if r.link_fails p then (some not_linked, d) else (none, set_name d p (some n))
  ]

  -- os.Link and os.Symlink
  unfoldable pub link : Bytes → Bytes → Action
  unfolding make_link
  link old p d = make_link (d.names old) p d

  unfoldable pub symlink_to : Bytes → Bytes → Action
  unfolding make_link
  symlink_to old p d = make_link (some (symlink old)) p d
