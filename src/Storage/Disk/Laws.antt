-- ===== src/Storage/Disk/Laws.antt =====
-- The actions on the disk, one by one.
use hadock.Common.{
  ◌⊎◌, inl, inr, ℕ, suc, ==_refl, ap, ◌∙◌, true, false, Option, none, some, Bytes, ◌≡◌, refl, ap,
  ◌∙◌,
}
use hadock.Common.Texts.{text_eq, text_eq_iff}
use hadock.Storage.Disk.{
  is_regular, Node, inode, symlink, Disk, Refusals, Action, followed_by, ◌>>◌, set_name,
  set_contents, remove, mkdir_all, resolve, put_bytes, put_at, write_file, make_link, link,
  symlink_to,
}

text_eq_refl : (p : Bytes) → text_eq p p ≡ true
text_eq_refl p = (text_eq_iff p p).1 refl

-- What follows an action that ends well.
pub >>-ok : (a b : Action) (d e : Disk) → a d ≡ (none, e) → (a >> b) d ≡ b e
unfolding ◌>>◌
>>-ok a b d e h = ap (λ r. followed_by r b) h

pub names-set_name_ne :
    (d : Disk) (p q : Bytes) (n : Option Node)
    → text_eq p q ≡ false
    → (set_name d p n).names q ≡ d.names q
unfolding set_name
names-set_name_ne d p q n h = rw h

pub names-set_name : (d : Disk) (p : Bytes) (n : Option Node) → (set_name d p n).names p ≡ n
unfolding set_name
names-set_name d p n = rw (text_eq_refl p)

pub contents-set_name :
    (d : Disk) (p : Bytes) (n : Option Node) → (set_name d p n).contents ≡ d.contents
unfolding set_name
contents-set_name d p n = refl

pub remove-ok : (p : Bytes) (d : Disk) → remove p d ≡ (none, set_name d p none)
unfolding remove
remove-ok p d = refl

module _ (r : Refusals) where
  pub mkdir_all-ok : (p : Bytes) (d : Disk) → r.mkdir_fails p ≡ false → mkdir_all r p d ≡ (none, d)
  unfolding mkdir_all
  mkdir_all-ok p d h = rw h

  pub link-names :
      (old p : Bytes) (n : Node) (d : Disk)
      → d.names old ≡ some n
      → d.names p ≡ none
      → r.link_fails p ≡ false
      → link r old p d ≡ (none, set_name d p (some n))
  unfolding link
  link-names old p n d ho hp hl = rw (ho, hp, hl, make_link)

  pub symlink_to-names :
      (old p : Bytes) (d : Disk)
      → d.names p ≡ none
      → r.link_fails p ≡ false
      → symlink_to r old p d ≡ (none, set_name d p (some (symlink old)))
  unfolding symlink_to
  symlink_to-names old p d hp hl = rw (hp, hl, make_link)

-- The name is free, or that of a regular file.
abbrev pub IsPlain : Disk → Bytes → Type 0
IsPlain d p = (d.names p ≡ none) ⊎ ((i : ℕ) × (d.names p ≡ some (inode i)))

-- The name is that of file i, which holds bs.
pub record IsFile (d : Disk) (p bs : Bytes) (i : ℕ) : Type 0 where
  pub named : d.names p ≡ some (inode i)
  pub holds : d.contents i ≡ bs

pub resolve-plain : (k : ℕ) (d : Disk) (p : Bytes) → IsPlain d p → resolve (suc k) d p ≡ some p
unfolding resolve
resolve-plain k d p (inl h) = rw (h, resolve)
resolve-plain k d p (inr (i, h)) = rw (h, resolve)

pub is_regular-file :
    (d : Disk) (p : Bytes) (i : ℕ) → d.names p ≡ some (inode i) → is_regular d p ≡ true
unfolding is_regular
is_regular-file d p i h = rw (resolve-plain 39 d p (inr (i, h)), h, is_regular)

put_bytes-new : (d : Disk) (p bs : Bytes) → d.names p ≡ none → put_bytes d p bs ≡ put_at none d p bs
unfolding put_bytes
put_bytes-new d p bs h = ap (λ n. put_at n d p bs) h

-- A file that is there is written in place, so that all its names show the new bytes.
pub put_bytes-old :
    (d : Disk) (p bs : Bytes) (i : ℕ)
    → d.names p ≡ some (inode i)
    → put_bytes d p bs ≡ set_contents d i bs
unfolding put_bytes
put_bytes-old d p bs i h = ap (λ n. put_at n d p bs) h

pub set_contents-same : (d : Disk) (i : ℕ) (bs : Bytes) → (set_contents d i bs).contents i ≡ bs
unfolding set_contents
set_contents-same d i bs = rw (==_refl i)

pub names-set_contents : (d : Disk) (i : ℕ) (bs : Bytes) → (set_contents d i bs).names ≡ d.names
unfolding set_contents
names-set_contents d i bs = refl

pub put_bytes-IsFile :
    (d : Disk) (p bs : Bytes) → IsPlain d p → (i : ℕ) × IsFile (put_bytes d p bs) p bs i
unfolding set_contents
put_bytes-IsFile d p bs (inl h) = (
  d.next,
  rw (put_bytes-new d p bs h) (record {
    named = names-set_name (set_contents d d.next bs) p (some (inode d.next));
    holds =
        ap (λ f. f d.next) (contents-set_name (set_contents d d.next bs) p _)
        ∙ set_contents-same d d.next bs;
  }),
)
put_bytes-IsFile d p bs (inr (i, h)) =
    (i, rw (put_bytes-old d p bs i h) (record { named = h; holds = set_contents-same d i bs }))

pub put_bytes-names_ne :
    (d : Disk) (p q bs : Bytes)
    → text_eq p q ≡ false
    → IsPlain d p
    → (put_bytes d p bs).names q ≡ d.names q
put_bytes-names_ne d p q bs e (inl h) = rw (put_bytes-new d p bs h) (
    names-set_name_ne (set_contents d d.next bs) p q _ e
    ∙ ap (λ f. f q) (names-set_contents d d.next bs))
put_bytes-names_ne d p q bs e (inr (i, h)) =
    rw (put_bytes-old d p bs i h) (ap (λ f. f q) (names-set_contents d i bs))

pub write_file-ok :
    (r : Refusals) (d : Disk) (p bs : Bytes)
    → IsPlain d p
    → r.write_fails p ≡ none
    → write_file r p bs d ≡ (none, put_bytes d p bs)
unfolding write_file
write_file-ok r d p bs h e = rw (resolve-plain 39 d p h, e, write_file)
