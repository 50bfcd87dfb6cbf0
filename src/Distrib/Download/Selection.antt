-- ===== src/Distrib/Download/Selection.antt =====
-- Which files an archive holds.
use hadock.Common.{
  ◌≡◌, refl, Bool, true, false, not, ◌&&◌, Option, none, some, List, [], ◌∷◌, map, Bytes,
  if◌then◌else◌, Bool-cases, inl, inr,
}
use hadock.Storage.Files.{has_suffix, xml}
use hadock.Distrib.Download.{
  File, Call, errs, directory, visits, TarMember, ZipMember, member_name, is_left_out, tar_member,
  add_tar, add_zip, write_tar, write_zip,
}

unless_wanted :
    {A : Type 0} (m s : Bool) (p q : A)
    → (if m then p else (if s then q else p)) ≡ (if not m && s then q else p)
unless_wanted true s p q = refl
unless_wanted false s p q = refl

module _ (base : Bytes → Bytes) (strip : Bytes) (flat meta : Bool) where
  abbrev pub chosen_file : File → Option Bytes → List (File × Bytes) → List (File × Bytes)
  chosen_file f none fs = fs
  chosen_file f (some bs) fs = (f, bs) ∷ fs

  -- The files of a walk up to its first error: those that can be opened, without XML unless that is
  -- wanted.
  abbrev pub chosen : List Call → List (File × Bytes)
  chosen [] = []
  chosen (errs ∷ cs) = []
  chosen (directory p ∷ cs) = chosen cs
  chosen (visits f ∷ cs) =
      let fs = chosen cs in
      if meta
      then chosen_file f f.contents fs
      else (if has_suffix f.path xml then fs else chosen_file f f.contents fs)

  -- Whether a walk meets an error.
  abbrev pub has_error : List Call → Bool
  has_error [] = false
  has_error (errs ∷ cs) = true
  has_error (directory p ∷ cs) = has_error cs
  has_error (visits f ∷ cs) = has_error cs

  abbrev pub tar_of : File × Bytes → TarMember
  tar_of (f, bs) = tar_member base strip flat meta f bs

  abbrev pub zip_of : File × Bytes → ZipMember
  zip_of (f, bs) = record { name = member_name base strip flat meta f.path; copied = bs }

  module _ (tar_fails : TarMember → Bool) (zip_fails : ZipMember → Bool) where
    -- The archives refuse nothing.
    pub record TakesAll : Type 0 where
      pub tar_takes : (m : TarMember) → tar_fails m ≡ false
      pub zip_takes : (m : ZipMember) → zip_fails m ≡ false

    add-chosen_file :
        (f : File) (o : Option Bytes) (fs : List (File × Bytes)) (b : Bool)
        → TakesAll
        → (add_tar base strip flat meta tar_fails f o (map tar_of fs, b)
            ≡ (map tar_of (chosen_file f o fs), b))
          × (add_zip base strip flat meta zip_fails f o (map zip_of fs, b)
              ≡ (map zip_of (chosen_file f o fs), b))
    unfolding add_tar add_zip
    add-chosen_file f none fs b t = (refl, refl)
    add-chosen_file f (some bs) fs b t =
        (rw (t.tar_takes (tar_of (f, bs))) refl, rw (t.zip_takes (zip_of (f, bs))) refl)

    -- Both archives hold the chosen files, in the order of the walk and under the same names, and end
    -- by an error exactly if the walk meets one (they refuse nothing).
    pub write_tar-write_zip :
        (cs : List Call)
        → TakesAll
        → (write_tar base strip flat meta tar_fails cs ≡ (map tar_of (chosen cs), has_error cs))
          × (write_zip base strip flat meta zip_fails cs ≡ (map zip_of (chosen cs), has_error cs))
    unfolding write_tar write_zip
    write_tar-write_zip [] t = (refl, refl)
    write_tar-write_zip (errs ∷ cs) t = (refl, refl)
    write_tar-write_zip (directory p ∷ cs) t = write_tar-write_zip cs t
    write_tar-write_zip (visits f ∷ cs) t =
        let ih = write_tar-write_zip cs t in
        let a = add-chosen_file f f.contents (chosen cs) (has_error cs) t in
        let k =
          unless_wanted meta (has_suffix f.path xml) (chosen_file f f.contents (chosen cs))
            (chosen cs) in
        elim (Bool-cases (is_left_out base strip flat meta f.path)) [
          | inl e ↦ rw (ih.0, ih.1, k, e) (refl, refl)
          | inr e ↦ rw (ih.0, ih.1, k, e) a
        ]
