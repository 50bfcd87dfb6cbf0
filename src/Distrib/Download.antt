-- ===== src/Distrib/Download.antt =====
-- distrib/archive.go: the files below a directory as a tar or zip archive. A walk over them is a list of
-- the calls that filepath.Walk makes.
pub mod Selection
use hadock.Common.{
  ℕ, ◌-◌, Bool, true, false, not, ◌&&◌, ◌||◌, Option, none, some, List, [], ◌∷◌, ◌++◌, Bytes,
  length, take, drop, leb, if◌then◌else◌,
}
use hadock.Common.Texts.{codes, text_eq}
use hadock.Storage.Files.{has_suffix, xml}

-- A regular file: `contents` is none where it cannot be opened.
pub record File : Type 0 where
  pub path : Bytes
  pub size : ℕ
  pub mod_time : ℕ
  pub contents : Option Bytes

-- A call of the function that walks: with an error, for a directory, or for a file.
pub data Call : Type 0 where
  errs : Call
  directory : Bytes → Call
  visits : File → Call

-- type query struct; Level is read, and not used.
pub record Query : Type 0 where
  pub file : Bytes
  pub type_name : Bytes
  pub flat : Bool
  pub meta : Bool

-- A member of a tar archive, by its header and the bytes that are copied.
pub record TarMember : Type 0 where
  pub name : Bytes
  pub size : ℕ
  pub mod_time : ℕ
  pub copied : Bytes

-- A member of a zip archive.
pub record ZipMember : Type 0 where
  pub name : Bytes
  pub copied : Bytes

-- strings.TrimPrefix(s, t)
abbrev pub trim_prefix : Bytes → Bytes → Bytes
trim_prefix s t = if text_eq (take (length t) s) t then drop (length t) s else s

-- `base` is filepath.Base; the path of a file ends in ".xml" exactly if that is what filepath.Ext gives.
module _ (base : Bytes → Bytes) (strip : Bytes) (flat meta : Bool) where
  abbrev pub member_name : Bytes → Bytes
  member_name p = if flat then base p else trim_prefix p strip

  abbrev pub is_left_out : Bytes → Bool
  is_left_out p = not meta && has_suffix p xml

  abbrev pub tar_member : File → Bytes → TarMember
  tar_member f bs = record {
    name = member_name f.path;
    size = f.size;
    mod_time = f.mod_time;
    copied = bs;
  }

  -- A member that the archive refuses, when its header is written or its bytes, ends the walk.
  module _ (tar_fails : TarMember → Bool) where
    add_tar : File → Option Bytes → List TarMember × Bool → List TarMember × Bool
    add_tar f none rest = rest
    add_tar f (some bs) rest =
        if tar_fails (tar_member f bs)
        then (tar_member f bs ∷ [], true)
        else (tar_member f bs ∷ rest.0, rest.1)

    -- writeTar: the members that it began, and whether it ends by an error.
    unfoldable pub write_tar : List Call → List TarMember × Bool
    unfolding add_tar
    write_tar [] = ([], false)
    write_tar (errs ∷ cs) = ([], true)
    write_tar (directory p ∷ cs) = write_tar cs
    write_tar (visits f ∷ cs) =
        let rest = write_tar cs in if is_left_out f.path then rest else add_tar f f.contents rest

  module _ (zip_fails : ZipMember → Bool) where
    add_zip : File → Option Bytes → List ZipMember × Bool → List ZipMember × Bool
    add_zip f none rest = rest
    add_zip f (some bs) rest =
        let m : ZipMember = record { name = member_name f.path; copied = bs } in
        if zip_fails m then (m ∷ [], true) else (m ∷ rest.0, rest.1)

    -- writeZip
    unfoldable pub write_zip : List Call → List ZipMember × Bool
    unfolding add_zip
    write_zip [] = ([], false)
    write_zip (errs ∷ cs) = ([], true)
    write_zip (directory p ∷ cs) = write_zip cs
    write_zip (visits f ∷ cs) =
        let rest = write_zip cs in if is_left_out f.path then rest else add_zip f f.contents rest

-- The form of a request: the first value of each key, and strconv.ParseBool, whose error is dropped.
-- parseQuery does not read the field Flat.
module _ (form : Bytes → Bytes) (parse_bool : Bytes → Bool) (default_name : Bytes) where
  unfoldable pub parse_query : Query
  parse_query = record {
    file = if text_eq (form (codes "filename")) [] then default_name else form (codes "filename");
    type_name = form (codes "type");
    flat = false;
    meta = parse_bool (form (codes "meta"));
  }

-- The answer to a download: a status, or an archive that was begun, with the name that it is saved by.
pub data Answer : Type 0 where
  bad_request : Answer
  tar_answer : Bytes → List TarMember × Bool → Answer
  zip_answer : Bytes → List ZipMember × Bool → Answer

-- ServeHTTP, for a query that was parsed. The error of writing is dropped: what was begun is the answer.
module _ (base : Bytes → Bytes) (tar_fails : TarMember → Bool) (zip_fails : ZipMember → Bool) where
  unfoldable pub serve_archive : Bytes → Query → List Call → Answer
  serve_archive root q cs =
      let name : Bytes = q.file ++ (codes "." ++ q.type_name) in
      if text_eq q.type_name (codes "tar")
      then tar_answer name (write_tar base root q.flat q.meta tar_fails cs)
      else if text_eq q.type_name (codes "zip")
      then zip_answer name (write_zip base root q.flat q.meta zip_fails cs)
      else bad_request
