-- ===== src/Distrib.antt =====
-- distrib/fetch.go: stored files over HTTP, raw, as images or as tables.
pub mod Browse
pub mod Datagrams
pub mod Delivery
pub mod Download
pub mod Limit
pub mod Monitor
use hadock.Common.{
  ℕ, ◌+◌, Bool, true, false, not, ◌&&◌, ◌||◌, Option, none, some, List, [], ◌∷◌, ◌++◌, Bytes, map,
  length, ◌==◌, if◌then◌else◌, leb, take, drop, elem,
}
use hadock.Common.Endian.{be, le, of_be}
use hadock.Common.Reader.{Reader, Result, ok, err, pure, ◌>>=◌, and_then, read_be}
use hadock.Common.Texts.{codes, text_eq}
use hadock.Notifier.{read_or}

-- type file struct, without the checksum; `buf` is what is left in the buffer.
pub record StoredFile : Type 0 where
  pub fcc : ℕ
  pub sequence : ℕ
  pub when : ℕ
  pub buf : Bytes

-- Whether strings.Index(s, t) >= 0.
abbrev is_prefix : Bytes → Bytes → Bool
is_prefix [] s = true
is_prefix (a ∷ t) [] = false
is_prefix (a ∷ t) (b ∷ s) = a == b && is_prefix t s

abbrev pub contains : Bytes → Bytes → Bool
contains [] t = is_prefix t []
contains (b ∷ s) t = is_prefix t (b ∷ s) || contains s t

abbrev pub mime_octet : Bytes
mime_octet = codes "application/octet-stream"

abbrev pub mime_gif : Bytes
mime_gif = codes "image/gif"

abbrev pub mime_jpg : Bytes
mime_jpg = codes "image/jpeg"

abbrev pub mime_png : Bytes
mime_png = codes "image/png"

abbrev pub mime_csv : Bytes
mime_csv = codes "text/csv"

abbrev pub types : List Bytes
types = mime_octet ∷ mime_gif ∷ mime_png ∷ mime_jpg ∷ mime_csv ∷ []

abbrev pub accept : Bytes → List Bytes → Option Bytes
accept a [] = none
accept a (v ∷ vs) = if contains a v then some v else accept a vs

abbrev is_some : {A : Type 0} → Option A → Bool
is_some none = false
is_some (some a) = true

abbrev pub is_acceptable : Bytes → List Bytes → Bool
is_acceptable a [] = true
is_acceptable a (v ∷ vs) = is_some (accept a (v ∷ vs))

-- The fields of a file that readFile has opened. The errors of the reads are dropped.
unfoldable pub read_fields : Reader StoredFile
read_fields = do
  fcc ← read_or 0 4
  sequence ← read_or 0 4
  when ← read_or 0 8
  λ r. (ok (record { fcc = fcc; sequence = sequence; when = when; buf = r }), [])

-- What package os tells of a path: an error, of which os.IsNotExist holds or not, or the contents.
pub data Opened : Type 0 where
  not_exist : Opened
  refused : Opened
  opened : Bytes → Opened

-- The errors of readFile that ServeHTTP tells apart. The time that it is called with is zero, so that
-- ErrNotModified does not occur.
pub data FetchError : Type 0 where
  not_found : FetchError
  other_error : FetchError

pub data Read : Type 0 where
  failed : FetchError → Read
  reads : StoredFile → Read

abbrev pub read_of : Result StoredFile → Read
read_of (ok f) = reads f
read_of (err e) = failed other_error

unfoldable pub read_file : Opened → Read
read_file not_exist = failed not_found
read_file refused = failed other_error
read_file (opened bs) = read_of (read_fields bs).0

-- AsRaw
unfoldable pub as_raw : StoredFile → Bytes
as_raw f = be 4 f.fcc ++ (be 4 f.sequence ++ (be 8 f.when ++ f.buf))

-- The codes of panda that AsScience and AsImage compare with.
pub record Codes : Type 0 where
  pub sync : Bytes
  pub mma : Bytes
  pub svs : Bytes
  pub jpeg : Bytes
  pub png : Bytes
  pub yuy2 : Bytes
  pub y800 : Bytes
  pub i420 : Bytes
  pub rgb : Bytes
  pub y16b : Bytes
  pub y16l : Bytes

pub data Export : Type 0 where
  sync_unit science_data svs_data : Export

pub data Layout : Type 0 where
  encoded lbr gray8 planar rgb gray16_big gray16_little : Layout

-- `export` is that of internal/science, `decode` makes an image of a layout (image.Decode and
-- internal/image), `encode` writes it as a jpeg, gif or png; none is an error.
module _ {A : Type 0} (c : Codes) (export : Export → StoredFile → Option Bytes)
    (decode : Layout → ℕ → ℕ → Bytes → Option A) (encode : Bytes → A → Option Bytes) where
  unfoldable pub as_science : StoredFile → Option Bytes
  as_science f =
      let fcc = be 4 f.fcc in
      if text_eq fcc c.sync
      then export sync_unit f
      else if text_eq fcc c.mma
      then export science_data f
      else if text_eq fcc c.svs
      then export svs_data f
      else none

  -- The switch of AsImage.
  unfoldable pub layout_of : Bytes → Option Layout
  layout_of fcc =
      if text_eq fcc c.jpeg || text_eq fcc c.png
      then some encoded
      else if text_eq fcc c.jpeg || text_eq fcc c.yuy2
      then some lbr
      else if text_eq fcc c.jpeg || text_eq fcc c.y800
      then some gray8
      else if text_eq fcc c.jpeg || text_eq fcc c.i420
      then some planar
      else if text_eq fcc c.jpeg || text_eq fcc c.rgb
      then some rgb
      else if text_eq fcc c.jpeg || text_eq fcc c.y16b
      then some gray16_big
      else if text_eq fcc c.jpeg || text_eq fcc c.y16l
      then some gray16_little
      else none

  image_of : Option Layout → ℕ → ℕ → Bytes → Bytes → Option Bytes
  image_of none x y bs t = none
  image_of (some l) x y bs t = elim (decode l x y bs) [ none ↦ none | some i ↦ encode t i ]

  read_image : StoredFile → Bytes → Reader (Option Bytes)
  unfolding image_of
  read_image f t = do
    x ← read_or 0 2
    y ← read_or 0 2
    λ r. (ok (image_of (layout_of (be 4 f.fcc)) x y r t), [])

  abbrev image_read : Result (Option Bytes) → Option Bytes
  image_read (ok i) = i
  image_read (err e) = none

  -- AsImage
  unfoldable pub as_image : StoredFile → Bytes → Option Bytes
  unfolding read_image
  as_image f t = image_read (read_image f t f.buf).0

-- What ServeHTTP answers: the status, the content type that is set and the body. The etag and the times
-- are left out.
pub record Response : Type 0 where
  pub status : ℕ
  pub content_type : Bytes
  pub body : Bytes

abbrev pub only_status : ℕ → Response
only_status n = record { status = n; content_type = []; body = [] }

-- The text in front of the first slash, and the text behind it up to the next one.
abbrev before_slash : Bytes → Bytes
before_slash [] = []
before_slash (b ∷ s) = if b == 47 then [] else b ∷ before_slash s

abbrev behind_slash : Bytes → Bytes
behind_slash [] = []
behind_slash (b ∷ s) = if b == 47 then s else behind_slash s

-- SubType of a type that has a slash.
abbrev sub_type : Bytes → Bytes
sub_type m = before_slash (behind_slash m)

abbrev status_of : FetchError → ℕ
status_of not_found = 404
status_of other_error = 400

module _ {A : Type 0} (c : Codes) (export : Export → StoredFile → Option Bytes)
    (decode : Layout → ℕ → ℕ → Bytes → Option A) (encode : Bytes → A → Option Bytes) where
  -- The switch of ServeHTTP on the type. It has no default; only the types of the list come in.
  unfoldable pub render : Bytes → StoredFile → Option Bytes
  render mime f =
      if text_eq mime mime_octet
      then some (as_raw f)
      else if text_eq mime mime_gif || (text_eq mime mime_jpg || text_eq mime mime_png)
      then as_image c export decode encode f (sub_type mime)
      else if text_eq mime mime_csv
      then as_science c export decode encode f
      else some []

  abbrev body_as : Bytes → Option Bytes → Response
  body_as mime none = only_status 500
  body_as mime (some b) = record { status = 200; content_type = mime; body = b }

  abbrev answer_as : Option Bytes → StoredFile → Response
  answer_as none f = only_status 406
  answer_as (some mime) f = body_as mime (render mime f)

  abbrev answer : Bytes → Read → Response
  answer a (failed e) = only_status (status_of e)
  answer a (reads f) = answer_as (accept a types) f

  -- The branch for application/xml.
  abbrev copy_opened : Opened → Response
  copy_opened not_exist = only_status 404
  copy_opened refused = only_status 404
  copy_opened (opened bs) = record { status = 200; content_type = []; body = bs }

  -- ServeHTTP, for the header accept and what opening the path gives.
  unfoldable pub serve : Bytes → Opened → Response
  serve a o =
      if is_acceptable a (codes "application/xml" ∷ [])
      then copy_opened o
      else answer a (read_file o)
