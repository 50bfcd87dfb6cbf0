-- ===== src/Distrib/Browse/Names.antt =====
-- For which names of files the listing of a directory panics.
use hadock.Common.{
  ℕ, ◌+◌, ◌<◌, ◌≡◌, ◌≢◌, ◌↔◌, refl, sym, ◌∙◌, Bool, true, false, not, ◌||◌, Option, none, some,
  List, [], ◌∷◌, Bytes, length, if◌then◌else◌, Bool-cases, inl, inr, arith, ◌⊎◌,
}
use hadock.Distrib.Browse.{
  FileInfo, Info, Encoding, encoding_of, ends_server, is_separator, split_fields, fields, bare_info,
  named_info, info_of, cons_info, read_dir, encoded, encoded_as, answer_listing, serve,
}
use hadock.Storage.Files.{has_suffix, xml}

-- How often a text goes from separators, or its start, to another byte. `inside` says that the byte in
-- front is no separator.
abbrev pub starts_of : Bool → Bytes → ℕ
starts_of inside [] = 0
starts_of inside (b ∷ s) =
    let rest = starts_of (not (is_separator b)) s in
    if is_separator b || inside then rest else 1 + rest

-- The texts with fields, by the way they begin.
split_fields-starts :
    (s : Bytes)
    → (length (fields s) ≡ starts_of false s) × (length (split_fields s).1 ≡ starts_of true s)
split_fields-starts [] = (refl, refl)
split_fields-starts (b ∷ s) =
    let ih = split_fields-starts s in
    elim (Bool-cases (is_separator b)) [
      | inl e ↦ rw e (ih.0, ih.0)
      | inr e ↦ rw e (omega (arith, ih.1), ih.1)
    ]

-- A file that is listed with a name of fewer than five parts between underscores and dots.
pub record IsShort (i : FileInfo) : Type 0 where
  pub is_file : i.is_dir ≡ false
  pub listed : has_suffix i.name xml ≡ false
  pub few : starts_of false i.name < 5

pub data HasShort : List FileInfo → Type 0 where
  here : (i : FileInfo) (is : List FileInfo) → IsShort i → HasShort (i ∷ is)
  later : (i : FileInfo) (is : List FileInfo) → HasShort is → HasShort (i ∷ is)

module _ (atoi parse_time : Bytes → ℕ) where
  named_info-few :
      (fs : List Bytes) (n : Info) → (named_info atoi parse_time fs n ≡ none) ↔ (length fs < 5)
  named_info-few [] n = (λ h. omega arith, λ h. refl)
  named_info-few (a ∷ []) n = (λ h. omega arith, λ h. refl)
  named_info-few (a ∷ b ∷ []) n = (λ h. omega arith, λ h. refl)
  named_info-few (a ∷ b ∷ c ∷ []) n = (λ h. omega arith, λ h. refl)
  named_info-few (a ∷ b ∷ c ∷ d ∷ []) n = (λ h. omega arith, λ h. refl)
  named_info-few (a ∷ b ∷ c ∷ d ∷ e ∷ fs) n = (λ h. cc, λ h. absurd (omega (arith, h)))

  info_of-file :
      (i : FileInfo)
      → i.is_dir ≡ false
      → info_of atoi parse_time i ≡ named_info atoi parse_time (fields i.name) (bare_info i)
  unfolding info_of
  info_of-file i d = simp d refl

  info_of-dir : (i : FileInfo) → i.is_dir ≡ true → info_of atoi parse_time i ≡ some (bare_info i)
  unfolding info_of
  info_of-dir i d = simp d refl

  -- The information on an entry is missing exactly if that is a file with a short name.
  info_of-few :
      (i : FileInfo)
      → (info_of atoi parse_time i ≡ none) ↔ ((i.is_dir ≡ false) × (starts_of false i.name < 5))
  info_of-few i = elim (Bool-cases i.is_dir) [
    | inl d ↦ (λ h. let e = info_of-dir i d in cc, λ h. let e = h.0 in cc)
    | inr d ↦
        let f = named_info-few (fields i.name) (bare_info i) in
        let n = (split_fields-starts i.name).0 in
        let e = info_of-file i d in
        (λ h. (d, omega (arith, n, f.0 (sym e ∙ h))), λ h. e ∙ f.1 (omega (arith, n, h.1)))
  ]

  cons_info-cases :
      (o : Option Info) (r : Option (List Info)) → (cons_info o r ≡ none) → (o ≡ none) ⊎ (r ≡ none)
  unfolding cons_info
  cons_info-cases none r h = inl refl
  cons_info-cases (some n) none h = inr refl
  cons_info-cases (some n) (some ns) h = cc

  cons_info-missing :
      (o : Option Info) (r : Option (List Info)) → (o ≡ none) ⊎ (r ≡ none) → cons_info o r ≡ none
  unfolding cons_info
  cons_info-missing none r h = refl
  cons_info-missing (some n) none h = refl
  cons_info-missing (some n) (some ns) (inl h) = cc
  cons_info-missing (some n) (some ns) (inr h) = cc

  read_dir-skips :
      (i : FileInfo) (is : List FileInfo)
      → has_suffix i.name xml ≡ true
      → read_dir atoi parse_time (i ∷ is) ≡ read_dir atoi parse_time is
  unfolding read_dir
  read_dir-skips i is e = rw e refl

  read_dir-takes :
      (i : FileInfo) (is : List FileInfo)
      → has_suffix i.name xml ≡ false
      → read_dir atoi parse_time (i ∷ is)
        ≡ cons_info (info_of atoi parse_time i) (read_dir atoi parse_time is)
  unfolding read_dir
  read_dir-takes i is e = rw e refl

  read_dir-short : (is : List FileInfo) → HasShort is → read_dir atoi parse_time is ≡ none
  read_dir-short [] h = elim h [ ]
  read_dir-short (i ∷ is) (here _ _ s) =
      read_dir-takes i is s.listed
      ∙ cons_info-missing _ _ (inl ((info_of-few i).1 (s.is_file, s.few)))
  read_dir-short (i ∷ is) (later _ _ h) = elim (Bool-cases (has_suffix i.name xml)) [
    | inl e ↦ read_dir-skips i is e ∙ read_dir-short is h
    | inr e ↦ read_dir-takes i is e ∙ cons_info-missing _ _ (inr (read_dir-short is h))
  ]

  short-read_dir : (is : List FileInfo) → read_dir atoi parse_time is ≡ none → HasShort is
  unfolding read_dir
  short-read_dir [] h = cc
  short-read_dir (i ∷ is) h = elim (Bool-cases (has_suffix i.name xml)) [
    | inl e ↦ later i is (short-read_dir is (sym (read_dir-skips i is e) ∙ h))
    | inr e ↦ elim (cons_info-cases _ _ (sym (read_dir-takes i is e) ∙ h)) [
      | inl m ↦
          let f = (info_of-few i).0 m in here i is (record { is_file = f.0; listed = e; few = f.1 })
      | inr m ↦ later i is (short-read_dir is m)
    ]
  ]

  module _ (encode : Encoding → List Info → Option Bytes) where
    encoded-answers : (o : Option Bytes) → encoded atoi parse_time encode o ≢ ends_server
    encoded-answers none = λ e. cc
    encoded-answers (some bs) = λ e. cc

    encoded_as-answers :
        (e : Option Encoding) (ns : List Info)
        → encoded_as atoi parse_time encode e ns ≢ ends_server
    encoded_as-answers none ns = λ e. cc
    encoded_as-answers (some e) ns = encoded-answers (encode e ns)

    answer_listing-panics :
        (a : Bytes) (o : Option (List Info))
        → (answer_listing atoi parse_time encode a o ≡ ends_server) ↔ (o ≡ none)
    answer_listing-panics a none = (λ e. refl, λ e. refl)
    answer_listing-panics a (some ns) =
        (λ e. absurd (encoded_as-answers (encoding_of a) ns e), λ e. cc)

    -- Whatever types a request accepts, ServeHTTP ends the server by a panic exactly if the directory can
    -- be read and has a file that is not XML and whose name has fewer than five parts between underscores
    -- and dots.
    pub serve-HasShort :
        (a : Bytes) (is : List FileInfo)
        → (serve atoi parse_time encode a (some is) ≡ ends_server) ↔ HasShort is
    unfolding serve
    serve-HasShort a is =
        let p = answer_listing-panics a (read_dir atoi parse_time is) in
        (λ e. short-read_dir is (p.0 e), λ h. p.1 (read_dir-short is h))
