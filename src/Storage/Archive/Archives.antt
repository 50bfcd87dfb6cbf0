-- ===== src/Storage/Archive/Archives.antt =====
-- What the archives hold after a series of packets.
use hadock.Common.{
  ℕ, ◌≡◌, refl, ap, sym, subst, ◌∙◌, true, false, Option, none, some, List, [], ◌∷◌, ◌++◌,
  append-nil, append_assoc, Bytes, if◌then◌else◌, Bool-cases, inl, inr,
}
use hadock.Common.Texts.{text_eq, text_eq_iff}
use hadock.Panda.{HrPacket, Kind, table, image, other}
use hadock.Storage.{can}
use hadock.Storage.Files.{World, xml}
use hadock.Storage.Hadock.{encode_raw_packet}
use hadock.Storage.Archive.{
  Entry, Caches, Tarstore, cache_key, set_cache, entry_of, write_metadata, store_metadata,
  write_raw, store_open, store, store_all,
}

abbrev pub entries : Option (List Entry) → List Entry
entries none = []
entries (some es) = es

abbrev pub no_caches : Caches
no_caches = λ k. none

module _ (w : World) (t : Tarstore) where
  -- The roller of each key can be made, and takes what it is given behind what it has.
  pub record Appends : Type 0 where
    pub rolls : (k : Bytes) → t.roll_fails k ≡ false
    pub appends :
        (k : Bytes) (es : List Entry) (e : Entry) → t.write_data k es e ≡ (false, es ++ (e ∷ []))

  abbrev pub metadata_entries : Option Bytes → ℕ → HrPacket → List Entry
  metadata_entries none i p = []
  metadata_entries (some bs) i p = entry_of w t i p xml bs ∷ []

  abbrev pub kind_entries : Kind → ℕ → HrPacket → List Entry
  kind_entries (image h) i p = metadata_entries (w.metadata p) i p
  kind_entries (table h) i p = []
  kind_entries other i p = []

  abbrev pub raw_entries : Option Bytes → ℕ → HrPacket → List Entry
  raw_entries none i p = []
  raw_entries (some bs) i p = entry_of w t i p [] bs ∷ kind_entries p.kind i p

  -- The entries of a packet: its raw bytes if there are any, with the metadata of an image behind.
  abbrev pub entries_of : ℕ → HrPacket → List Entry
  entries_of i p = raw_entries (encode_raw_packet w.raw p) i p

  -- The entries of the packets that the control takes and that have a key.
  abbrev pub entries_for : Bytes → List (ℕ × HrPacket) → List Entry
  entries_for k [] = []
  entries_for k ((i, p) ∷ ps) =
      (if can w.channel_name t.control p
        then (if text_eq k (cache_key w i p) then entries_of i p else [])
        else [])
      ++ entries_for k ps

  text_eq_refl : (k : Bytes) → text_eq k k ≡ true
  text_eq_refl k = (text_eq_iff k k).1 refl

  write_metadata-same :
      (o : Option Bytes) (k : Bytes) (i : ℕ) (p : HrPacket) (es : List Entry) (c : Caches)
      → Appends
      → c k ≡ some es
      → entries ((write_metadata w t o k i p es c).1 k) ≡ es ++ metadata_entries o i p
  unfolding write_metadata
  write_metadata-same none k i p es c a e = rw e (sym (append-nil es))
  write_metadata-same (some bs) k i p es c a e =
      rw (a.appends k es (entry_of w t i p xml bs), text_eq_refl k) refl

  write_metadata-other :
      (o : Option Bytes) (j k : Bytes) (i : ℕ) (p : HrPacket) (es : List Entry) (c : Caches)
      → Appends
      → text_eq j k ≡ false
      → (write_metadata w t o k i p es c).1 j ≡ c j
  unfolding write_metadata
  write_metadata-other none j k i p es c a e = refl
  write_metadata-other (some bs) j k i p es c a e =
      rw (a.appends k es (entry_of w t i p xml bs), e) refl

  store_metadata-same :
      (h : Kind) (k : Bytes) (i : ℕ) (p : HrPacket) (es : List Entry) (c : Caches)
      → Appends
      → c k ≡ some es
      → entries ((store_metadata w t h k i p es c).1 k) ≡ es ++ kind_entries h i p
  unfolding store_metadata
  store_metadata-same (image h) k i p es c a e = write_metadata-same (w.metadata p) k i p es c a e
  store_metadata-same (table h) k i p es c a e = rw e (sym (append-nil es))
  store_metadata-same other k i p es c a e = rw e (sym (append-nil es))

  store_metadata-other :
      (h : Kind) (j k : Bytes) (i : ℕ) (p : HrPacket) (es : List Entry) (c : Caches)
      → Appends
      → text_eq j k ≡ false
      → (store_metadata w t h k i p es c).1 j ≡ c j
  unfolding store_metadata
  store_metadata-other (image h) j k i p es c a e =
      write_metadata-other (w.metadata p) j k i p es c a e
  store_metadata-other (table h) j k i p es c a e = refl
  store_metadata-other other j k i p es c a e = refl

  write_raw-same :
      (o : Option Bytes) (k : Bytes) (i : ℕ) (p : HrPacket) (es : List Entry) (c : Caches)
      → Appends
      → c k ≡ some es
      → entries ((write_raw w t o k i p es c).1 k) ≡ es ++ raw_entries o i p
  unfolding write_raw
  write_raw-same none k i p es c a e = rw e (sym (append-nil es))
  write_raw-same (some bs) k i p es c a e = rw (a.appends k es (entry_of w t i p [] bs)) (
      store_metadata-same p.kind k i p (es ++ (entry_of w t i p [] bs ∷ []))
        (set_cache w k (es ++ (entry_of w t i p [] bs ∷ [])) c) a (rw (text_eq_refl k) refl)
      ∙ append_assoc es (entry_of w t i p [] bs ∷ []) (kind_entries p.kind i p))

  write_raw-other :
      (o : Option Bytes) (j k : Bytes) (i : ℕ) (p : HrPacket) (es : List Entry) (c : Caches)
      → Appends
      → text_eq j k ≡ false
      → (write_raw w t o k i p es c).1 j ≡ c j
  unfolding write_raw
  write_raw-other none j k i p es c a e = refl
  write_raw-other (some bs) j k i p es c a e = rw (a.appends k es (entry_of w t i p [] bs)) (
      store_metadata-other p.kind j k i p (es ++ (entry_of w t i p [] bs ∷ []))
        (set_cache w k (es ++ (entry_of w t i p [] bs ∷ [])) c) a e
      ∙ rw e refl)

  store_open-same :
      (o : Option (List Entry)) (k : Bytes) (i : ℕ) (p : HrPacket) (c : Caches)
      → Appends
      → c k ≡ o
      → entries ((store_open w t o k i p c).1 k) ≡ entries o ++ entries_of i p
  unfolding store_open
  store_open-same none k i p c a e =
      rw (a.rolls k) (write_raw-same _ k i p [] (set_cache w k [] c) a (rw (text_eq_refl k) refl))
  store_open-same (some es) k i p c a e = write_raw-same _ k i p es c a e

  store_open-other :
      (o : Option (List Entry)) (j k : Bytes) (i : ℕ) (p : HrPacket) (c : Caches)
      → Appends
      → text_eq j k ≡ false
      → (store_open w t o k i p c).1 j ≡ c j
  unfolding store_open
  store_open-other none j k i p c a e =
      rw (a.rolls k) (write_raw-other _ j k i p [] (set_cache w k [] c) a e ∙ rw e refl)
  store_open-other (some es) j k i p c a e = write_raw-other _ j k i p es c a e

  -- A packet adds its entries to the archive of its key.
  store-adds :
      (i : ℕ) (p : HrPacket) (c : Caches) (k : Bytes)
      → Appends
      → entries ((store w t i p c).1 k)
        ≡ entries (c k)
          ++ (if can w.channel_name t.control p
              then (if text_eq k (cache_key w i p) then entries_of i p else [])
              else [])
  unfolding store
  store-adds i p c k a = elim (Bool-cases (can w.channel_name t.control p)) [
    | inr f ↦ rw f (sym (append-nil (entries (c k))))
    | inl f ↦ elim (Bool-cases (text_eq k (cache_key w i p))) [
      | inr e ↦
          rw (f, e)
            (ap entries (store_open-other (c (cache_key w i p)) k (cache_key w i p) i p c a e)
              ∙ sym (append-nil (entries (c k))))
      | inl e ↦
          let s : k ≡ cache_key w i p = (text_eq_iff k (cache_key w i p)).0 e in
          rw (f, e)
            (subst
              (λ j.
                entries ((store_open w t (c (cache_key w i p)) (cache_key w i p) i p c).1 j)
                ≡ entries (c j) ++ entries_of i p)
              (sym s) (store_open-same (c (cache_key w i p)) (cache_key w i p) i p c a refl))
    ]
  ]

  store_all-adds :
      (ps : List (ℕ × HrPacket)) (c : Caches) (k : Bytes)
      → Appends
      → entries (store_all w t ps c k) ≡ entries (c k) ++ entries_for k ps
  unfolding store_all
  store_all-adds [] c k a = sym (append-nil (entries (c k)))
  store_all-adds ((i, p) ∷ ps) c k a =
      store_all-adds ps (store w t i p c).1 k a
      ∙ ap (λ es. es ++ entries_for k ps) (store-adds i p c k a)
      ∙ append_assoc (entries (c k)) _ (entries_for k ps)

  -- Whatever packets come, also some that cannot be encoded: the archive of each key holds the
  -- entries of the packets that the control takes and that have this key, in the order in which
  -- they came, and no others (the rollers can be made, and append what they are given).
  pub store_all-entries_for :
      (ps : List (ℕ × HrPacket)) (k : Bytes)
      → Appends
      → entries (store_all w t ps no_caches k) ≡ entries_for k ps
  store_all-entries_for ps k a = store_all-adds ps no_caches k a
