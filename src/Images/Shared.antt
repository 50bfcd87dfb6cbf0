-- ===== src/Images/Shared.antt =====
-- The planes of ImageLBR, of which two are slices of one array.
use hadock.Common.{
  ℕ, zero, suc, ◌+◌, ◌*◌, ◌/◌, ◌≡◌, ◌<◌, ◌≤◌, refl, ap, sym, ◌∙◌, false, none, some, [], ◌∷◌, ◌++◌,
  Bytes, length, lt→ltb, ◌==◌, ==_refl, arith, append_assoc, append-nil,
}
use hadock.Images.{
  Heap, Slice, cells_below, bytes_of, write_cell, Planes, copied, Lbr, push, lbr_round, lbr_rounds,
  lbr_start, lbr_planes, image_lbr,
}

cells_below-ext :
    (n : ℕ) (f g : ℕ → ℕ) → ((j : ℕ) → j < n → f j ≡ g j) → cells_below f n ≡ cells_below g n
cells_below-ext zero f g h = refl
cells_below-ext (suc n) f g h =
    rw (cells_below-ext n f g (λ j l. h j (omega arith)), h n (omega arith)) refl

-- A write to another array, or behind the cells, does not show.
cells_below-write_cell :
    (n a b i v : ℕ) (h : Heap)
    → (b == a) ≡ false
    → cells_below ((write_cell a i v h).cells b) n ≡ cells_below (h.cells b) n
cells_below-write_cell n a b i v h e = cells_below-ext n _ _ (λ j l. rw e refl)

cells_below-write_behind :
    (n a i v : ℕ) (h : Heap)
    → n ≤ i
    → cells_below ((write_cell a i v h).cells a) n ≡ cells_below (h.cells a) n
cells_below-write_behind n a i v h le =
    cells_below-ext n _ _ (λ j l. let e : (j == i) ≡ false = ground arith in rw (==_refl a, e) refl)

write_cell-last :
    (n a v : ℕ) (h : Heap)
    → cells_below ((write_cell a n v h).cells a) (suc n) ≡ cells_below (h.cells a) n ++ (v ∷ [])
write_cell-last n a v h =
    rw (cells_below-write_behind n a n v h (omega arith), ==_refl a, ==_refl n) refl

-- The last of each four bytes.
abbrev pub reds : Bytes → Bytes
reds [] = []
reds (a ∷ []) = []
reds (a ∷ b ∷ []) = []
reds (a ∷ b ∷ c ∷ []) = []
reds (a ∷ b ∷ c ∷ d ∷ points) = d ∷ reds points

module _ (grown : ℕ → ℕ) where
  -- There is room for k rounds, and both colours are the reds so far.
  record IsShared (st : Lbr) (k : ℕ) (done : Bytes) : Type 0 where
    room_ls : st.ls.size + 2 * k ≤ st.ls.capacity
    room_rs : st.rs.size + k ≤ st.rs.capacity
    apart : (st.rs.array == st.ls.array) ≡ false
    blue : bytes_of st.heap st.bs ≡ done
    red : bytes_of st.heap st.rs ≡ done

  push-within :
      (v : ℕ) (h : Heap) (s : Slice)
      → s.size < s.capacity
      → push grown v h s ≡ (write_cell s.array s.size v h, record s { size = suc s.size })
  unfolding push
  push-within v h s l = rw (lt→ltb s.size s.capacity l) refl

  round-IsShared :
      (a b c d k : ℕ) (st : Lbr) (done : Bytes)
      → IsShared st (suc k) done
      → IsShared (lbr_round grown a b c d st) k (done ++ (d ∷ []))
  unfolding lbr_round
  round-IsShared a b c d k st done h =
      rw
        (
          push-within a st.heap st.ls (omega (arith, h.room_ls)),
          push-within c h1 s1 (omega (arith, h.room_ls)),
          push-within b h2 st.rs (omega (arith, h.room_rs)),
          push-within d h3 st.rs (omega (arith, h.room_rs)),
        )
        (record {
          room_ls = omega (arith, h.room_ls);
          room_rs = omega (arith, h.room_rs);
          apart = h.apart;
          blue = last;
          red = last;
        })
    where
      n : ℕ
      n = st.rs.size

      h1 : Heap
      h1 = write_cell st.ls.array st.ls.size a st.heap

      s1 : Slice
      s1 = record st.ls { size = suc st.ls.size }

      h2 : Heap
      h2 = write_cell st.ls.array (suc st.ls.size) c h1

      h3 : Heap
      h3 = write_cell st.rs.array n b h2

      last :
          cells_below ((write_cell st.rs.array n d h3).cells st.rs.array) (suc n) ≡ done ++ (d ∷ [])
      last =
          write_cell-last n st.rs.array d h3
          ∙ ap (λ xs. xs ++ (d ∷ []))
              (cells_below-write_behind n st.rs.array n b h2 (omega arith)
                ∙ cells_below-write_cell n st.ls.array st.rs.array (suc st.ls.size) c h1 h.apart
                ∙ cells_below-write_cell n st.ls.array st.rs.array st.ls.size a st.heap h.apart
                ∙ h.red)

  rounds-IsShared :
      (points : Bytes) (k : ℕ) (st : Lbr) (done : Bytes)
      → length points ≡ 4 * k
      → IsShared st k done
      → (e : Lbr) × (lbr_rounds grown points st ≡ some e)
        × (bytes_of e.heap e.bs ≡ done ++ reds points)
        × (bytes_of e.heap e.rs ≡ done ++ reds points)
  unfolding lbr_rounds
  rounds-IsShared [] k st done l h =
      (st, refl, h.blue ∙ sym (append-nil done), h.red ∙ sym (append-nil done))
  rounds-IsShared (a ∷ []) k st done l h = absurd (omega (arith, l))
  rounds-IsShared (a ∷ b ∷ []) k st done l h = absurd (omega (arith, l))
  rounds-IsShared (a ∷ b ∷ c ∷ []) k st done l h = absurd (omega (arith, l))
  rounds-IsShared (a ∷ b ∷ c ∷ d ∷ points) zero st done l h = absurd (omega (arith, l))
  rounds-IsShared (a ∷ b ∷ c ∷ d ∷ points) (suc k) st done l h =
      let more =
        rounds-IsShared points k (lbr_round grown a b c d st) (done ++ (d ∷ [])) (omega (arith, l))
          (round-IsShared a b c d k st done h) in
      let e = append_assoc done (d ∷ []) (reds points) in (more.0, more.1, more.2 ∙ e, more.3 ∙ e)

  -- ImageLBR of points that come by fours makes an image whose two colour differences are one: both
  -- planes hold the last of each four bytes, and the second of each is lost.
  pub image_lbr-shared :
      (x y k : ℕ) (points : Bytes)
      → length points ≡ 4 * k
      → (g : Planes) × (image_lbr grown x y points ≡ some g)
        × (g.blue ≡ copied ((x + 1) / 2 * y) (reds points))
        × (g.red ≡ copied ((x + 1) / 2 * y) (reds points))
  unfolding image_lbr
  image_lbr-shared x y k points l =
      let r = rounds-IsShared points k (lbr_start grown (length points)) [] l (record {
        room_ls = omega (arith, l);
        room_rs = omega (arith, l);
        apart = refl;
        blue = refl;
        red = refl;
      }) in
      let n = (x + 1) / 2 * y in
      (
        lbr_planes grown x y r.0,
        ap (λ o. elim o [ none ↦ none | some st ↦ some (lbr_planes grown x y st) ]) r.1,
        ap (copied n) r.2,
        ap (copied n) r.3,
      )
