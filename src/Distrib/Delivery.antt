-- ===== src/Distrib/Delivery.antt =====
-- What ServeHTTP of distrib/fetch.go delivers.
use hadock.Common.{
  ℕ, zero, suc, ◌≡◌, ◌≤◌, refl, subst, true, false, Option, [], ◌∷◌, ◌++◌, Bytes, length, le→leb,
  take, drop, All, IsByte, take-append-drop, length-take, length-drop, arith,
}
use hadock.Common.Endian.{be, of_be, be-of_be}
use hadock.Common.Reader.{ok, ◌>>=◌, and_then, read_be, read_full, pure}
use hadock.Common.Texts.{codes}
use hadock.Notifier.{read_or}
use hadock.Distrib.{
  StoredFile, Codes, Export, Layout, opened, reads, contains, read_of, mime_octet, read_fields,
  read_file, as_raw, render, serve,
}

All-take-drop :
    (n : ℕ) (xs : Bytes) → All IsByte xs → All IsByte (take n xs) × All IsByte (drop n xs)
All-take-drop zero xs h = (tt, h)
All-take-drop (suc n) [] h = (tt, tt)
All-take-drop (suc n) (x ∷ xs) h = let r = All-take-drop n xs h.1 in ((h.0, r.0), r.1)

-- A field that is there is read.
read_full-there :
    (k : ℕ) (bs : Bytes) → k ≤ length bs → read_full k bs ≡ (ok (take k bs), drop k bs)
unfolding read_full
read_full-there k bs h = rw (le→leb k (length bs) h) refl

read_be-there :
    (k : ℕ) (bs : Bytes) → k ≤ length bs → read_be k bs ≡ (ok (of_be (take k bs)), drop k bs)
unfolding read_be ◌>>=◌ pure
read_be-there k bs h = rw (read_full-there k bs h) refl

read_or-there :
    (k : ℕ) (bs : Bytes) → k ≤ length bs → read_or 0 k bs ≡ (ok (of_be (take k bs)), drop k bs)
unfolding read_or
read_or-there k bs h = rw (read_or, read_be-there k bs h, read_be-there k bs h) refl

be-of_be-take :
    (k : ℕ) (bs : Bytes) → All IsByte bs → k ≤ length bs → be k (of_be (take k bs)) ≡ take k bs
be-of_be-take k bs h n =
    let l : length (take k bs) ≡ k = omega (arith, length-take k bs) in
    subst (λ m. be m (of_be (take k bs)) ≡ take k bs) l
      (be-of_be (take k bs) (All-take-drop k bs h).0)

-- What the fields of a file become in read_file.
read_fields-full :
    (bs : Bytes)
    → 16 ≤ length bs
    → read_fields bs ≡ (
      ok (record {
        fcc = of_be (take 4 bs);
        sequence = of_be (take 4 (drop 4 bs));
        when = of_be (take 8 (drop 4 (drop 4 bs)));
        buf = drop 8 (drop 4 (drop 4 bs));
      }),
      [],
    )
unfolding read_fields ◌>>=◌
read_fields-full bs h =
    let a : 4 ≤ length (drop 4 bs) = omega (arith, length-drop 4 bs) in
    let b : 8 ≤ length (drop 4 (drop 4 bs)) =
      omega (arith, length-drop 4 bs, length-drop 4 (drop 4 bs)) in
    rw
      (
        read_or-there 4 bs (omega arith),
        and_then,
        read_or-there 4 (drop 4 bs) a,
        and_then,
        read_or-there 8 (drop 4 (drop 4 bs)) b,
        and_then,
      )
      refl

as_raw-read_fields :
    (bs : Bytes)
    → All IsByte bs
    → 16 ≤ length bs
    → (f : StoredFile) × (read_file (opened bs) ≡ reads f) × (as_raw f ≡ bs)
unfolding read_file as_raw
as_raw-read_fields bs b h = (_, rw (read_fields-full bs h, read_of) refl, whole)
  where
    xs : Bytes
    xs = drop 4 bs

    ys : Bytes
    ys = drop 4 xs

    whole :
        be 4 (of_be (take 4 bs))
          ++ (be 4 (of_be (take 4 xs)) ++ (be 8 (of_be (take 8 ys)) ++ drop 8 ys))
        ≡ bs
    whole =
        let ls : 4 ≤ length xs = omega (arith, length-drop 4 bs) in
        let ly : 8 ≤ length ys = omega (arith, length-drop 4 bs, length-drop 4 xs) in
        let bx : All IsByte xs = (All-take-drop 4 bs b).1 in
        let by : All IsByte ys = (All-take-drop 4 xs bx).1 in
        rw
          (
            be-of_be-take 4 bs b (omega arith),
            be-of_be-take 4 xs bx ls,
            be-of_be-take 8 ys by ly,
            take-append-drop 8 ys,
            take-append-drop 4 xs,
            take-append-drop 4 bs,
          )
          refl

-- A raw file of at least 16 bytes is delivered as it is stored, to a client that takes octet streams and
-- not application/xml, whatever else it takes.
pub serve-raw :
    {A : Type 0} (c : Codes) (export : Export → StoredFile → Option Bytes)
    (decode : Layout → ℕ → ℕ → Bytes → Option A) (encode : Bytes → A → Option Bytes) (a bs : Bytes)
    → contains a (codes "application/xml") ≡ false
    → contains a mime_octet ≡ true
    → All IsByte bs
    → 16 ≤ length bs
    → serve c export decode encode a (opened bs)
      ≡ record { status = 200; content_type = mime_octet; body = bs }
unfolding serve render
serve-raw c export decode encode a bs x o b h =
    let r = as_raw-read_fields bs b h in rw (x, r.1, o, r.2) refl
