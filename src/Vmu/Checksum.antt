-- ===== src/Vmu/Checksum.antt =====
-- What encodeTable and encodeImage write of a whole packet: sync word, size and checksum.
use hadock.Common.{
  ℕ, ◌+◌, ◌-◌, ◌%◌, ◌<◌, ◌≡◌, refl, sym, ap, subst, ◌∙◌, some, ◌++◌, Bytes, length, length-append,
  take, drop, u32, append_assoc, take-append, drop-append, arith,
}
use hadock.Common.Endian.{be, le, of_le, of_le-le, length-le}
use hadock.Vmu.{
  hrdl_magic, VmuKind, table, image, Channel, science, video1, video2, ok, encode_body, summed,
  hrdl_header, sum_hrd,
}
use hadock.Vmu.Sum.{total, sum_hrd-total}
use hadock.Vmu.Sizes.{
  IsSized, content, encode_body-content, length-content, length-hrdl_header, length-summed,
  science_len,
}

-- A sync word, a size and a body whose last four bytes are the sum of those between.
pub record IsFramed (size : ℕ) (bs : Bytes) : Type 0 where
  pub sync : take 4 bs ≡ be 4 hrdl_magic
  pub sized : of_le (take 4 (drop 4 bs)) ≡ size
  pub summed_up :
      of_le (drop (length bs - 4) bs) ≡ total (drop 8 (take (length bs - 4) bs)) % 4294967296

drop_at : (xs ys : Bytes) (n : ℕ) → length xs ≡ n → drop n (xs ++ ys) ≡ ys
drop_at xs ys n h = subst (λ k. drop k (xs ++ ys) ≡ ys) h (drop-append xs ys)

take_at : (xs ys : Bytes) (n : ℕ) → length xs ≡ n → take n (xs ++ ys) ≡ xs
take_at xs ys n h = subst (λ k. take k (xs ++ ys) ≡ xs) h (take-append xs ys)

last_sum :
    (head cs : Bytes)
    → length head ≡ 8
    → of_le (drop (length (head ++ summed cs) - 4) (head ++ summed cs))
      ≡ total (drop 8 (take (length (head ++ summed cs) - 4) (head ++ summed cs))) % 4294967296
unfolding summed
last_sum head cs h =
    let m = length (head ++ summed cs) - 4 in
    let n : length (head ++ cs) ≡ length (head ++ (cs ++ le 4 (sum_hrd cs))) - 4 = omega (
      arith,
      length-append head cs,
      length-append head (cs ++ le 4 (sum_hrd cs)),
      length-append cs (le 4 (sum_hrd cs)),
      length-le 4 (sum_hrd cs),
    ) in
    let whole = append_assoc head cs (le 4 (sum_hrd cs)) in
    let front : take m (head ++ summed cs) ≡ head ++ cs =
      subst (λ xs. take m xs ≡ head ++ cs) whole (take_at (head ++ cs) (le 4 (sum_hrd cs)) m n) in
    let back : drop m (head ++ summed cs) ≡ le 4 (sum_hrd cs) =
      subst (λ xs. drop m xs ≡ le 4 (sum_hrd cs)) whole
        (drop_at (head ++ cs) (le 4 (sum_hrd cs)) m n) in
    ap of_le back
    ∙ of_le-le 4 (sum_hrd cs) (omega (arith, sum_hrd-total cs))
    ∙ sum_hrd-total cs
    ∙ ap (λ xs. total xs % 4294967296) (sym (ap (drop 8) front ∙ drop_at head cs 8 h))

sync_word : (body rest : Bytes) → take 4 (hrdl_header body ++ rest) ≡ be 4 hrdl_magic
unfolding hrdl_header be
sync_word body rest = refl

size_word :
    (body rest : Bytes)
    → 68 + length body < 4294967296
    → of_le (take 4 (drop 4 (hrdl_header body ++ rest))) ≡ 68 + length body
unfolding hrdl_header be le
size_word body rest h = of_le-le 4 (u32 (72 + length body - 4)) (omega arith) ∙ omega arith

-- What the size word leaves uncounted of what is written.
abbrev pub uncounted : VmuKind → ℕ
uncounted (image v i) = 36
uncounted _ = 16

science_len-uncounted : (k : VmuKind) (c : Channel) → IsSized k c → science_len c ≡ 40 + uncounted k
unfolding IsSized
science_len-uncounted (table v (some s)) science h = refl
science_len-uncounted (image v (some i)) video1 h = refl
science_len-uncounted (image v (some i)) video2 h = refl
science_len-uncounted _ _ h = absurd h

-- A packet with headers of panda's widths is encoded, whatever its payload below 2 ^ 32 - 68
-- bytes: its sync word is HRDLMagic, its last four bytes are the sum modulo 2 ^ 32 of all between
-- them and the size, and the size is 16 bytes less than what is written for a table, and 36 bytes
-- less for an image.
pub encode_body-IsFramed :
    (k : VmuKind) (c : Channel) (body : Bytes)
    → IsSized k c
    → 68 + length body < 4294967296
    → (bs : Bytes) × ((encode_body k body ≡ ok bs)
        × (IsFramed (68 + length body) bs × (length bs ≡ 68 + length body + uncounted k)))
encode_body-IsFramed k c body h l = (
  hrdl_header body ++ summed (content k body),
  (
    encode_body-content k c body h,
    (
      record {
        sync = sync_word body (summed (content k body));
        sized = size_word body (summed (content k body)) l;
        summed_up = last_sum (hrdl_header body) (content k body) (length-hrdl_header body);
      },
      omega (
        arith,
        length-append (hrdl_header body) (summed (content k body)),
        length-hrdl_header body,
        length-summed (content k body),
        length-content k c body h,
        science_len-uncounted k c h,
      ),
    ),
  ),
)
