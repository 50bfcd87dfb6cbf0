-- ===== src/Vmu/Sizes.antt =====
-- The sizes that the two headers of an encoded packet hold.
use hadock.Common.{
  ℕ, ◌+◌, ◌-◌, ◌<◌, ◌≡◌, refl, ◌∙◌, ap, true, some, [], ◌++◌, Bytes, length, length-append, take,
  u32, arith,
}
use hadock.Common.Endian.{be, le, of_le, of_le-le, length-be, length-le}
use hadock.Vmu.{
  hrdl_magic, fsl_magic, hrdp_header_len, hrdl_sync_len, vmu_h_len, sdh_len_v2, idh_len_v2, Channel,
  science, video1, video2, VmuKind, table, image, VmuPacket, Split, ok, encode_vmu_header,
  encode_sdh, encode_idh, hrdl_header, summed, encode_table, encode_image, header_len,
  encode_hrdp_header, encode_body, encode_vmu_packet, sum_hrd,
}

-- The headers have the widths of panda's.
unfoldable pub IsSized : VmuKind → Channel → Type 0
IsSized (table v (some s)) science =
    (length (encode_vmu_header v) ≡ vmu_h_len) × (length (encode_sdh s) ≡ sdh_len_v2)
IsSized (image v (some i)) video1 =
    (length (encode_vmu_header v) ≡ vmu_h_len) × (length (encode_idh i) ≡ idh_len_v2)
IsSized (image v (some i)) video2 =
    (length (encode_vmu_header v) ≡ vmu_h_len) × (length (encode_idh i) ≡ idh_len_v2)
IsSized _ _ = ⊥

-- What is written behind the sync word and the size: headers and payload, without the checksum.
unfoldable pub content : VmuKind → Bytes → Bytes
content (table v (some s)) body = encode_vmu_header v ++ (encode_sdh s ++ body)
content (image v (some i)) body = encode_vmu_header v ++ (encode_idh i ++ body)
content _ body = []

abbrev pub science_len : Channel → ℕ
science_len science = sdh_len_v2
science_len _ = idh_len_v2

pub length-content :
    (k : VmuKind) (c : Channel) (body : Bytes)
    → IsSized k c
    → length (content k body) ≡ vmu_h_len + science_len c + length body
unfolding IsSized content
length-content (table v (some s)) science body h = omega (
  arith,
  length-append (encode_vmu_header v) (encode_sdh s ++ body),
  length-append (encode_sdh s) body,
  h.0,
  h.1,
)
length-content (image v (some i)) video1 body h = omega (
  arith,
  length-append (encode_vmu_header v) (encode_idh i ++ body),
  length-append (encode_idh i) body,
  h.0,
  h.1,
)
length-content (image v (some i)) video2 body h = omega (
  arith,
  length-append (encode_vmu_header v) (encode_idh i ++ body),
  length-append (encode_idh i) body,
  h.0,
  h.1,
)
length-content _ _ body h = absurd h

pub encode_body-content :
    (k : VmuKind) (c : Channel) (body : Bytes)
    → IsSized k c
    → encode_body k body ≡ ok (hrdl_header body ++ summed (content k body))
unfolding IsSized content encode_body encode_table encode_image
encode_body-content (table v (some s)) science body h = refl
encode_body-content (image v (some i)) video1 body h = refl
encode_body-content (image v (some i)) video2 body h = refl
encode_body-content _ _ body h = absurd h

IsSized-header_len : (k : VmuKind) (c : Channel) → IsSized k c → header_len c ≡ some (science_len c)
unfolding IsSized
IsSized-header_len (table v (some s)) science h = refl
IsSized-header_len (image v (some i)) video1 h = refl
IsSized-header_len (image v (some i)) video2 h = refl
IsSized-header_len _ _ h = absurd h

-- The value of the size word of the HRDP.
abbrev pub hrdp_size : VmuPacket → ℕ
hrdp_size p =
    hrdp_header_len + hrdl_sync_len + vmu_h_len + 4 + science_len p.channel + length p.payload

pub length-hrdl_header : (body : Bytes) → length (hrdl_header body) ≡ 8
unfolding hrdl_header
length-hrdl_header body = omega (
  arith,
  length-append (be 4 hrdl_magic) (le 4 (u32 (vmu_h_len + sdh_len_v2 + length body - 4))),
  length-be 4 hrdl_magic,
  length-le 4 (u32 (vmu_h_len + sdh_len_v2 + length body - 4)),
)

pub length-summed : (bs : Bytes) → length (summed bs) ≡ length bs + 4
unfolding summed
length-summed bs = omega (arith, length-append bs (le 4 (sum_hrd bs)), length-le 4 (sum_hrd bs))

module _ (channel_byte : Channel → ℕ) (now : Split) where
  -- The header of the HRDP behind its size.
  unfoldable pub hrdp_fields : VmuPacket → Bytes
  hrdp_fields p =
      be 2 0
      ++ (be 1 fsl_magic
          ++ (be 1 (channel_byte p.channel)
              ++ (be 4 p.acquired.fine
                  ++ (be 1 p.acquired.coarse ++ (be 4 now.fine ++ be 1 now.coarse)))))

  pub length-hrdp_fields : (p : VmuPacket) → length (hrdp_fields p) ≡ 14
  unfolding hrdp_fields be
  length-hrdp_fields p = refl

  -- A whole packet, by its parts.
  unfoldable pub framed : VmuPacket → Bytes
  framed p =
      (le 4 (u32 (hrdp_size p)) ++ hrdp_fields p)
      ++ (hrdl_header p.payload ++ summed (content p.kind p.payload))

  encode_hrdp_header-fields :
      (p : VmuPacket)
      → header_len p.channel ≡ some (science_len p.channel)
      → encode_hrdp_header channel_byte now p ≡ ok (le 4 (u32 (hrdp_size p)) ++ hrdp_fields p)
  unfolding encode_hrdp_header hrdp_fields
  encode_hrdp_header-fields p h = rw (h, encode_hrdp_header)

  pub encode_packet-framed :
      (p : VmuPacket)
      → IsSized p.kind p.channel
      → encode_vmu_packet channel_byte now p true ≡ ok (framed p)
  unfolding encode_vmu_packet framed
  encode_packet-framed p h = rw (
    encode_hrdp_header-fields p (IsSized-header_len p.kind p.channel h),
    encode_body-content p.kind p.channel p.payload h,
    encode_vmu_packet,
  )

  pub length-framed :
      (p : VmuPacket) → IsSized p.kind p.channel → length (framed p) ≡ 4 + hrdp_size p
  unfolding framed
  length-framed p h = omega (
    arith,
    length-append (le 4 (u32 (hrdp_size p)) ++ hrdp_fields p)
        (hrdl_header p.payload ++ summed (content p.kind p.payload)),
    length-append (le 4 (u32 (hrdp_size p))) (hrdp_fields p),
    length-le 4 (u32 (hrdp_size p)),
    length-hrdp_fields p,
    length-append (hrdl_header p.payload) (summed (content p.kind p.payload)),
    length-hrdl_header p.payload,
    length-summed (content p.kind p.payload),
    length-content p.kind p.channel p.payload h,
  )

  take4-framed : (p : VmuPacket) → take 4 (framed p) ≡ le 4 (u32 (hrdp_size p))
  unfolding framed le
  take4-framed p = refl

  pub framed-size :
      (p : VmuPacket) → hrdp_size p < 4294967296 → of_le (take 4 (framed p)) ≡ hrdp_size p
  unfolding framed
  framed-size p h =
      ap of_le (take4-framed p) ∙ of_le-le 4 (u32 (hrdp_size p)) (omega arith) ∙ (omega arith)
