-- ===== src/Vmu/Sum.antt =====
-- The checksum of vmu/crc.go.
use hadock.Common.{ℕ, ◌+◌, ◌%◌, ◌≡◌, ◌<◌, refl, [], ◌∷◌, ◌++◌, arith, Bytes, u32}
use hadock.Vmu.{write_sum, sum_hrd}

-- The sum of all bytes.
abbrev pub total : Bytes → ℕ
total [] = 0
total (b ∷ bs) = b + total bs

write_sum-total :
    (sum : ℕ) (bs : Bytes) → write_sum sum bs % 4294967296 ≡ (sum + total bs) % 4294967296
unfolding write_sum
write_sum-total sum [] = omega arith
write_sum-total sum (b ∷ bs) = omega (arith, write_sum-total (u32 (sum + b)) bs)

-- The state is the same whether bytes are written at once or in two parts.
pub write_sum-append :
    (sum : ℕ) (bs cs : Bytes) → write_sum sum (bs ++ cs) ≡ write_sum (write_sum sum bs) cs
unfolding write_sum
write_sum-append sum [] cs = refl
write_sum-append sum (b ∷ bs) cs = write_sum-append (u32 (sum + b)) bs cs

write_sum-u32 : (sum : ℕ) (bs : Bytes) → sum < 4294967296 → write_sum sum bs < 4294967296
unfolding write_sum
write_sum-u32 sum [] h = h
write_sum-u32 sum (b ∷ bs) h = write_sum-u32 (u32 (sum + b)) bs (omega arith)

-- The checksum is the sum of all bytes, modulo 2 ^ 32.
pub sum_hrd-total : (bs : Bytes) → sum_hrd bs ≡ total bs % 4294967296
unfolding sum_hrd
sum_hrd-total bs = omega (arith, write_sum-total 0 bs, write_sum-u32 0 bs (omega arith))
