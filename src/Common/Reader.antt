-- ===== src/Common/Reader.antt =====
-- io.Reader over the bytes that are still to come, and the readers of encoding/binary and io.
-- A reader returns its outcome and the bytes that are left: a failed read has taken bytes too.
pub mod Progress
use mathlib.Core.List.{[], ◌++◌}
use mathlib.Core.Path.{◌≡◌}
use mathlib.Core.Logic.{inl, inr, ◌≢◌}
use Prim.Native.Nat.{ℕ, ◌+◌, ◌≤◌, ◌<◌, ◌^◌}
use native.Mathlib.Omega.{arith}
use hadock.Common.Tests.{leb, leb→le, le→leb, ◌==◌, if◌then◌else◌, Bool-cases}
use hadock.Common.Lists.{length, length-append, length-drop, take, drop, take-append, drop-append}
use hadock.Common.Endian.{Bytes, be, le, of_be, of_le, of_be-be, of_le-le, length-be, length-le}

-- The errors that the decoders of this repository tell apart. `out_of_fuel` is no Go value: it says
-- that a loop of the model stopped early.
pub data Error : Type 0 where
  eof unexpected_eof skip unsupported_protocol unsupported_vmu_version not_implemented : Error
  version_mismatched : ℕ → ℕ → Error
  out_of_fuel : Error

pub data Result {ℓ} (A : Type ℓ) : Type ℓ where
  ok : A → Result A
  err : Error → Result A

abbrev pub Reader {ℓ} : Type ℓ → Type ℓ
Reader A = Bytes → Result A × Bytes

unfoldable pub pure {ℓ} : {A : Type ℓ} → A → Reader A
pure a r = (ok a, r)

unfoldable pub fail {ℓ} : {A : Type ℓ} → Error → Reader A
fail e r = (err e, r)

-- What follows a read, on its outcome.
abbrev pub and_then {ℓ κ} : {A : Type ℓ} {B : Type κ} → Result A → (A → Reader B) → Reader B
and_then (ok a) f r = f a r
and_then (err e) f r = (err e, r)

infixl 5 ◌>>=◌
unfoldable pub ◌>>=◌ {ℓ κ} : {A : Type ℓ} {B : Type κ} → Reader A → (A → Reader B) → Reader B
◌>>=◌ m f r = and_then (m r).0 f (m r).1

-- io.ReadFull of n bytes: EOF if none is left, ErrUnexpectedEOF if too few are.
unfoldable pub read_full : ℕ → Reader Bytes
read_full n r =
    if leb n (length r)
    then (ok (take n r), drop n r)
    else (err (if length r == 0 then eof else unexpected_eof), [])

-- binary.Read(r, binary.BigEndian, &v) into an unsigned v of k bytes.
unfoldable pub read_be : ℕ → Reader ℕ
read_be k = do bs ← read_full k; pure (of_be bs)

-- binary.Read(r, binary.LittleEndian, &v) into an unsigned v of k bytes.
unfoldable pub read_le : ℕ → Reader ℕ
read_le k = do bs ← read_full k; pure (of_le bs)

pub read_full-append :
    (xs rest : Bytes) (n : ℕ) → length xs ≡ n → read_full n (xs ++ rest) ≡ (ok xs, rest)
unfolding read_full
read_full-append xs rest n h = rw (← h) (
    rw (le→leb (length xs) (length (xs ++ rest)) (omega (arith, length-append xs rest)))
      (rw (take-append xs rest, drop-append xs rest)))

pub read_be-be : (k v : ℕ) (rest : Bytes) → v < 256 ^ k → read_be k (be k v ++ rest) ≡ (ok v, rest)
unfolding read_be ◌>>=◌ pure
read_be-be k v rest h = rw (read_full-append (be k v) rest k (length-be k v)) (rw (of_be-be k v h))

pub read_le-le : (k v : ℕ) (rest : Bytes) → v < 256 ^ k → read_le k (le k v ++ rest) ≡ (ok v, rest)
unfolding read_le ◌>>=◌ pure
read_le-le k v rest h = rw (read_full-append (le k v) rest k (length-le k v)) (rw (of_le-le k v h))
