-- ===== src/Common/Reader/Progress.antt =====
-- How much a reader takes of its input, by rules for `search`, one for each form of a do block.
use hadock.Common.Tests.{if◌then◌else◌}
use hadock.Common.Lists.{length, length-drop}
use hadock.Common.Endian.{Bytes, of_be, of_le}
use hadock.Common.Reader.{
  Error, Result, ok, err, out_of_fuel, Reader, pure, fail, ◌>>=◌, and_then, read_full, read_be,
  read_le,
}
use Prim.Native.Nat.{ℕ, ◌+◌, ◌≤◌, ◌<◌}
use mathlib.Core.Path.{◌≡◌}
use mathlib.Core.Logic.{◌≢◌}
use mathlib.Core.Bool.{Bool, true, false}
use native.Mathlib.Omega.{arith}

-- `m` never gives bytes back, and takes n at least where it succeeds.
pub record Takes {ℓ} {A : Type ℓ} (n : ℕ) (m : Reader A) : Type ℓ where
  pub shorter : (r : Bytes) → length (m r).1 ≤ length r
  pub takes : (r : Bytes) (a : A) → (m r).0 ≡ ok a → length (m r).1 + n ≤ length r

-- `m` does not want for fuel.
pub record Runs {ℓ} {A : Type ℓ} (m : Reader A) : Type ℓ where
  pub fuelled : (r : Bytes) → (m r).0 ≢ err out_of_fuel

-- Where the input is not empty `m` takes a byte at least, also where it fails.
pub record Shrinks {ℓ} {A : Type ℓ} (m : Reader A) : Type ℓ where
  pub strictly : (r : Bytes) → 0 < length r → length (m r).1 < length r

module _ {ℓ} {A : Type ℓ} where
  pub pure-Takes : (a : A) → Takes 0 (pure a)
  unfolding pure
  pure-Takes a = record { shorter = λ r. omega arith; takes = λ r b e. omega arith }

  pub fail-Takes : (e : Error) → Takes {A = A} 0 (fail e)
  unfolding fail
  fail-Takes e = record { shorter = λ r. omega arith; takes = λ r a p. cc }

  pub pure-Runs : (a : A) → Runs (pure a)
  unfolding pure
  pure-Runs a = record { fuelled = λ r e. cc }

  pub fail-Runs : (e : Error) → e ≢ out_of_fuel → Runs {A = A} (fail e)
  unfolding fail
  fail-Runs e h = record { fuelled = λ r p. h (ground arith) }

  pub if-Runs : (b : Bool) (m m' : Reader A) → Runs m → Runs m' → Runs (if b then m else m')
  if-Runs true m m' h h' = h
  if-Runs false m m' h h' = h'

  pub if-Takes :
      (n : ℕ) (b : Bool) (m m' : Reader A) → Takes n m → Takes n m' → Takes n (if b then m else m')
  if-Takes n true m m' h h' = h
  if-Takes n false m m' h h' = h'

  pub Takes-zero : (n : ℕ) (m : Reader A) → Takes n m → Takes 0 m
  Takes-zero n m h = record { shorter = h.shorter; takes = λ r a e. omega (arith, h.takes r a e) }

-- What holds of `and_then` holds of a bind, by the cases of the first outcome.
module _ {ℓ κ} {A : Type ℓ} {B : Type κ} where
  pub and_then-shorter :
      (x : Result A) (f : A → Reader B) (r' : Bytes)
      → ((a : A) → Takes 0 (f a))
      → length (and_then x f r').1 ≤ length r'
  and_then-shorter (ok a) f r' h = (h a).shorter r'
  and_then-shorter (err e) f r' h = omega arith

  pub and_then-fuelled :
      (x : Result A) (f : A → Reader B) (r' : Bytes)
      → x ≢ err out_of_fuel
      → ((a : A) → x ≡ ok a → (f a r').0 ≢ err out_of_fuel)
      → (and_then x f r').0 ≢ err out_of_fuel
  and_then-fuelled (ok a) f r' h k = k a (λ i. ok a)
  and_then-fuelled (err e) f r' h k = λ p. h (ground arith)

  and_then-ok :
      (x : Result A) (f : A → Reader B) (r' : Bytes) (b : B)
      → (and_then x f r').0 ≡ ok b
      → (a : A) × (x ≡ ok a)
  and_then-ok (ok a) f r' b h = (a, λ i. ok a)
  and_then-ok (err e) f r' b h = cc

  pub bind-Takes :
      (n : ℕ) (m : Reader A) (f : A → Reader B)
      → Takes n m
      → ((a : A) → Takes 0 (f a))
      → Takes n (m >>= f)
  unfolding ◌>>=◌
  bind-Takes n m f hm hf = record {
    shorter = λ r. omega (arith, hm.shorter r, and_then-shorter (m r).0 f (m r).1 hf);
    takes = λ r b e.
        let (a, e') = and_then-ok (m r).0 f (m r).1 b e in
        omega (arith, hm.takes r a e', and_then-shorter (m r).0 f (m r).1 hf);
  }

  pub bind-Runs :
      (m : Reader A) (f : A → Reader B) → Runs m → ((a : A) → Runs (f a)) → Runs (m >>= f)
  unfolding ◌>>=◌
  bind-Runs m f hm hf = record {
    fuelled =
        λ r. and_then-fuelled (m r).0 f (m r).1 (hm.fuelled r) (λ a e. (hf a).fuelled (m r).1);
  }

  pub bind-Shrinks :
      (m : Reader A) (f : A → Reader B) → Shrinks m → ((a : A) → Takes 0 (f a)) → Shrinks (m >>= f)
  unfolding ◌>>=◌
  bind-Shrinks m f hm hf = record {
    strictly = λ r h. omega (arith, hm.strictly r h, and_then-shorter (m r).0 f (m r).1 hf);
  }

pub read_full-Takes : (n : ℕ) → Takes n (read_full n)
unfolding read_full
read_full-Takes n = record {
  shorter = λ r. ground (arith, length-drop n r);
  takes = λ r a e. ground (arith, length-drop n r);
}

pub read_full-Runs : (n : ℕ) → Runs (read_full n)
unfolding read_full
read_full-Runs n = record { fuelled = λ r. ground arith }

pub read_be-Runs : (k : ℕ) → Runs (read_be k)
unfolding read_be
read_be-Runs k = bind-Runs (read_full k) _ (read_full-Runs k) (λ bs. pure-Runs (of_be bs))

pub read_be-Takes : (k : ℕ) → Takes k (read_be k)
unfolding read_be
read_be-Takes k = bind-Takes k (read_full k) _ (read_full-Takes k) (λ bs. pure-Takes (of_be bs))

pub read_le-Takes : (k : ℕ) → Takes k (read_le k)
unfolding read_le
read_le-Takes k = bind-Takes k (read_full k) _ (read_full-Takes k) (λ bs. pure-Takes (of_le bs))

read_full-Shrinks : (k : ℕ) → 0 < k → Shrinks (read_full k)
unfolding read_full
read_full-Shrinks k pos = record { strictly = λ r h. ground (arith, length-drop k r) }

pub read_be-Shrinks : (k : ℕ) → 0 < k → Shrinks (read_be k)
unfolding read_be
read_be-Shrinks k pos =
    bind-Shrinks (read_full k) _ (read_full-Shrinks k pos) (λ bs. pure-Takes (of_be bs))

pub read_be-Takes_zero : (k : ℕ) → Takes 0 (read_be k)
read_be-Takes_zero k = Takes-zero k (read_be k) (read_be-Takes k)

pub read_full-Takes_zero : (k : ℕ) → Takes 0 (read_full k)
read_full-Takes_zero k = Takes-zero k (read_full k) (read_full-Takes k)

-- `m` does not want for fuel on an input of fewer than k bytes.
pub record RunsBelow {ℓ} {A : Type ℓ} (k : ℕ) (m : Reader A) : Type ℓ where
  pub fuelled_below : (r : Bytes) → length r < k → (m r).0 ≢ err out_of_fuel

module _ {ℓ} {A : Type ℓ} where
  pub Runs-RunsBelow : (k : ℕ) (m : Reader A) → Runs m → RunsBelow k m
  Runs-RunsBelow k m h = record { fuelled_below = λ r lt. h.fuelled r }

  pub RunsBelow-le : (j k : ℕ) (m : Reader A) → j ≤ k → RunsBelow k m → RunsBelow j m
  RunsBelow-le j k m le h = record { fuelled_below = λ r lt. h.fuelled_below r (omega arith) }

  pub if-RunsBelow :
      (k : ℕ) (b : Bool) (m m' : Reader A)
      → RunsBelow k m
      → RunsBelow k m'
      → RunsBelow k (if b then m else m')
  if-RunsBelow k true m m' h h' = h
  if-RunsBelow k false m m' h h' = h'

-- What is taken by the first reader is fuel saved for the second.
pub bind-RunsBelow {ℓ κ} :
    {A : Type ℓ} {B : Type κ} (n k : ℕ) (m : Reader A) (f : A → Reader B)
    → Takes n m
    → Runs m
    → ((a : A) → RunsBelow k (f a))
    → RunsBelow (k + n) (m >>= f)
unfolding ◌>>=◌
bind-RunsBelow n k m f ht hm hf = record {
  fuelled_below = λ r lt.
      and_then-fuelled (m r).0 f (m r).1 (hm.fuelled r)
        (λ a e. (hf a).fuelled_below (m r).1 (omega (arith, ht.takes r a e)));
}

-- The rules by which `search` proves that a do block takes input.
pub ruleset takes_rules = (
  bind-Takes, if-Takes, pure-Takes, fail-Takes, read_be-Takes, read_be-Takes_zero,
  read_full-Takes_zero,
)

-- The rules by which `search` proves that a do block does not want for fuel.
pub ruleset runs_rules = (bind-Runs, if-Runs, pure-Runs, read_be-Runs, read_full-Runs)
