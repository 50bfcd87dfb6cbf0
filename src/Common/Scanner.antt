-- ===== src/Common/Scanner.antt =====
-- bufio.Scanner over a file, as cmd/hadock/replay.go and cmd/hadock/dispatch.go use it: with a buffer
-- that grows to 8 MB at most. Split functions give, for what the buffer holds, a token or ask for more.
use hadock.Common.{
  ℕ, zero, suc, ◌-◌, ◌<◌, ◌≤◌, ◌≡◌, ◌≢◌, refl, ap, Bool, true, false, List, [], ◌∷◌, ◌++◌, Bytes,
  length, take, drop, replicate, leb, length-drop, length-take, drop-append, if◌then◌else◌, arith,
}

-- What a bufio.SplitFunc returns: no token yet, a token behind n bytes, the final token, or a panic
-- (make with a length below zero).
pub data Scan : Type 0 where
  more : Scan
  token : ℕ → Bytes → Scan
  final : ℕ → Bytes → Scan
  panics : Scan

-- copy(make([]byte, n), bs)
abbrev pub copy_of : ℕ → Bytes → Bytes
copy_of n bs = take n bs ++ replicate (n - length bs) 0

-- How the scan of a file ends. `out_of_fuel` is no Go value: it says that the model stopped early.
pub data FileEnd : Type 0 where
  done too_long panicked out_of_fuel : FileEnd

-- A call of filepath.Walk: with an error, or for a file that cannot be opened; for a directory; for a file.
pub data Visit : Type 0 where
  refused directory : Visit
  contents : Bytes → Visit

-- The length of the buffer, of which a token cannot take more.
abbrev pub buffer_size : ℕ
buffer_size = 8388608

abbrev pub last_token : Scan → List Bytes
last_token (final n t) = t ∷ []
last_token _ = []

module _ (split : Bytes → Bool → Scan) where
  -- What comes of a call of the split function; `rest` is the loop behind some bytes.
  abbrev pub scanned : Bytes → (ℕ → List Bytes × FileEnd) → Scan → List Bytes × FileEnd
  scanned bs rest (token n t) = let r = rest n in (t ∷ r.0, r.1)
  scanned bs rest more =
      if leb buffer_size (length bs) then ([], too_long) else (last_token (split bs true), done)
  scanned bs rest (final n t) = (t ∷ [], done)
  scanned bs rest panics = ([], panicked)

  -- The loop over s.Scan, where the split function sees the buffer alone.
  unfoldable pub scan_tokens : ℕ → Bytes → List Bytes × FileEnd
  scan_tokens zero bs = ([], out_of_fuel)
  scan_tokens (suc fuel) bs =
      scanned bs (λ n. scan_tokens fuel (drop n bs)) (split (take buffer_size bs) false)

  unfoldable pub scan_file : Bytes → List Bytes × FileEnd
  scan_file bs = scan_tokens (suc (length bs)) bs

  scanned-total :
      (bs : Bytes) (rest : ℕ → List Bytes × FileEnd) (s : Scan)
      → ((n : ℕ) (t : Bytes) → s ≡ token n t → (rest n).1 ≢ out_of_fuel)
      → (scanned bs rest s).1 ≢ out_of_fuel
  scanned-total bs rest (token n t) h = h n t refl
  scanned-total bs rest more h = λ q. ground arith
  scanned-total bs rest (final n t) h = λ q. cc
  scanned-total bs rest panics h = λ q. cc

  -- A token at the front of the buffer is taken off, and the scan goes on behind it.
  pub scan_tokens-token :
      (fuel : ℕ) (xs rest t : Bytes)
      → split (take buffer_size (xs ++ rest)) false ≡ token (length xs) t
      → scan_tokens (suc fuel) (xs ++ rest) ≡ (let r = scan_tokens fuel rest in (t ∷ r.0, r.1))
  unfolding scan_tokens
  scan_tokens-token fuel xs rest t h = rw (h, drop-append xs rest)

  module _
      (advances : (bs : Bytes) (n : ℕ) (t : Bytes)
        → split bs false ≡ token n t
        → (1 ≤ n) × (1 ≤ length bs)) where
    scan_tokens-total :
        (fuel : ℕ) (bs : Bytes) → length bs < fuel → (scan_tokens fuel bs).1 ≢ out_of_fuel
    unfolding scan_tokens
    scan_tokens-total zero bs h = absurd (omega arith)
    scan_tokens-total (suc fuel) bs h =
        scanned-total bs (λ n. scan_tokens fuel (drop n bs)) (split (take buffer_size bs) false)
          λ n t e.
            let (a, l) = advances (take buffer_size bs) n t e in
            scan_tokens-total fuel (drop n bs)
              (omega (arith, length-drop n bs, length-take buffer_size bs))

    -- The scan of every file comes to an end of the program's own, where each token takes a byte at
    -- least.
    pub scan_file-total : (bs : Bytes) → (scan_file bs).1 ≢ out_of_fuel
    unfolding scan_file
    scan_file-total bs = scan_tokens-total (suc (length bs)) bs (omega arith)

-- The buffer holds what is no longer than it whole, whatever follows.
pub take-prefix :
    (k : ℕ) (xs ys : Bytes) → length xs ≤ k → (zs : Bytes) × (take k (xs ++ ys) ≡ xs ++ zs)
take-prefix k [] ys h = (take k ys, refl)
take-prefix zero (x ∷ xs) ys h = absurd (omega arith)
take-prefix (suc k) (x ∷ xs) ys h =
    let (zs, e) = take-prefix k xs ys (omega arith) in (zs, ap (λ t. x ∷ t) e)
