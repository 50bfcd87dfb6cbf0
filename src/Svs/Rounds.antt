-- ===== src/Svs/Rounds.antt =====
-- When the rounds of the tables end.
use hadock.Common.{
  ◌↔◌, ℕ, zero, suc, ◌+◌, ◌≤◌, ◌≡◌, ◌≢◌, refl, Option, some, List, [], ◌∷◌, Bytes, length, arith,
}
use hadock.Common.Reader.{Result, Error, out_of_fuel, ok, err, pure, read_le, read_full}
use hadock.Common.Reader.Progress.{
  Takes, Runs, pure-Takes, pure-Runs, bind-Takes, bind-Runs, read_le-Takes, read_full-Runs,
  Takes-zero,
}
use hadock.Svs.{read_values, add_round, svs_rounds, with_columns, svs_table}

read_values-Takes : (w n : ℕ) → Takes 0 (read_values w n)
unfolding read_values
read_values-Takes w zero = pure-Takes []
read_values-Takes w (suc n) =
    bind-Takes 0 (read_le w) _ (Takes-zero w (read_le w) (read_le-Takes w))
      (λ v. bind-Takes 0 (read_values w n) _ (read_values-Takes w n) (λ vs. pure-Takes (v ∷ vs)))

-- Values of which there is one at least take the width of one.
read_values-Takes_width : (w n : ℕ) → Takes w (read_values w (suc n))
unfolding read_values
read_values-Takes_width w n =
    bind-Takes w (read_le w) _ (read_le-Takes w)
      (λ v. bind-Takes 0 (read_values w n) _ (read_values-Takes w n) (λ vs. pure-Takes (v ∷ vs)))

read_le-Runs : (w : ℕ) → Runs (read_le w)
unfolding read_le
read_le-Runs w = bind-Runs (read_full w) _ (read_full-Runs w) (λ bs. pure-Runs _)

read_values-Runs : (w n : ℕ) → Runs (read_values w n)
unfolding read_values
read_values-Runs w zero = pure-Runs []
read_values-Runs w (suc n) =
    bind-Runs (read_le w) _ (read_le-Runs w)
      (λ v. bind-Runs (read_values w n) _ (read_values-Runs w n) (λ vs. pure-Runs (v ∷ vs)))

module _ (format : ℕ → Bytes) where
  add_round-fuelled :
      (i : ℕ) (x : Result (List ℕ)) (t : List (List Bytes) × Option Error)
      → x ≢ err out_of_fuel
      → ((vs : List ℕ) → x ≡ ok vs → t.1 ≢ some out_of_fuel)
      → (add_round format i x t).1 ≢ some out_of_fuel
  unfolding add_round
  add_round-fuelled i (err e) t h k = λ p. h (ground arith)
  add_round-fuelled i (ok vs) t h k = k vs refl

  -- With a float in a round, as many rounds as bytes are enough.
  rounds-fuelled :
      (fuel n i : ℕ) (r : Bytes)
      → length r ≤ fuel
      → (svs_rounds format fuel (suc n) i r).1 ≢ some out_of_fuel
  unfolding svs_rounds
  rounds-fuelled fuel n i [] l = λ p. cc
  rounds-fuelled zero n i (b ∷ r) l = absurd (omega arith)
  rounds-fuelled (suc fuel) n i (b ∷ r) l =
      add_round-fuelled i (read_values 4 (suc n) (b ∷ r)).0 _
        ((read_values-Runs 4 (suc n)).fuelled (b ∷ r))
        (λ vs e.
          let t = (read_values-Takes_width 4 n).takes (b ∷ r) vs e in
          rounds-fuelled fuel n (i + 1) (read_values 4 (suc n) (b ∷ r)).1 (omega (arith, t)))

  -- With no float, no number of rounds is.
  rounds-endless :
      (fuel i b : ℕ) (r : Bytes) → (svs_rounds format fuel 0 i (b ∷ r)).1 ≡ some out_of_fuel
  unfolding svs_rounds read_values pure add_round
  rounds-endless zero i b r = refl
  rounds-endless (suc fuel) i b r = rounds-endless fuel (i + 1) b r

  -- No values for the columns are wanted, and a byte follows.
  abbrev pub IsEndless : Bytes → Type 0
  IsEndless [] = ⊥
  IsEndless (zero ∷ []) = ⊥
  IsEndless (zero ∷ b ∷ r) = Unit
  IsEndless (suc n ∷ r) = ⊥

  with_columns-fuelled :
      (fuel n : ℕ) (x : Result (List ℕ)) (r : Bytes)
      → length r ≤ fuel
      → x ≢ err out_of_fuel
      → (with_columns format fuel (suc n) x r).1 ≢ some out_of_fuel
  unfolding with_columns
  with_columns-fuelled fuel n (err e) r l h = λ p. h (ground arith)
  with_columns-fuelled fuel n (ok vs) r l h = rounds-fuelled fuel n 0 r l

  -- As many rounds as bytes are enough for the table of some data, exactly if the data does not
  -- start by a zero with a byte behind it. For such data the loop never ends.
  pub svs_table-IsEndless :
      (fuel : ℕ) (bs : Bytes)
      → length bs ≤ fuel
      → ((svs_table format fuel bs).1 ≡ some out_of_fuel) ↔ IsEndless bs
  unfolding svs_table with_columns read_values pure svs_rounds
  svs_table-IsEndless fuel [] l = (λ e. cc, λ h. absurd h)
  svs_table-IsEndless fuel (zero ∷ []) l = (λ e. cc, λ h. absurd h)
  svs_table-IsEndless fuel (zero ∷ b ∷ r) l = (λ e. tt, λ h. rounds-endless fuel 0 b r)
  svs_table-IsEndless fuel (suc n ∷ r) l =
      let t = (read_values-Takes 2 (suc n)).shorter r in
      (
        λ e.
            with_columns-fuelled fuel n (read_values 2 (suc n) r).0 (read_values 2 (suc n) r).1
              (omega (arith, t)) ((read_values-Runs 2 (suc n)).fuelled r) e,
        λ h. absurd h,
      )
