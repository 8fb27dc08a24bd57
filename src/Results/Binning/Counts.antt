-- ===== src/Results/Binning/Counts.antt =====
-- The number of bins: no division by zero, and no more bins than the bin size allows.
use mquery.Base.{ℕ, ◌/◌, ◌<◌, ◌≤◌, arith}
use mquery.Base.Float.{Floats}
use mquery.Results.Binning.{round_to_even, num_bins, items_per_bin}

quotient_pos : (a b : ℕ) → 0 < b → b ≤ a → 0 < a / b
quotient_pos a b hb h = grind arith

round_to_even_pos : (a b : ℕ) → 0 < b → b ≤ a → 0 < round_to_even a b
unfolding round_to_even
round_to_even_pos a b hb h = ground (arith, quotient_pos a b hb h)

module _ (f64 : Floats) where
  open f64 use {Float}

  num_bins_bounds :
      (n num_zero : ℕ) (z : Float)
      → 0 < n
      → (0 < num_bins f64 n num_zero z) × (num_bins f64 n num_zero z ≤ n)
  unfolding num_bins
  num_bins_bounds n num_zero z h = ground arith

  -- The size of a bin, by which the loop takes remainders, is not 0.
  pub items_per_bin_pos : (n num_zero : ℕ) (z : Float) → 0 < n → 0 < items_per_bin f64 n num_zero z
  unfolding items_per_bin
  items_per_bin_pos n num_zero z h =
      let b = num_bins_bounds n num_zero z h in round_to_even_pos n _ b.0 b.1
