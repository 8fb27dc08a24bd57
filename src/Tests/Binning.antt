-- ===== src/Tests/Binning.antt =====
-- Series of years, binned and filtered.
use mquery.Base.{ℕ, ◌≡◌, ◌↔◌, ◌≤◌, ◌<◌, ◌⊎◌, refl, List, [], ◌∷◌, arith, true, ltb}
use mquery.Base.Word.{add64, sub64, slt64}
use mquery.Base.Sort.{insert_sorted, slice_stable, stable_sorter}
use mquery.Results.{FreqDistribItem}
use mquery.Results.Binning.{
  BinData, Outcome, returned, panicked, earlier, round_to_even, bd_num_zero_freq, total_freq,
  squares, bd_stdev, bd_mean, zscores, bd_moving_zscores, max_zscore, num_bins, items_per_bin,
  date_of, to_dates, grouped, fill_bins, bins_of, binned, bin_as_data_series,
}
use mquery.Results.Binning.Sums.{sum_freq, sum-bin_as_data_series}
use mquery.Results.Binning.Panics.{bin_as_data_series-panics}
use mquery.Handlers.YearRange.{TimeLayout, keeps, filter_words, filter_chunk}
use mquery.Handlers.YearRange.Autobin.{filter_chunk-panics}
use mquery.Tests.{nat_floats, item, year}

abbrev series : List (FreqDistribItem ℕ)
series =
    item "1999" 3 100 30000
    ∷ item "2000" 2 100 20000
    ∷ item "1999" 1 100 10000
    ∷ item "2000" 5 100 50000
    ∷ item "1999" 4 100 40000
    ∷ []

abbrev out : Outcome (List (FreqDistribItem ℕ))
out = bin_as_data_series nat_floats nat_floats (stable_sorter earlier) year series 2

abbrev bins : List (FreqDistribItem ℕ)
bins =
    item "1999" 3 100 0
    ∷ item "1999" 1 100 0
    ∷ item "1999" 4 100 0
    ∷ item "2000" 2 100 0
    ∷ item "2000" 5 100 0
    ∷ []

bins_of_series : out ≡ returned bins
unfolding add64 sub64 slt64 insert_sorted slice_stable round_to_even bd_num_zero_freq total_freq
    squares bd_stdev bd_mean zscores bd_moving_zscores max_zscore num_bins items_per_bin to_dates
    grouped fill_bins bins_of binned bin_as_data_series
bins_of_series = refl

sum-bin_as_data_series_example : sum_freq bins ≡ 15
sum-bin_as_data_series_example =
    sum-bin_as_data_series nat_floats nat_floats (stable_sorter earlier) year series 2 bins
      (omega arith) bins_of_series

abbrev dates : List BinData
dates =
    date_of 29 (item "1999" 3 100 30000)
    ∷ date_of 30 (item "2000" 2 100 20000)
    ∷ date_of 29 (item "1999" 1 100 10000)
    ∷ date_of 30 (item "2000" 5 100 50000)
    ∷ date_of 29 (item "1999" 4 100 40000)
    ∷ []

bin_as_data_series-panics_example :
    (bin_as_data_series nat_floats nat_floats (stable_sorter earlier) year series 10 ≡ panicked)
    ↔ ((5 ≤ 5) × ((10 ≤ 1) ⊎ (5 < 10)))
unfolding to_dates
bin_as_data_series-panics_example =
    bin_as_data_series-panics nat_floats nat_floats (stable_sorter earlier) year series 10 dates
      refl

-- Years, of which 0 is the zero time.
abbrev years : TimeLayout
years = record {
  Time = ℕ;
  format = "2006";
  zero = 0;
  parse = year;
  is_zero = λ t. ltb t 1;
  after = λ a b. ltb b a;
  before = λ a b. ltb a b;
  unix = λ t. t;
}

filter_chunk-panics_example :
    (filter_chunk nat_floats nat_floats (stable_sorter earlier) years 0 0 true series ≡ panicked)
    ↔ ((5 ≤ 5) × (5 ≤ 9))
unfolding keeps filter_words
filter_chunk-panics_example =
    filter_chunk-panics nat_floats nat_floats (stable_sorter earlier) years 0 0 series
