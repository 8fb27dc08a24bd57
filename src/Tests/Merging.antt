-- ===== src/Tests/Merging.antt =====
-- Merges of two distributions.
use mathlib.Core.List.Perm
use mquery.Base.{ℕ, ◌≡◌, refl, some, [], ◌∷◌, arith}
use mquery.Base.Text.{String}
use mquery.Base.Word.{add64}
use mquery.Results.{FreqDistrib, find_item, merge_item, merge_with, merge_all}
use mquery.Results.Merge.{freq_of, freq_of-merge_with}
use mquery.Results.Words.{IsDistinct, find_item-merge_item, merge_with-IsDistinct}
use mquery.Results.Chunks.{merge_all-perm}
use mquery.Tests.{nat_floats, item, distrib}

abbrev first : FreqDistrib ℕ
first = distrib 5 (item "cat" 3 100 30000 ∷ item "dog" 2 100 20000 ∷ [])

abbrev second : FreqDistrib ℕ
second = distrib 4 (item "dog" 4 50 80000 ∷ [])

freq_of-merge_with_example : freq_of "dog" (merge_with nat_floats first second).freqs ≡ 6
unfolding freq_of add64
freq_of-merge_with_example = freq_of-merge_with nat_floats "dog" first second

-- A word that both have. Its ipm is not that of either item.
find_item-merge_item_example :
    find_item
      (merge_item nat_floats
        (item "cat" 3 2 1000000 ∷ item "dog" 2 2 1000000 ∷ [])
        (item "dog" 4 50 80000))
      "dog"
    ≡ some (item "dog" 6 2 3000000)
unfolding find_item add64
find_item-merge_item_example =
    find_item-merge_item nat_floats "dog" (item "cat" 3 2 1000000 ∷ item "dog" 2 2 1000000 ∷ [])
      (item "dog" 4 50 80000)

merge_with-IsDistinct_example : IsDistinct (merge_with nat_floats first second).freqs
unfolding find_item
merge_with-IsDistinct_example = merge_with-IsDistinct nat_floats first second (refl, (refl, tt))

merge_all-perm_example :
    ((k : String)
      → freq_of k (merge_all nat_floats first (first ∷ second ∷ [])).freqs
        ≡ freq_of k (merge_all nat_floats first (second ∷ first ∷ [])).freqs)
    × ((merge_all nat_floats first (first ∷ second ∷ [])).conc_size
        ≡ (merge_all nat_floats first (second ∷ first ∷ [])).conc_size)
merge_all-perm_example =
    merge_all-perm nat_floats first (first ∷ second ∷ []) (second ∷ first ∷ []) (omega arith)
      (Perm.swap second first [])
