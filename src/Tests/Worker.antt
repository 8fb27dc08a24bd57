-- ===== src/Tests/Worker.antt =====
-- The results and the cache of a worker.
use mquery.Base.{ℕ, ◌≡◌, refl, List, [], ◌∷◌, ◌++◌}
use mquery.Base.Word.{slt64}
use mquery.Base.Int.{pos}
use mquery.Base.Sort.{stable_sorter}
use mquery.Results.{FreqDistribItem}
use mquery.Worker.FreqResult.{
  compiled, Freqs, Norms, get_norm, is_text_types, more_frequent, matched_items, absent_items,
  compile_freq_result,
}
use mquery.Worker.FreqResult.Top.{IsTop, compile_freq_result-IsTop}
use mquery.Tests.{nat_floats, item}

abbrev norms : Norms
norms = ("fiction", 100) ∷ ("news", 300) ∷ ("poetry", 50) ∷ []

abbrev counted : Freqs
counted = record {
  words = "fiction" ∷ "news" ∷ [];
  freqs = 2 ∷ 7 ∷ [];
  conc_size = 9;
  corpus_size = 450;
  subc_size = 450;
}

abbrev matched : List (FreqDistribItem ℕ)
matched = item "fiction" 2 100 0 ∷ item "news" 7 300 0 ∷ []

compile_freq_result-IsTop_example :
    (result : List (FreqDistribItem ℕ)) × (compile_freq_result nat_floats
        (stable_sorter more_frequent)
        counted
        450
        (pos 2)
        norms
      ≡ compiled result)
    × IsTop nat_floats
        (stable_sorter more_frequent)
        2
        (matched ++ absent_items nat_floats matched norms)
        result
unfolding slt64 get_norm is_text_types matched_items
compile_freq_result-IsTop_example =
    compile_freq_result-IsTop nat_floats (stable_sorter more_frequent) counted 450 2 norms matched
      refl
