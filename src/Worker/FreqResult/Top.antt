-- ===== src/Worker/FreqResult/Top.antt =====
-- `CompileFreqResult` returns the most frequent items.
use mathlib.Core.List.{Perm}
use mquery.Base.{
  ℕ, ◌≡◌, refl, List, [], ◌++◌, arith, length, take, drop, min, length-take, take-append-drop,
  if◌then◌else◌, ltb,
}
use mquery.Base.Int.{pos}
use mquery.Base.Float.{Floats}
use mquery.Base.Sort.{Sorter, IsOrdered, IsStrictWeak}
use mquery.Base.Word.{slt64}
use mquery.Base.Total.{length-perm}
use mquery.Results.{FreqDistribItem}
use mquery.Worker.FreqResult.{
  Freqs, Norms, compiled, more_frequent, matched_items, absent_items, cut_sorted,
  compile_freq_result,
}

more_frequent-IsStrictWeak : {F : Type 0} → IsStrictWeak (more_frequent {F = F})
unfolding slt64
more_frequent-IsStrictWeak = record {
  asym = λ x y h. ground arith;
  not_less_trans = λ x y z h k. ground arith;
}

module _ (f32 : Floats) (sort : Sorter (more_frequent {F = f32.Float})) where
  open f32 use {Float}

  -- What a list cut from `items` holds: the first `n` of them in descending order of frequency.
  pub record IsTop (n : ℕ) (items result : List (FreqDistribItem Float)) : Type 0 where
    pub rest : List (FreqDistribItem Float)
    pub same : Perm (result ++ rest) items
    pub ordered : IsOrdered more_frequent (result ++ rest)
    pub size : length result ≡ min n (length items)

  pub take-IsTop :
      (n k : ℕ) (items : List (FreqDistribItem Float))
      → k ≡ min n (length items)
      → IsTop n items (take k (sort.run items))
  take-IsTop n k items e =
      let whole = take-append-drop k (sort.run items) in
      record {
        rest = drop k (sort.run items);
        same = rw whole (sort.run-perm items);
        ordered = rw whole (sort.run-IsOrdered more_frequent-IsStrictWeak items);
        size = ground (arith, e, length-take k (sort.run items), length-perm (sort.run-perm items));
      }

  -- Where the loop over the frequencies ends without an error, there is a result for any limit `n`
  -- that is not negative, and it is the top `n` of the items: some order of all the items has no item
  -- more frequent than the one before it, and the result is its first `n` items, or all if there are
  -- fewer.
  pub compile_freq_result-IsTop :
      (freqs : Freqs) (corp_size n : ℕ) (norms : Norms) (ans : List (FreqDistribItem Float))
      → matched_items f32 norms corp_size [] freqs.freqs freqs.words ≡ compiled ans
      → (result : List (FreqDistribItem Float)) × (compile_freq_result f32 sort freqs corp_size
            (pos n)
            norms
          ≡ compiled result)
        × IsTop n (ans ++ absent_items f32 ans norms) result
  unfolding compile_freq_result cut_sorted
  compile_freq_result-IsTop freqs corp_size n norms ans e =
      let items = ans ++ absent_items f32 ans norms in
      let k = if ltb n (length items) then n else length items in
      (
        take k (sort.run items),
        rw (e, compile_freq_result) refl,
        take-IsTop n k items (ground arith),
      )
