-- ===== src/Results/Merge.antt =====
-- What `MergeWith` of rdb/results/results.go keeps of the two distributions.
use mquery.Base.{
  ℕ, ◌<◌, ◌≡◌, sym, List, [], ◌∷◌, ◌++◌, some, inl, inr, arith, Option-cases, if◌then◌else◌,
}
use mquery.Base.Word.{add64, add64-lt, add64-zero, add64_comm, add64_assoc, word_mod}
use mquery.Base.Float.{Floats}
use mquery.Base.Text.{String, str_eq, str_eq_iff}
use mquery.Results.{
  FreqDistribItem, FreqDistrib, find_item, write_item, add_freq, merge_item, merge_items,
  merge_with,
}

module _ {F : Type 0} where
  -- The frequency of a word: the int64 sum over its items.
  unfoldable pub freq_of : String → List (FreqDistribItem F) → ℕ
  freq_of k [] = 0
  freq_of k (v ∷ vs) =
      let rest = freq_of k vs in if str_eq v.word k then add64 v.freq rest else rest

  pub freq_of-lt : (k : String) (xs : List (FreqDistribItem F)) → freq_of k xs < word_mod
  unfolding freq_of
  freq_of-lt k [] = omega arith
  freq_of-lt k (v ∷ vs) = ground (arith, freq_of-lt k vs, add64-lt v.freq (freq_of k vs))

  freq_of-append :
      (k : String) (xs : List (FreqDistribItem F)) (v : FreqDistribItem F)
      → freq_of k (xs ++ v ∷ [])
        ≡ (if str_eq v.word k then add64 (freq_of k xs) v.freq else freq_of k xs)
  unfolding freq_of
  freq_of-append k [] v = ground (arith, add64_comm v.freq 0)
  freq_of-append k (x ∷ xs) v =
      ground (arith, freq_of-append k xs v, add64_assoc x.freq (freq_of k xs) v.freq)

module _ (f32 : Floats) where
  open f32 use {Float}

  freq_of-write :
      (k w : String) (d : ℕ) (xs : List (FreqDistribItem Float)) (v : FreqDistribItem Float)
      → find_item xs w ≡ some v
      → freq_of k (write_item (add_freq f32 d) xs w)
        ≡ (if str_eq w k then add64 (freq_of k xs) d else freq_of k xs)
  unfolding freq_of find_item write_item
  freq_of-write k w d [] v h = cc
  freq_of-write k w d (x ∷ xs) v h = ground (
    arith,
    str_eq_iff x.word w,
    str_eq_iff x.word k,
    str_eq_iff w k,
    add64_assoc x.freq d (freq_of k xs),
    add64_assoc x.freq (freq_of k xs) d,
    add64_comm d (freq_of k xs),
    freq_of-write k w d xs v,
  )

  freq_of-merge_item :
      (k : String) (xs : List (FreqDistribItem Float)) (v : FreqDistribItem Float)
      → freq_of k (merge_item f32 xs v)
        ≡ (if str_eq v.word k then add64 (freq_of k xs) v.freq else freq_of k xs)
  unfolding merge_item
  freq_of-merge_item k xs v = elim (Option-cases (find_item xs v.word)) [
    | inl e ↦ rw (e, merge_item) (freq_of-append k xs v)
    | inr (u, e) ↦ rw (e, merge_item) (freq_of-write k v.word v.freq xs u e)
  ]

  freq_of-merge_items :
      (k : String) (xs ys : List (FreqDistribItem Float))
      → freq_of k (merge_items f32 xs ys) ≡ add64 (freq_of k xs) (freq_of k ys)
  unfolding merge_items freq_of
  freq_of-merge_items k xs [] = sym (add64-zero (freq_of k xs) (freq_of-lt k xs))
  freq_of-merge_items k xs (v ∷ vs) = ground (
    arith,
    freq_of-merge_items k (merge_item f32 xs v) vs,
    freq_of-merge_item k xs v,
    add64_assoc (freq_of k xs) v.freq (freq_of k vs),
  )

  -- After a merge every word has the sum of its two frequencies, as an int64, whatever items the
  -- two distributions hold.
  pub freq_of-merge_with :
      (k : String) (res other : FreqDistrib Float)
      → freq_of k (merge_with f32 res other).freqs
        ≡ add64 (freq_of k res.freqs) (freq_of k other.freqs)
  unfolding merge_with
  freq_of-merge_with k res other = freq_of-merge_items k res.freqs other.freqs
