-- ===== src/Results/Words.antt =====
-- The items that a merge of rdb/results/results.go leaves: one for each word, and which one.
use mquery.Base.{
  ℕ, ◌≡◌, refl, List, [], ◌∷◌, ◌++◌, Option, none, some, inl, inr, arith, Option-cases,
  if◌then◌else◌,
}
use mquery.Base.Float.{Floats}
use mquery.Base.Text.{String, str_eq, str_eq_iff}
use mquery.Base.Word.{add64}
use mquery.Results.{
  FreqDistribItem, FreqDistrib, find_item, write_item, add_freq, merge_item, merge_items,
  merge_with,
}

module _ {F : Type 0} where
  -- No word has two items.
  abbrev pub IsDistinct : List (FreqDistribItem F) → Type 0
  IsDistinct [] = Unit
  IsDistinct (v ∷ vs) = (find_item vs v.word ≡ none) × IsDistinct vs

  find_item-append :
      (k : String) (xs : List (FreqDistribItem F)) (v : FreqDistribItem F)
      → find_item xs v.word ≡ none
      → find_item (xs ++ v ∷ []) k ≡ (if str_eq v.word k then some v else find_item xs k)
  unfolding find_item
  find_item-append k [] v h = refl
  find_item-append k (x ∷ xs) v h = ground (
    arith,
    find_item-append k xs v,
    str_eq_iff x.word v.word,
    str_eq_iff x.word k,
    str_eq_iff v.word k,
  )

  append-IsDistinct :
      (xs : List (FreqDistribItem F)) (v : FreqDistribItem F)
      → find_item xs v.word ≡ none
      → IsDistinct xs
      → IsDistinct (xs ++ v ∷ [])
  unfolding find_item
  append-IsDistinct [] v h d = (refl, tt)
  append-IsDistinct (x ∷ xs) v h d = ground (
    arith,
    find_item-append x.word xs v,
    append-IsDistinct xs v,
    str_eq_iff x.word v.word,
    str_eq_iff v.word x.word,
  )

module _ (f32 : Floats) where
  open f32 use {Float}

  find_item-write :
      (k w : String) (d : ℕ) (xs : List (FreqDistribItem Float)) (u : FreqDistribItem Float)
      → find_item xs w ≡ some u
      → find_item (write_item (add_freq f32 d) xs w) k
        ≡ (if str_eq w k then some (add_freq f32 d u) else find_item xs k)
  unfolding find_item write_item
  find_item-write k w d [] u h = cc
  find_item-write k w d (x ∷ xs) u h =
      ground (
        arith,
        find_item-write k w d xs u,
        str_eq_iff x.word w,
        str_eq_iff x.word k,
        str_eq_iff w k,
      )

  write-none :
      (k w : String) (d : ℕ) (xs : List (FreqDistribItem Float))
      → find_item xs k ≡ none
      → find_item (write_item (add_freq f32 d) xs w) k ≡ none
  unfolding find_item write_item
  write-none k w d [] h = refl
  write-none k w d (x ∷ xs) h = ground (arith, write-none k w d xs)

  write-IsDistinct :
      (w : String) (d : ℕ) (xs : List (FreqDistribItem Float))
      → IsDistinct xs
      → IsDistinct (write_item (add_freq f32 d) xs w)
  unfolding write_item
  write-IsDistinct w d [] h = tt
  write-IsDistinct w d (x ∷ xs) h =
      ground (arith, write-IsDistinct w d xs h.1, write-none x.word w d xs h.0)

  -- The item that a turn of the loop leaves for the word of `v`: `v` itself, or the first item of
  -- that word with both frequencies, and with the instances per million of their sum in its base.
  abbrev pub merged_item :
      Option (FreqDistribItem Float) → FreqDistribItem Float → FreqDistribItem Float
  merged_item none v = v
  merged_item (some u) v =
      let freq = add64 u.freq v.freq in
      record {
        word = u.word;
        freq = freq;
        base = u.base;
        ipm = f32.times (f32.over (f32.of_int freq) (f32.of_int u.base)) (f32.of_int 1000000);
      }

  -- One turn of the loop changes what is found for the word of `v` and for no other word: to `v`
  -- where there was no item, and otherwise to an item with the word and the base of the item that was
  -- found, the sum of both frequencies, and as its ipm that sum over that base, times a million.
  pub find_item-merge_item :
      (k : String) (xs : List (FreqDistribItem Float)) (v : FreqDistribItem Float)
      → find_item (merge_item f32 xs v) k
        ≡ (if str_eq v.word k then some (merged_item (find_item xs v.word) v) else find_item xs k)
  unfolding merge_item
  find_item-merge_item k xs v = elim (Option-cases (find_item xs v.word)) [
    | inl e ↦ rw (e, merge_item, merged_item) (find_item-append k xs v e)
    | inr (u, e) ↦ rw (e, merge_item, merged_item) (find_item-write k v.word v.freq xs u e)
  ]

  merge_item-IsDistinct :
      (xs : List (FreqDistribItem Float)) (v : FreqDistribItem Float)
      → IsDistinct xs
      → IsDistinct (merge_item f32 xs v)
  unfolding merge_item
  merge_item-IsDistinct xs v d = elim (Option-cases (find_item xs v.word)) [
    | inl e ↦ rw (e, merge_item) (append-IsDistinct xs v e d)
    | inr (u, e) ↦ rw (e, merge_item) (write-IsDistinct v.word v.freq xs d)
  ]

  merge_items-IsDistinct :
      (xs ys : List (FreqDistribItem Float)) → IsDistinct xs → IsDistinct (merge_items f32 xs ys)
  unfolding merge_items
  merge_items-IsDistinct xs [] d = d
  merge_items-IsDistinct xs (v ∷ vs) d =
      merge_items-IsDistinct (merge_item f32 xs v) vs (merge_item-IsDistinct xs v d)

  -- A merge into a distribution with one item for each word leaves one item for each word, also if
  -- the other distribution repeats a word.
  pub merge_with-IsDistinct :
      (res other : FreqDistrib Float)
      → IsDistinct res.freqs
      → IsDistinct (merge_with f32 res other).freqs
  unfolding merge_with
  merge_with-IsDistinct res other d = merge_items-IsDistinct res.freqs other.freqs d
