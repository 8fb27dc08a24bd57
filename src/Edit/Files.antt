-- ===== src/Edit/Files.antt =====
-- corpus/edit/edit.go: SplitCorpusExists and DeleteSplit. The directory of a split is the list of the
-- names of its files.
use mquery.Base.{
  Bool, true, false, List, [], ◌∷◌, Option, none, some, ◌≡◌, refl, inl, inr, Option-cases,
}
use mquery.Base.Text.{String}
use mquery.Errors.{GoError, Result, ok, err}

abbrev pub is_filled : List String → Bool
is_filled [] = false
is_filled (f ∷ fs) = true

-- `is_dir` and `entries` are what fs.IsDir and os.ReadDir give for the directory.
unfoldable pub split_corpus_exists : Result Bool → Result (List String) → Result Bool
split_corpus_exists (err e) entries = err e
split_corpus_exists (ok false) entries = ok false
split_corpus_exists (ok true) (err e) = err e
split_corpus_exists (ok true) (ok files) = ok (is_filled files)

-- The loop of DeleteSplit: the error, if there is one, and the files that are left.
module _ (remove : String → Option GoError) where
  unfoldable pub remove_all : List String → Option GoError × List String
  remove_all [] = (none, [])
  remove_all (f ∷ fs) = elim (remove f) [ some e ↦ (some e, f ∷ fs) | none ↦ remove_all fs ]

  unfoldable pub delete_split : Result (List String) → Option GoError × List String
  unfolding remove_all
  delete_split (err e) = (some e, [])
  delete_split (ok files) = remove_all files

  -- Without an error no file is left, and then the split does not exist.
  remove_all-none : (fs : List String) → (remove_all fs).0 ≡ none → (remove_all fs).1 ≡ []
  unfolding remove_all
  remove_all-none [] h = refl
  remove_all-none (f ∷ fs) h = elim (Option-cases (remove f)) [
    | inl e ↦ rw (e, remove_all) (remove_all-none fs (rw (e, remove_all) at h))
    | inr (x, e) ↦ absurd (some≢none x (rw (e, remove_all) at h))
  ]
    where
      some≢none : (x : GoError) → some x ≡ none → ⊥
      some≢none x h = cc

  pub delete_split-exists :
      (files : List String)
      → (delete_split (ok files)).0 ≡ none
      → split_corpus_exists (ok true) (ok (delete_split (ok files)).1) ≡ ok false
  unfolding delete_split split_corpus_exists
  delete_split-exists files h = rw (remove_all-none files h) refl
