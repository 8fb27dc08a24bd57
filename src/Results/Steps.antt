-- ===== src/Results/Steps.antt =====
-- `MergeWith` of rdb/results/results.go in single steps, as another goroutine can see it that reads the
-- result without the lock: first the sizes, then one item after the other.
use mquery.Base.{◌≡◌, refl, ap, ◌∙◌, List, [], ◌∷◌, ◌++◌, map}
use mquery.Base.Float.{Floats}
use mquery.Base.Word.{add64}
use mquery.Results.{FreqDistribItem, FreqDistrib, merge_item, merge_items, merge_with, merge_all}

pub data MergeStep (F : Type 0) : Type 0 where
  merge_sizes : FreqDistrib F → MergeStep F
  merge_freq : FreqDistribItem F → MergeStep F

module _ {F : Type 0} where
  abbrev pub merge_steps : FreqDistrib F → List (MergeStep F)
  merge_steps next = merge_sizes next ∷ map merge_freq next.freqs

  -- The steps of the merges, one merge after the other.
  abbrev pub all_steps : List (FreqDistrib F) → List (MergeStep F)
  all_steps [] = []
  all_steps (next ∷ rest) = merge_steps next ++ all_steps rest

module _ (f32 : Floats) where
  open f32 use {Float}

  unfoldable pub merge_step : FreqDistrib Float → MergeStep Float → FreqDistrib Float
  merge_step res (merge_sizes next) = record res {
    conc_size = add64 res.conc_size next.conc_size;
    corpus_size = next.corpus_size;
    examples_query_tpl = "";
  }
  merge_step res (merge_freq v) = record res { freqs = merge_item f32 res.freqs v }

  unfoldable pub run_steps : FreqDistrib Float → List (MergeStep Float) → FreqDistrib Float
  unfolding merge_step
  run_steps res [] = res
  run_steps res (s ∷ rest) = run_steps (merge_step res s) rest

  run_steps-append :
      (res : FreqDistrib Float) (xs ys : List (MergeStep Float))
      → run_steps res (xs ++ ys) ≡ run_steps (run_steps res xs) ys
  unfolding run_steps
  run_steps-append res [] ys = refl
  run_steps-append res (x ∷ xs) ys = run_steps-append (merge_step res x) xs ys

  run_steps-freqs :
      (res : FreqDistrib Float) (vs : List (FreqDistribItem Float))
      → run_steps res (map merge_freq vs) ≡ record res { freqs = merge_items f32 res.freqs vs }
  unfolding run_steps merge_step merge_items
  run_steps-freqs res [] = refl
  run_steps-freqs res (v ∷ vs) = run_steps-freqs (merge_step res (merge_freq v)) vs

  -- The steps of a merge are the merge.
  run_steps-merge_steps :
      (res next : FreqDistrib Float) → run_steps res (merge_steps next) ≡ merge_with f32 res next
  unfolding run_steps merge_step merge_with
  run_steps-merge_steps res next = run_steps-freqs (merge_step res (merge_sizes next)) next.freqs

  pub run_steps-all_steps :
      (res : FreqDistrib Float) (merges : List (FreqDistrib Float))
      → run_steps res (all_steps merges) ≡ merge_all f32 res merges
  unfolding run_steps merge_all
  run_steps-all_steps res [] = refl
  run_steps-all_steps res (next ∷ rest) =
      run_steps-append res (merge_steps next) (all_steps rest)
      ∙ ap (λ r. run_steps r (all_steps rest)) (run_steps-merge_steps res next)
      ∙ run_steps-all_steps (merge_with f32 res next) rest
