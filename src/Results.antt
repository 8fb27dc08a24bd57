-- ===== src/Results.antt =====
-- rdb/results/results.go: the frequency distribution, the search in it and its merge.
pub mod Steps
pub mod Merge
pub mod Words
pub mod Chunks
pub mod Binning
pub mod Types
pub mod Json
use mquery.Base.{
  ℕ, zero, suc, List, [], ◌∷◌, ◌++◌, Option, none, some, if◌then◌else◌, ltb, take, length,
}
use mquery.Base.Word.{add64}
use mquery.Base.Float.{Floats}
use mquery.Base.Text.{String, str_eq}
use mquery.Errors.{GoError}

-- `F` is float32. Counts are int64 bit patterns.
pub record FreqDistribItem (F : Type 0) : Type 0 where
  pub word : String
  pub freq : ℕ
  pub base : ℕ
  pub ipm : F

pub record FreqDistrib (F : Type 0) : Type 0 where
  pub conc_size : ℕ
  pub corpus_size : ℕ
  pub subc_size : ℕ
  pub freqs : List (FreqDistribItem F)
  pub fcrit : String
  pub examples_query_tpl : String
  pub error : Option GoError

module _ {F : Type 0} where
  -- Cut, for a limit that is not negative.
  unfoldable pub cut : List (FreqDistribItem F) → ℕ → List (FreqDistribItem F)
  cut flist max_items = if ltb max_items (length flist) then take max_items flist else flist

  unfoldable pub find_item : List (FreqDistribItem F) → String → Option (FreqDistribItem F)
  find_item [] w = none
  find_item (v ∷ vs) w = if str_eq v.word w then some v else find_item vs w

  -- A write through the pointer that `FindItem` has returned: to the first item of that word.
  unfoldable pub write_item :
      (FreqDistribItem F → FreqDistribItem F)
      → List (FreqDistribItem F)
      → String
      → List (FreqDistribItem F)
  write_item f [] w = []
  write_item f (v ∷ vs) w = if str_eq v.word w then f v ∷ vs else v ∷ write_item f vs w

module _ (f32 : Floats) where
  open f32 use {Float}

  -- float32(freq) / float32(base) * 1e6
  abbrev pub ipm_of : ℕ → ℕ → Float
  ipm_of freq base = f32.times (f32.over (f32.of_int freq) (f32.of_int base)) (f32.of_int 1000000)

  abbrev pub add_freq : ℕ → FreqDistribItem Float → FreqDistribItem Float
  add_freq d v1 = let freq = add64 v1.freq d in record v1 { freq = freq; ipm = ipm_of freq v1.base }

  -- One turn of the loop of `MergeWith`.
  unfoldable pub merge_item :
      List (FreqDistribItem Float) → FreqDistribItem Float → List (FreqDistribItem Float)
  unfolding find_item write_item
  merge_item freqs v2 = elim (find_item freqs v2.word) [
    | some v1 ↦ write_item (add_freq v2.freq) freqs v2.word
    | none ↦ freqs ++ v2 ∷ []
  ]

  unfoldable pub merge_items :
      List (FreqDistribItem Float) → List (FreqDistribItem Float) → List (FreqDistribItem Float)
  merge_items freqs [] = freqs
  merge_items freqs (v2 ∷ rest) = merge_items (merge_item freqs v2) rest

  unfoldable pub merge_with : FreqDistrib Float → FreqDistrib Float → FreqDistrib Float
  merge_with res other = record res {
    conc_size = add64 res.conc_size other.conc_size;
    corpus_size = other.corpus_size;
    examples_query_tpl = "";
    freqs = merge_items res.freqs other.freqs;
  }

  -- The results of the chunks, merged in the order in which they come.
  unfoldable pub merge_all : FreqDistrib Float → List (FreqDistrib Float) → FreqDistrib Float
  merge_all res [] = res
  merge_all res (next ∷ rest) = merge_all (merge_with res next) rest
