-- ===== src/Handlers/YearRange.antt =====
-- corpus/handlers/ttchunked.go: the filter by dates and the choice of a window for the binning.
-- A stream of chunks is the list of its items.
pub mod Autobin
use Prim.Native.String.{◌++◌}
use mquery.Base.{
  ℕ, suc, ◌≡◌, refl, Bool, true, false, ◌&&◌, List, [], ◌∷◌, Option, none, some, if◌then◌else◌, ltb,
  length,
}
use mquery.Base.Float.{Floats}
use mquery.Base.Sort.{Sorter}
use mquery.Base.Text.{String, str_eq}
use mquery.Errors.{GoError, plain_error}
use mquery.Results.{FreqDistribItem, FreqDistrib}
use mquery.Results.Binning.{Outcome, returned, panicked, earlier, bin_as_data_series}

-- The package `time` of Go's library, for one date layout. `zero` is `time.Time{}`.
pub record TimeLayout : Type 1 where
  pub Time : Type 0
  -- The template of the layout.
  pub format : String
  pub zero : Time
  pub parse : String → Option Time
  pub is_zero : Time → Bool
  pub after : Time → Time → Bool
  pub before : Time → Time → Bool
  pub unix : Time → ℕ

pub record StreamData (F : Type 0) : Type 0 where
  pub entries : FreqDistrib F
  pub chunk_num : ℕ
  pub chunks_total : ℕ
  pub error : Option GoError

module _ (layout : TimeLayout) where
  open layout use {Time}

  unfoldable pub datetime_to_int : String → Option ℕ
  datetime_to_int v = elim (layout.parse v) [ none ↦ none | some t ↦ some (layout.unix t) ]

  -- The predicate that `SliceFilter` is given.
  unfoldable pub keeps : Time → Time → String → Bool
  keeps from_date to_date word = elim (layout.parse word) [
    | none ↦ false
    | some doc_date ↦
        if layout.is_zero from_date && layout.is_zero to_date
        then true
        else if layout.is_zero to_date
        then layout.after doc_date from_date
        else layout.after doc_date from_date && layout.before doc_date to_date
  ]

module _ {F : Type 0} where
  -- collections.SliceFilter, on the words.
  unfoldable pub filter_words :
      (String → Bool) → List (FreqDistribItem F) → List (FreqDistribItem F)
  filter_words p [] = []
  filter_words p (v ∷ vs) = let rest = filter_words p vs in if p v.word then v ∷ rest else rest

unfoldable pub window_size : ℕ → ℕ
window_size n =
    if ltb 1000 n
    then 100
    else if ltb 300 n
    then 30
    else if ltb 100 n
    then 20
    else if ltb 50 n
    then 15
    else 10

-- A limit that is left empty stays the zero time; `none` is a limit that does not parse.
pub parse_limit : (layout : TimeLayout) → String → Option layout.Time
parse_limit layout s = if str_eq s "" then some layout.zero else layout.parse s

module _ (f32 f64 : Floats) (sort : Sorter earlier) (layout : TimeLayout) where
  open f32 use {Float}
  open layout use {Time}

  -- The body of the loop over the chunks: the items that are left, binned or not.
  unfoldable pub filter_chunk :
      Time → Time → Bool → List (FreqDistribItem Float) → Outcome (List (FreqDistribItem Float))
  unfolding keeps filter_words datetime_to_int window_size
  filter_chunk from_date to_date autobin freqs =
      let kept = filter_words (keeps layout from_date to_date) freqs in
      if autobin
      then bin_as_data_series f32 f64 sort (datetime_to_int layout) kept (window_size (length kept))
      else returned kept

  -- The goroutine over the chunks. A panic ends the process.
  pub filter_chunks :
      Time → Time → Bool → List (StreamData Float) → Outcome (List (StreamData Float))
  unfolding filter_chunk
  filter_chunks from_date to_date autobin [] = returned []
  filter_chunks from_date to_date autobin (item ∷ rest) =
      elim (filter_chunk from_date to_date autobin item.entries.freqs) [
        | panicked ↦ panicked
        | returned freqs ↦ elim (filter_chunks from_date to_date autobin rest) [
          | panicked ↦ panicked
          | returned out ↦
              returned (record item { entries = record item.entries { freqs = freqs } } ∷ out)
        ]
      ]

  abbrev no_entries : FreqDistrib Float
  no_entries = record {
    conc_size = 0;
    corpus_size = 0;
    subc_size = 0;
    freqs = [];
    fcrit = "";
    examples_query_tpl = "";
    error = none;
  }

  -- The one item that is sent after the input has been drained.
  abbrev pub limit_error : String → StreamData Float
  limit_error msg = record {
    entries = no_entries;
    chunk_num = 0;
    chunks_total = 0;
    error = some (plain_error msg);
  }

  pub filter_by_year_range :
      List (StreamData Float) → String → String → Bool → Outcome (List (StreamData Float))
  unfolding parse_limit filter_chunks
  filter_by_year_range in_stream from_date_str to_date_str autobin =
      elim (parse_limit layout from_date_str) [
        | none ↦ returned (
            limit_error (
              "failed to parse fromDateStr " ++ from_date_str ++ " using template "
              ++ layout.format)
            ∷ [])
        | some from_date ↦ elim (parse_limit layout to_date_str) [
          | none ↦ returned (
              limit_error
                ("failed to parse toDateStr " ++ to_date_str ++ " using template " ++ layout.format)
              ∷ [])
          | some to_date ↦ filter_chunks from_date to_date autobin in_stream
        ]
      ]
