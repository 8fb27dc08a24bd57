-- ===== src/Results/Json.antt =====
-- rdb/results/results.go, rdb/general.go, merror/errors.go: the JSON of the results. An object is its
-- keys and values in the order of the fields of the struct, the keys of a map in that of its list. A
-- nil slice is an empty list, which is what `AlwaysAsList` makes of it; that of the attributes of
-- `TextTypesAvailValues` would be null.
pub mod Keys
use mquery.Base.{ℕ, zero, Bool, List, [], ◌∷◌, Option, none, some, if◌then◌else◌, ◌==◌, ◌&&◌}
use mquery.Base.Int.{ℤ}
use mquery.Base.Float.{Floats}
use mquery.Base.Word.{slt64}
use mquery.Base.Text.{String, str_eq}
use mquery.Errors.{
  GoError, input_error, input_error_ptr, internal_error, internal_error_ptr, recovered_error,
  timeout_error, plain_error,
}
use mquery.Mango.StructAttrs.{GoStructAttr}
use mquery.Results.{FreqDistribItem, FreqDistrib}
use mquery.Results.Types.{
  Payloads, GoCollItem, ConcSize, Collocations, CollFreqData, Concordance, CorpusInfo,
  TextTypeNorms, TokenContext, TextTypesAvailValues, ErrorResult, FuncResult, corpus_info,
  freq_distrib, conc_size, concordance, collocations, coll_freq_data, text_type_norms,
  token_context, text_types_avail_values, error_result, type_of,
}
use mquery.Worker.FreqResult.{Norms}
use mquery.Worker.Actions.{payloads}

-- Values of packages outside the repository are leaves.
mutual
  pub data Json (ty : Payloads) : Type 0 where
    null : Json ty
    text : String → Json ty
    int64 : ℕ → Json ty
    int : ℤ → Json ty
    bool : Bool → Json ty
    float32 : ty.Float32 → Json ty
    float64 : ty.Float64 → Json ty
    line : ty.Line → Json ty
    overview : ty.Overview → Json ty
    array : Items ty → Json ty
    object : Fields ty → Json ty

  pub data Items (ty : Payloads) : Type 0 where
    no_items : Items ty
    item : Json ty → Items ty → Items ty

  pub data Fields (ty : Payloads) : Type 0 where
    end : Fields ty
    field : String → Json ty → Fields ty → Fields ty

-- math.Round(val*1000) / 1000; `round` is math.Round.
abbrev pub norm_round : (f64 : Floats) → (f64.Float → f64.Float) → f64.Float → f64.Float
norm_round f64 round val =
    let thousand = f64.of_int 1000 in f64.over (round (f64.times val thousand)) thousand

module _ {ty : Payloads} where
  abbrev pub items_of : {A : Type 0} → (A → Json ty) → List A → Items ty
  items_of f [] = no_items
  items_of f (x ∷ xs) = item (f x) (items_of f xs)

  abbrev pub array_of : {A : Type 0} → (A → Json ty) → List A → Json ty
  array_of f xs = array (items_of f xs)

  -- MarshalJSON of the errors of merror; another error is a struct without exported fields.
  unfoldable pub error_json : GoError → Json ty
  error_json (plain_error m) = object end
  error_json (input_error m) = if str_eq m "" then null else text m
  error_json (input_error_ptr m) = if str_eq m "" then null else text m
  error_json (internal_error m) = if str_eq m "" then null else text m
  error_json (internal_error_ptr m) = if str_eq m "" then null else text m
  error_json (recovered_error m) = if str_eq m "" then null else text m
  error_json (timeout_error m) = if str_eq m "" then null else text m

  -- The last field, with `omitempty`.
  abbrev pub error_field : Option GoError → Fields ty
  error_field none = end
  error_field (some e) = field "error" (error_json e) end

  -- Without `omitempty`.
  abbrev pub error_or_null : Option GoError → Json ty
  error_or_null none = null
  error_or_null (some e) = error_json e

  -- A number or a text with `omitempty`.
  abbrev pub unless_zero : String → ℕ → Fields ty → Fields ty
  unless_zero k n rest = if n == 0 then rest else field k (int64 n) rest

  abbrev pub unless_empty : String → String → Fields ty → Fields ty
  unless_empty k s rest = if str_eq s "" then rest else field k (text s) rest

  abbrev pub freq_item_json : FreqDistribItem ty.Float32 → Json ty
  freq_item_json v = object (
      field "word" (text v.word) (
        field "freq" (int64 v.freq)
          (field "base" (int64 v.base) (field "ipm" (float32 v.ipm) end))))

  abbrev pub coll_item_json : GoCollItem ty.Float64 → Json ty
  coll_item_json v = object (
      field "word" (text v.word)
        (field "score" (float64 v.score) (field "freq" (int64 v.freq) end)))

  abbrev pub struct_attr_json : GoStructAttr → Json ty
  struct_attr_json v = object (
      field "struct" (text v.strct) (
        field "attr" (text v.attr) (
          field "values" (array_of text v.values) (field "isTruncated" (bool v.is_truncated) end))))

  abbrev pub sizes_fields : Norms → Fields ty
  sizes_fields [] = end
  sizes_fields ((k, n) ∷ rest) = field k (int64 n) (sizes_fields rest)

  -- FreqDistribResponse
  unfoldable pub freq_distrib_fields : FreqDistrib ty.Float32 → Fields ty
  freq_distrib_fields res = field "concSize" (int64 res.conc_size) (
      field "corpusSize" (int64 res.corpus_size) (
        unless_zero "subcSize" res.subc_size (
          field "freqs" (array_of freq_item_json res.freqs) (
            field "fcrit" (text res.fcrit) (
              unless_empty "examplesQueryTpl" res.examples_query_tpl
                (field "resultType" (text "freqs") (error_field res.error)))))))

  -- CollocationsResponse
  unfoldable pub collocations_fields : Collocations ty.Float64 → Fields ty
  collocations_fields res = field "corpusSize" (int64 res.corpus_size) (
      field "concSize" (int64 res.conc_size) (
        unless_zero "subcSize" res.subc_size (
          field "colls" (array_of coll_item_json res.colls) (
            field "resultType" (text "coll") (
              field "measure" (text res.measure) (
                field "srchRange"
                  (array (item (int res.srch_range.0) (item (int res.srch_range.1) no_items)))
                  (error_field res.error)))))))

  unfoldable pub corpus_info_fields : CorpusInfo ty.Overview → Fields ty
  corpus_info_fields res =
      field "data" (overview res.data_)
        (field "resultType" (text "corpusInfo") (error_field res.error))

  unfoldable pub text_type_norms_fields : TextTypeNorms → Fields ty
  text_type_norms_fields res =
      field "sizes" (object (sizes_fields res.sizes))
        (field "resultType" (text "textTypeNorms") (error_field res.error))

  unfoldable pub token_context_fields : TokenContext ty.Line → Fields ty
  token_context_fields res =
      field "context" (line res.context)
        (field "resultType" (text "tokenContext") (error_field res.error))

  unfoldable pub avail_values_fields : TextTypesAvailValues → Fields ty
  avail_values_fields res =
      field "attributes" (array_of struct_attr_json res.attributes)
        (field "resultType" (text "textTypesAvailValues") (error_field res.error))

-- The instances per million: 0 without a corpus size.
abbrev pub ipm64 : (f64 : Floats) → ℕ → ℕ → f64.Float
ipm64 f64 size corpus_size =
    if slt64 0 corpus_size
    then f64.times (f64.over (f64.of_int size) (f64.of_int corpus_size)) (f64.of_int 1000000)
    else f64.of_int 0

module _ (f32 f64 : Floats) (round : f64.Float → f64.Float) {Line Overview : Type 0} where
  -- ConcSizeResponse
  unfoldable pub conc_size_fields : ConcSize f64.Float → Fields (payloads f32 f64 Line Overview)
  conc_size_fields res = field "total" (int64 res.total) (
      field "arf" (float64 (norm_round f64 round res.arf)) (
        field "ipm" (float64 (norm_round f64 round (ipm64 f64 res.total res.corpus_size))) (
          field "corpusSize" (int64 res.corpus_size)
            (field "resultType" (text "termFrequency") (error_field res.error)))))

  -- ConcordanceResponse
  unfoldable pub concordance_fields : Concordance Line → Fields (payloads f32 f64 Line Overview)
  concordance_fields res = field "lines" (array_of line res.lines) (
      field "concSize" (int64 res.conc_size) (
        field "corpusSize" (int64 res.corpus_size) (
          field "ipm" (float64 (ipm64 f64 res.conc_size res.corpus_size))
            (field "resultType" (text "conc") (error_field res.error)))))

  -- The JSON of a result. `CollFreqData` and `ErrorResult` have no MarshalJSON of their own.
  unfoldable pub marshal :
      FuncResult (payloads f32 f64 Line Overview) → Fields (payloads f32 f64 Line Overview)
  unfolding freq_distrib_fields collocations_fields corpus_info_fields text_type_norms_fields
      token_context_fields avail_values_fields conc_size_fields concordance_fields
  marshal (corpus_info res) = corpus_info_fields res
  marshal (freq_distrib res) = freq_distrib_fields res
  marshal (conc_size res) = conc_size_fields res
  marshal (concordance res) = concordance_fields res
  marshal (collocations res) = collocations_fields res
  marshal (coll_freq_data res) = error_field res.error
  marshal (text_type_norms res) = text_type_norms_fields res
  marshal (token_context res) = token_context_fields res
  marshal (text_types_avail_values res) = avail_values_fields res
  marshal (error_result res) =
      field "func" (text res.func) (field "error" (error_or_null res.error) end)
