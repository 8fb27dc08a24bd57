-- ===== src/Results/Json/Keys.antt =====
-- The keys that every response has.
use mquery.Base.{
  ℕ, ◌≡◌, refl, ◌∙◌, ◌==◌, inl, inr, Bool-cases, Bool, true, false, Option, none, some,
  if◌then◌else◌,
}
use mquery.Base.Float.{Floats}
use mquery.Base.Text.{String, str_eq}
use mquery.Errors.{GoError}
use mquery.Results.Json.{
  Json, text, Fields, end, field, error_json, error_field, error_or_null, unless_zero, unless_empty,
  marshal, freq_distrib_fields, collocations_fields, corpus_info_fields, text_type_norms_fields,
  token_context_fields, avail_values_fields, conc_size_fields, concordance_fields,
}
use mquery.Results.Types.{
  Payloads, FuncResult, corpus_info, freq_distrib, conc_size, concordance, collocations,
  coll_freq_data, text_type_norms, token_context, text_types_avail_values, error_result, type_of,
  err_of,
}
use mquery.Worker.Actions.{payloads}

module _ {ty : Payloads} where
  -- The value of a key.
  abbrev pub value_of : String → Fields ty → Option (Json ty)
  value_of k end = none
  value_of k (field j v rest) = if str_eq j k then some v else value_of k rest

  abbrev pub error_value : Option GoError → Option (Json ty)
  error_value none = none
  error_value (some e) = some (error_json e)

  value_of-error_field : (e : Option GoError) → value_of "error" (error_field e) ≡ error_value e
  value_of-error_field none = refl
  value_of-error_field (some e) = refl

  value_of-unless_zero :
      (j k : String) (n : ℕ) (rest : Fields ty)
      → str_eq j k ≡ false
      → value_of k (unless_zero j n rest) ≡ value_of k rest
  value_of-unless_zero j k n rest h = elim (Bool-cases (n == 0)) [
    | inl e ↦ rw e refl
    | inr e ↦ rw (e, h) refl
  ]

  value_of-unless_empty :
      (j k s : String) (rest : Fields ty)
      → str_eq j k ≡ false
      → value_of k (unless_empty j s rest) ≡ value_of k rest
  value_of-unless_empty j k s rest h = elim (Bool-cases (str_eq s "")) [
    | inl e ↦ rw e refl
    | inr e ↦ rw (e, h) refl
  ]

  no_type : (e : Option GoError) → value_of "resultType" (error_field e) ≡ none
  no_type none = refl
  no_type (some e) = refl

  -- The value under `error`: that of an `ErrorResult` has no `omitempty`.
  abbrev pub error_of : FuncResult ty → Option (Json ty)
  error_of (error_result res) = some (error_or_null res.error)
  error_of r = error_value (err_of r)

  -- The results that have their own MarshalJSON.
  abbrev pub has_type_key : FuncResult ty → Bool
  has_type_key (coll_freq_data res) = false
  has_type_key (error_result res) = false
  has_type_key _ = true

module _ (f32 f64 : Floats) (round : f64.Float → f64.Float) {Line Overview : Type 0} where
  -- The JSON of every result has its error under `error`, and without an error no such key, or null
  -- for `ErrorResult`; and it has the result's type under `resultType`, except for `CollFreqData` and
  -- `ErrorResult`, which have no such key.
  pub marshal-keys :
      (r : FuncResult (payloads f32 f64 Line Overview))
      → (value_of "error" (marshal f32 f64 round r) ≡ error_of r)
        × (value_of "resultType" (marshal f32 f64 round r)
            ≡ (if has_type_key r then some (text (type_of r)) else none))
  unfolding marshal err_of type_of freq_distrib_fields collocations_fields corpus_info_fields
      text_type_norms_fields token_context_fields avail_values_fields conc_size_fields
      concordance_fields
  marshal-keys (corpus_info res) = (value_of-error_field res.error, refl)
  marshal-keys (freq_distrib res) = (
    value_of-unless_zero "subcSize" "error" res.subc_size _ refl
        ∙ value_of-unless_empty "examplesQueryTpl" "error" res.examples_query_tpl _ refl
        ∙ value_of-error_field res.error,
    value_of-unless_zero "subcSize" "resultType" res.subc_size _ refl
        ∙ value_of-unless_empty "examplesQueryTpl" "resultType" res.examples_query_tpl _ refl,
  )
  marshal-keys (conc_size res) = (value_of-error_field res.error, refl)
  marshal-keys (concordance res) = (value_of-error_field res.error, refl)
  marshal-keys (collocations res) = (
    value_of-unless_zero "subcSize" "error" res.subc_size _ refl ∙ value_of-error_field res.error,
    value_of-unless_zero "subcSize" "resultType" res.subc_size _ refl,
  )
  marshal-keys (coll_freq_data res) = (value_of-error_field res.error, no_type res.error)
  marshal-keys (text_type_norms res) = (value_of-error_field res.error, refl)
  marshal-keys (token_context res) = (value_of-error_field res.error, refl)
  marshal-keys (text_types_avail_values res) = (value_of-error_field res.error, refl)
  marshal-keys (error_result res) = (refl, refl)
