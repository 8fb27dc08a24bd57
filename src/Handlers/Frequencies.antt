-- ===== src/Handlers/Frequencies.antt =====
-- corpus/handlers/freqs.go: FreqDistrib. corpus/handlers/ttypes.go: TextTypes.
-- corpus/handlers/ttnorms.go: TextTypesNorms. corpus/handlers/ttvalues.go: TextTypesAvailValues.
use Prim.Native.String.{◌++◌}
use mquery.Base.{ℕ, true, false, none, some, if◌then◌else◌}
use mquery.Base.Int.{ℤ, pos}
use mquery.Base.Text.{String}
use mquery.Rdb.Query.{
  FreqDistribArgs, freq_distrib_args, text_type_norms_args, text_types_avail_values_args,
}
use mquery.Results.{FreqDistrib}
use mquery.Results.Binning.{Outcome, returned, panicked}
use mquery.Results.Types.{Payloads, TextTypeNorms, TextTypesAvailValues, FuncResult}
use mquery.Corpora.Lookup.{Found, corp, no_corp, nil_dereference}
use mquery.Handlers.Parallel.{max_freq_result_items}
use mquery.Handlers.Request.{
  Url, arg, query_of, is_set, error_status, Served, writing, failing, responding, panicking,
  with_int,
}
use mquery.Handlers.Collocations.{or_else}
use mquery.Handlers.QueryProps.{
  QueryProps, determine_query_props, Decoded, decoded, not_decoded, decode_panicked,
  decode_text_type_attr,
}
use mquery.Handlers.Exchange.{
  Actions, typed_or_respond_error, exchange, as_freqs, as_norms, as_avail_values,
}

abbrev pub default_freq_limit : ℕ
default_freq_limit = 1

abbrev pub text_types_internal_max_results : ℕ
text_types_internal_max_results = 20

-- The criterion: of the KWIC, folding the case unless it is to be matched.
abbrev pub freq_crit : Url → String
freq_crit url =
    or_else "lemma" (query_of "attr" url)
    ++ "/"
    ++ (if is_set "matchCase" url then "e" else "i")
    ++ " 0~0>0"

module _ {ty : Payloads} (a : Actions ty) where
  unfoldable pub freq_args : Url → QueryProps → ℤ → ℤ → FreqDistribArgs
  freq_args url props flimit max_items = record {
    corpus_path = a.registry_path props.corpus;
    subc_path = props.saved_subcorpus;
    query = props.query;
    crit = freq_crit url;
    is_text_types = false;
    freq_limit = flimit;
    max_items = max_items;
  }

  -- A result of another type is answered twice.
  abbrev pub freqs_or_errors : FuncResult ty → Served (FreqDistrib ty.Float32)
  freqs_or_errors v = elim (as_freqs v) [
    | none ↦ writing (error_status 500) (failing 500)
    | some res ↦ responding res
  ]

  abbrev pub freq_distrib_for : Url → Outcome QueryProps → Served (FreqDistrib ty.Float32)
  freq_distrib_for url panicked = panicking
  freq_distrib_for url (returned props) = elim props.status [
    | some status ↦ failing status
    | none ↦ with_int a.atoi 422 "flimit" (pos default_freq_limit) url λ flimit.
        with_int a.atoi a.bad_int "maxItems" (pos max_freq_result_items) url λ max_items.
          exchange a.ask "freqDistrib" (freq_distrib_args (freq_args url props flimit max_items))
            freqs_or_errors
  ]

  unfoldable pub freq_distrib_action : Url → Served (FreqDistrib ty.Float32)
  unfolding freq_args
  freq_distrib_action url =
      freq_distrib_for url (determine_query_props a.find_corp a.saved_subcorpus_of url)

  -- The argument `subc` takes the place of the saved subcorpus.
  abbrev pub subc_path_of : Url → QueryProps → String
  subc_path_of url props = elim (arg "subc" url) [ none ↦ props.saved_subcorpus | some p ↦ p ]

  unfoldable pub text_types_args : Url → QueryProps → String → ℤ → ℤ → FreqDistribArgs
  text_types_args url props attr flimit max_results = record {
    corpus_path = a.registry_path (query_of "corpusId" url);
    subc_path = subc_path_of url props;
    query = props.query;
    crit = attr ++ " 0";
    is_text_types = true;
    freq_limit = flimit;
    max_items = max_results;
  }

  abbrev pub text_types_with : Url → QueryProps → Decoded → Served (FreqDistrib ty.Float32)
  text_types_with url props decode_panicked = panicking
  text_types_with url props (not_decoded status) = failing status
  text_types_with url props (decoded attr) =
      with_int a.atoi 422 "flimit" (pos default_freq_limit) url λ flimit.
        with_int a.atoi a.bad_int "maxItems" (pos text_types_internal_max_results) url
          λ max_results.
            exchange a.ask "freqDistrib"
              (freq_distrib_args (text_types_args url props attr flimit max_results))
              (typed_or_respond_error as_freqs (λ res. responding res))

  abbrev pub text_types_for : Url → Outcome QueryProps → Served (FreqDistrib ty.Float32)
  text_types_for url panicked = panicking
  text_types_for url (returned props) = elim props.status [
    | some status ↦ failing status
    | none ↦ text_types_with url props (decode_text_type_attr a.find_corp a.saved_subcorpus_of url)
  ]

  unfoldable pub text_types : Url → Served (FreqDistrib ty.Float32)
  unfolding text_types_args
  text_types url = text_types_for url (determine_query_props a.find_corp a.saved_subcorpus_of url)

  unfoldable pub text_types_norms : Url → Served TextTypeNorms
  text_types_norms url =
      exchange a.ask "textTypeNorms"
        (text_type_norms_args (record {
          corpus_path = a.registry_path (query_of "corpusId" url);
          struct_attr = query_of "attr" url;
        }))
        (typed_or_respond_error as_norms (λ res. responding res))

  abbrev pub avail_values_for : String → Found → Served TextTypesAvailValues
  avail_values_for corpus_id nil_dereference = panicking
  avail_values_for corpus_id no_corp = failing 404
  avail_values_for corpus_id (corp conf) =
      exchange a.ask "textTypesAvailValues"
        (text_types_avail_values_args (record {
          corpus_path = a.registry_path corpus_id;
          max_value_list_size = pos 100;
          skip_truncated = true;
        }))
        (typed_or_respond_error as_avail_values (λ res. responding res))

  unfoldable pub text_types_avail_values : Url → Served TextTypesAvailValues
  text_types_avail_values url =
      let corpus_id = query_of "corpusId" url in avail_values_for corpus_id (a.find_corp corpus_id)
