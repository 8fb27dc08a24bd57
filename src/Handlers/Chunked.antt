-- ===== src/Handlers/Chunked.antt =====
-- corpus/handlers/ttypes2.go: TextTypesParallel. corpus/handlers/ttoverview.go: TextTypesOverview. The
-- queries are published in the order of the chunks or properties; `arrive` gives the order in which
-- their goroutines go on.
use Prim.Native.String.{◌++◌}
use mquery.Base.{zero, Bool, true, false, List, [], ◌∷◌, Option, none, some, if◌then◌else◌, map}
use mquery.Base.Int.{ℤ, pos}
use mquery.Base.Float.{Floats}
use mquery.Base.Sort.{slice_stable}
use mquery.Base.Text.{String}
use mquery.Rdb.Query.{FreqDistribArgs, freq_distrib_args}
use mquery.Results.{FreqDistribItem, FreqDistrib, merge_all}
use mquery.Results.Binning.{Outcome, returned, panicked}
use mquery.Results.Types.{FuncResult, err_of}
use mquery.Worker.Actions.{payloads}
use mquery.Worker.FreqResult.{more_frequent}
use mquery.Corpora.Setup.{Texts}
use mquery.Corpora.Lookup.{Found, corp, no_corp, nil_dereference}
use mquery.Handlers.Parallel.{cut_items, empty_distrib}
use mquery.Handlers.Request.{
  Url, query_of, Served, asking, writing, error_status, failing, responding, panicking, with_int,
}
use mquery.Handlers.QueryProps.{QueryProps, determine_query_props}
use mquery.Handlers.Exchange.{Actions, Asked, not_published, received, as_freqs}
use mquery.Handlers.Frequencies.{text_types_internal_max_results}

-- What a goroutine adds: an error, with whether it is the client's, or a result; or it panics.
pub data Part (A : Type 0) : Type 0 where
  part_failed : Bool → Part A
  part_result : A → Part A
  part_panicked : Part A

-- Whether some part panicked, some failed, or some failed by the client.
module _ {A : Type 0} where
  unfoldable pub some_panicked : List (Part A) → Bool
  some_panicked [] = false
  some_panicked (part_panicked ∷ rest) = true
  some_panicked (p ∷ rest) = some_panicked rest

  unfoldable pub some_failed : List (Part A) → Bool
  some_failed [] = false
  some_failed (part_failed user_error ∷ rest) = true
  some_failed (p ∷ rest) = some_failed rest

  unfoldable pub some_user_error : List (Part A) → Bool
  some_user_error [] = false
  some_user_error (part_failed true ∷ rest) = true
  some_user_error (p ∷ rest) = some_user_error rest

  unfoldable pub results_of : List (Part A) → List A
  results_of [] = []
  results_of (part_result x ∷ rest) = x ∷ results_of rest
  results_of (p ∷ rest) = results_of rest

abbrev pub chunked_max : ℤ → ℤ
chunked_max (pos zero) = pos 100
chunked_max n = n

module _ (f32 f64 : Floats) {Line Overview : Type 0}
    (a : Actions (payloads f32 f64 Line Overview)) where
  open f32 use {Float}

  -- A part of a result that is no FreqDistrib fails, and so does one with an error.
  abbrev pub part_of_value :
      Bool → FuncResult (payloads f32 f64 Line Overview) → Part (FreqDistrib Float)
  part_of_value user_error v = elim (err_of v) [
    | some e ↦ part_failed user_error
    | none ↦ elim (as_freqs v) [ none ↦ part_failed false | some res ↦ part_result res ]
  ]

  abbrev pub part_of : Asked (payloads f32 f64 Line Overview) → Part (FreqDistrib Float)
  part_of not_published = part_failed false
  part_of (received none user_error) = part_panicked
  part_of (received (some v) user_error) = part_of_value user_error v

  -- All queries, then what is done with their parts.
  abbrev pub asking_all : {B : Type 0} → List FreqDistribArgs → Served B → Served B
  asking_all [] s = s
  asking_all (args ∷ rest) s = asking "freqDistrib" (freq_distrib_args args) (asking_all rest s)

  abbrev pub parts : List FreqDistribArgs → List (Part (FreqDistrib Float))
  parts [] = []
  parts (args ∷ rest) = part_of (a.ask "freqDistrib" (freq_distrib_args args)) ∷ parts rest

  abbrev pub cut_response :
      FreqDistrib Float → Outcome (List (FreqDistribItem Float)) → Served (FreqDistrib Float)
  cut_response merged panicked = panicking
  cut_response merged (returned items) = responding (record merged { freqs = items })

  -- What follows `wg.Wait()`. Any error is answered with status 500.
  unfoldable pub merged_response : ℤ → List (Part (FreqDistrib Float)) → Served (FreqDistrib Float)
  unfolding some_panicked some_failed results_of cut_items
  merged_response max_items ps =
      if some_panicked ps
      then panicking
      else if some_failed ps
      then failing 500
      else let merged = merge_all f32 (empty_distrib f32) (results_of ps) in
        cut_response merged
          (cut_items f32 (chunked_max max_items) (slice_stable more_frequent merged.freqs))

  abbrev pub parallel_args : Url → ℤ → ℤ → String → FreqDistribArgs
  parallel_args url flimit max_items subc = record {
    corpus_path = a.registry_path (query_of "corpusId" url);
    subc_path = subc;
    query = query_of "q" url;
    crit = query_of "attr" url ++ " 0";
    is_text_types = true;
    freq_limit = flimit;
    max_items = max_items;
  }

  module _ (arrive : List (Part (FreqDistrib Float)) → List (Part (FreqDistrib Float))) where
    -- `subcorpora` is what `OpenSplitCorpus` has found.
    unfoldable pub text_types_parallel : Option (List String) → Url → Served (FreqDistrib Float)
    unfolding merged_response
    text_types_parallel subcorpora url = elim subcorpora [
      | none ↦ failing 500
      | some subcs ↦ with_int a.atoi a.bad_int "flimit" (pos 1) url λ flimit.
          with_int a.atoi a.bad_int "maxItems" (pos 0) url λ max_items.
            let queries = map (parallel_args url flimit max_items) subcs in
            asking_all queries (merged_response max_items (arrive (parts queries)))
    ]

  -- The response of TextTypesOverview: the frequencies by property.
  abbrev pub Overviews : Type 0
  Overviews = List (String × FreqDistrib Float)

  unfoldable pub with_names : Texts → List (Part (FreqDistrib Float)) → Overviews
  with_names [] ps = []
  with_names (n ∷ ns) [] = []
  with_names ((attr, prop) ∷ ns) (part_result res ∷ ps) = (prop, res) ∷ with_names ns ps
  with_names (n ∷ ns) (p ∷ ps) = with_names ns ps

  abbrev pub overview_args : QueryProps → ℤ → String × String → FreqDistribArgs
  overview_args props flimit (attr, prop) = record {
    corpus_path = a.registry_path props.corpus;
    subc_path = "";
    query = props.query;
    crit = attr ++ " 0";
    is_text_types = true;
    freq_limit = flimit;
    max_items = pos text_types_internal_max_results;
  }

  unfoldable pub overview_response : Texts → List (Part (FreqDistrib Float)) → Served Overviews
  unfolding some_panicked some_failed some_user_error with_names
  overview_response names ps =
      if some_panicked ps
      then panicking
      else if some_failed ps
      then failing (if some_user_error ps then 400 else 500)
      else responding (with_names names ps)

  -- The overview properties with their attributes; the saved subcorpus is not part of the queries.
  abbrev pub overview_queries : Url → QueryProps → Texts → Served Overviews
  overview_queries url props names = with_int a.atoi 422 "flimit" (pos 1) url λ flimit.
      let queries = map (overview_args props flimit) names in
      asking_all queries (overview_response names (parts queries))

  -- Without a corpus the action goes on after its error, to a nil configuration.
  abbrev pub overview_found : Url → QueryProps → Found → Served Overviews
  overview_found url props nil_dereference = panicking
  overview_found url props no_corp = writing (error_status 404) panicking
  overview_found url props (corp conf) = overview_queries url props conf.overview_props

  abbrev pub overview_for : Url → Outcome QueryProps → Served Overviews
  overview_for url panicked = panicking
  overview_for url (returned props) = elim props.status [
    | some status ↦ failing status
    | none ↦ overview_found url props (a.find_corp props.corpus)
  ]

  unfoldable pub text_types_overview : Url → Served Overviews
  unfolding overview_response
  text_types_overview url =
      overview_for url (determine_query_props a.find_corp a.saved_subcorpus_of url)
