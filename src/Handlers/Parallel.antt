-- ===== src/Handlers/Parallel.antt =====
-- corpus/handlers/freqs.go: `FreqDistribParallel`, from the arguments of the request to the response.
-- The chunks of the corpus are queried at once, each in a goroutine of its own that a wait group
-- counts. A list of turns says in which order the handler and the goroutines go on.
pub mod Waiting
pub mod Ranking
use Prim.Native.String.{◌++◌}
use mquery.Base.{
  ℕ, zero, suc, Bool, true, false, List, [], ◌∷◌, Option, none, some, if◌then◌else◌, length,
}
use mquery.Base.Int.{ℤ, pos, negsuc}
use mquery.Base.Float.{Floats}
use mquery.Base.Sort.{slice_stable}
use mquery.Base.Text.{String, str_eq, split}
use mquery.Errors.{GoError, plain_error}
use mquery.Results.{FreqDistribItem, FreqDistrib, cut, merge_with}
use mquery.Results.Binning.{Outcome, returned, panicked}
use mquery.Rdb.Query.{FreqDistribArgs}
use mquery.Worker.FreqResult.{more_frequent}

abbrev pub max_freq_result_items : ℕ
max_freq_result_items = 20

abbrev pub default_freq_crit : String
default_freq_crit = "lemma/e 0~0>0"

-- The arguments of the URL; `none` is an argument that is not there.
pub record UrlArgs : Type 0 where
  pub flimit : Option String
  pub max_items : Option String
  pub within : Option String
  pub fcrit : String

-- What the handler does: an error response with its status, a response, a panic, or none of these
-- yet (`pending`) or ever.
pub data Response (A : Type 0) : Type 0 where
  error_response : ℕ → Response A
  response : A → Response A
  pending : Response A
  waits_forever : Response A
  handler_panicked : Response A

abbrev rejoin : String → List String → String
rejoin b [] = b
rejoin b (c ∷ cs) = b ++ "=" ++ rejoin c cs

-- strings.SplitN(within, "=", 2): the parts around the first `=`.
unfoldable pub split_once : List String → Option (String × String)
split_once [] = none
split_once (a ∷ []) = none
split_once (a ∷ b ∷ rest) = some (a, rejoin b rest)

-- The query with the expression of `within`; `none` is status 400.
unfoldable pub query_within : String → Option String → Option String
unfolding split_once
query_within q none = some q
query_within q (some within) =
    if str_eq within "" then none else elim (split_once (split within "=")) [
      | none ↦ none
      | some (key, value) ↦ elim (split key ".") [
        | strct ∷ attr ∷ [] ↦
            some (q ++ " within <" ++ strct ++ " " ++ attr ++ "=\"" ++ value ++ "\" />")
        | _ ↦ none
      ]
    ]

-- strconv.Atoi of an argument; `none` is status 422.
abbrev pub int_arg : (String → Option ℤ) → ℤ → Option String → Option ℤ
int_arg atoi dflt none = some dflt
int_arg atoi dflt (some s) = atoi s

-- The queries of the chunks.
abbrev pub chunk_args : String → String → UrlArgs → ℤ → ℤ → String → FreqDistribArgs
chunk_args corpus_path q url flimit max_items subc = record {
  corpus_path = corpus_path;
  subc_path = subc;
  query = q;
  crit = if str_eq url.fcrit "" then default_freq_crit else url.fcrit;
  is_text_types = false;
  freq_limit = flimit;
  max_items = max_items;
}

abbrev map_args : (String → FreqDistribArgs) → List String → List FreqDistribArgs
map_args f [] = []
map_args f (s ∷ ss) = f s ∷ map_args f ss

module _ (f32 : Floats) where
  open f32 use {Float}

  abbrev pub empty_distrib : FreqDistrib Float
  empty_distrib = record {
    conc_size = 0;
    corpus_size = 0;
    subc_size = 0;
    freqs = [];
    fcrit = "";
    examples_query_tpl = "";
    error = none;
  }

  -- Cut, also for a negative limit, which no length is below.
  unfoldable pub cut_items :
      ℤ → List (FreqDistribItem Float) → Outcome (List (FreqDistribItem Float))
  cut_items (negsuc n) items = panicked
  cut_items (pos n) items = returned (cut items n)

  -- A limit of 0 is the default.
  abbrev pub effective_max : ℤ → ℤ
  effective_max (pos zero) = pos max_freq_result_items
  effective_max n = n

  -- What follows `wg.Wait()`.
  unfoldable pub ranked : ℤ → FreqDistrib Float → Response (FreqDistrib Float)
  unfolding cut_items
  ranked max_items result =
      elim (cut_items (effective_max max_items) (slice_stable more_frequent result.freqs)) [
        | panicked ↦ handler_panicked
        | returned items ↦ response (record result { freqs = items })
      ]

  -- The handler and its goroutines: the queries that the loop has not published yet, the counter of
  -- the wait group, how many goroutines have not ended, and the shared result.
  pub record Group : Type 0 where
    pub todo : List FreqDistribArgs
    pub counter : ℕ
    pub goroutines : ℕ
    pub result : FreqDistrib Float

  -- wg.Add(len(sc.Subcorpora))
  abbrev pub new_group : List FreqDistribArgs → Group
  new_group queries = record {
    todo = queries;
    counter = length queries;
    goroutines = 0;
    result = empty_distrib;
  }

  -- Who goes on: the loop that publishes, or a goroutine with the result of its chunk. It has none if
  -- the value of the worker has another type, as that of an error has.
  pub data Turn : Type 0 where
    publishing : Turn
    merging : Option (FreqDistrib Float) → Turn

  -- A goroutine only logs that it has no result, and merges the zero value.
  abbrev pub merged_value : Option (FreqDistrib Float) → FreqDistrib Float
  merged_value (some next) = next
  merged_value none = empty_distrib

  -- One round of the loop: a query that cannot be published is only logged.
  unfoldable pub publish_chunk : (FreqDistribArgs → Bool) → Group → Group
  publish_chunk publishes g = elim g.todo [
    | [] ↦ g
    | a ∷ rest ↦ record g {
      todo = rest;
      goroutines = if publishes a then suc g.goroutines else g.goroutines;
    }
  ]

  -- A goroutine merges its result and ends with `wg.Done()`, which panics (`none`) on a counter of 0.
  unfoldable pub end_chunk : Option (FreqDistrib Float) → Group → Option Group
  end_chunk next g = elim g.goroutines [
    | zero ↦ some g
    | suc n ↦ elim g.counter [
      | zero ↦ none
      | suc c ↦ some (record g {
        counter = c;
        goroutines = n;
        result = merge_with f32 g.result (merged_value next);
      })
    ]
  ]

  unfoldable pub run_turns : (FreqDistribArgs → Bool) → List Turn → Group → Option Group
  unfolding publish_chunk end_chunk
  run_turns publishes [] g = some g
  run_turns publishes (publishing ∷ rest) g = run_turns publishes rest (publish_chunk publishes g)
  run_turns publishes (merging next ∷ rest) g = elim (end_chunk next g) [
    | none ↦ none
    | some u ↦ run_turns publishes rest u
  ]

  -- `wg.Wait()` returns once the counter is 0. With no goroutine left nothing subtracts from it.
  unfoldable pub waited : ℤ → Group → Response (FreqDistrib Float)
  unfolding ranked
  waited max_items g = elim g.todo [
    | a ∷ rest ↦ pending
    | [] ↦ elim g.counter [
      | zero ↦ ranked max_items g.result
      | suc c ↦ elim g.goroutines [ zero ↦ waits_forever | suc n ↦ pending ]
    ]
  ]

  -- From the arguments on; `publishes` says which queries can be published.
  unfoldable pub run_chunks :
      (FreqDistribArgs → Bool) → List FreqDistribArgs → List Turn → ℤ → Response (FreqDistrib Float)
  unfolding run_turns waited
  run_chunks publishes queries turns max_items =
      elim (run_turns publishes turns (new_group queries)) [
        | none ↦ handler_panicked
        | some g ↦ waited max_items g
      ]

  -- `subcorpora` are the chunks that `OpenSplitCorpus` has found.
  unfoldable pub freq_distrib_parallel :
      (String → Option ℤ)
      → (FreqDistribArgs → Bool)
      → String
      → Option (List String)
      → String
      → UrlArgs
      → List Turn
      → Response (FreqDistrib Float)
  unfolding run_chunks query_within
  freq_distrib_parallel atoi publishes corpus_path subcorpora q url turns = elim subcorpora [
    | none ↦ error_response 500
    | some subcs ↦ elim (int_arg atoi (pos 1) url.flimit) [
      | none ↦ error_response 422
      | some flimit ↦ elim (int_arg atoi (pos max_freq_result_items) url.max_items) [
        | none ↦ error_response 422
        | some max_items ↦ elim (query_within q url.within) [
          | none ↦ error_response 400
          | some query ↦
              run_chunks publishes
                (map_args (chunk_args corpus_path query url flimit max_items) subcs) turns max_items
        ]
      ]
    ]
  ]
