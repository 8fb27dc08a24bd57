-- ===== src/Handlers/Exchange.antt =====
-- corpus/handlers/common.go: what an action does with the answer of a worker, HandleWorkerError and
-- TypedOrRespondError, after it has published one query.
pub mod Once
use mquery.Base.{ℕ, Bool, true, false, List, [], ◌∷◌, Option, none, some, if◌then◌else◌}
use mquery.Base.Int.{ℤ}
use mquery.Base.Text.{String}
use mquery.Rdb.Query.{Args}
use mquery.Results.{FreqDistrib}
use mquery.Results.Types.{
  Payloads, CorpusInfo, corpus_info, CollFreqData, coll_freq_data, ConcSize, Collocations,
  Concordance, TextTypeNorms, TokenContext, TextTypesAvailValues, FuncResult, freq_distrib,
  conc_size, concordance, collocations, text_type_norms, token_context, text_types_avail_values,
  err_of,
}
use mquery.Results.Binning.{Outcome}
use mquery.Corpora.Setup.{MqCorpusSetup}
use mquery.Corpora.Lookup.{Found}
use mquery.Handlers.Request.{Served, asking, failing, panicking}

-- What comes of a query: it could not be published, or the received result, whose value is nil if
-- the channel was closed with no result, and `HasUserError`.
pub data Asked (ty : Payloads) : Type 0 where
  not_published : Asked ty
  received : Option (FuncResult ty) → Bool → Asked ty

-- The Actions of corpus/handlers/factory.go, as what the handlers call: GetCorp, CheckSavedSubcorpus
-- in the configured directory, GetRegistryPath, TextTypeProperties.Prop of a configuration,
-- strconv.Atoi, and the exchange with a worker. `bad_int` is the status with which the package
-- unireq answers an argument that is not an integer.
pub record Actions (ty : Payloads) : Type 0 where
  pub find_corp : String → Found
  pub saved_subcorpus_of : String → Outcome (String × Bool)
  pub registry_path : String → String
  pub prop_of : MqCorpusSetup → String → String
  pub atoi : String → Option ℤ
  pub bad_int : ℕ
  pub ask : String → Args → Asked ty

module _ {ty : Payloads} {B : Type 0} where
  -- HandleWorkerError, with what follows if there is no error.
  unfoldable pub handle_worker_error :
      Option (FuncResult ty) → Bool → (FuncResult ty → Served B) → Served B
  handle_worker_error none user_error next = panicking
  handle_worker_error (some v) user_error next = elim (err_of v) [
    | some e ↦ failing (if user_error then 400 else 500)
    | none ↦ next v
  ]

  -- TypedOrRespondError, with what follows: `as_type` is the type assertion.
  abbrev pub typed_or_respond_error :
      {A : Type 0} → (FuncResult ty → Option A) → (A → Served B) → FuncResult ty → Served B
  typed_or_respond_error as_type next v = elim (as_type v) [ none ↦ failing 500 | some a ↦ next a ]

  unfoldable pub with_reply : Asked ty → (FuncResult ty → Served B) → Served B
  unfolding handle_worker_error
  with_reply not_published next = failing 500
  with_reply (received v user_error) next = handle_worker_error v user_error next

  -- PublishQuery, the wait for the result, and what follows a result without an error.
  abbrev pub exchange :
      (String → Args → Asked ty) → String → Args → (FuncResult ty → Served B) → Served B
  exchange ask func args next = asking func args (with_reply (ask func args) next)

module _ {ty : Payloads} where
  -- The type assertions.
  abbrev pub as_freqs : FuncResult ty → Option (FreqDistrib ty.Float32)
  as_freqs (freq_distrib res) = some res
  as_freqs _ = none

  abbrev pub as_conc_size : FuncResult ty → Option (ConcSize ty.Float64)
  as_conc_size (conc_size res) = some res
  as_conc_size _ = none

  abbrev pub as_concordance : FuncResult ty → Option (Concordance ty.Line)
  as_concordance (concordance res) = some res
  as_concordance _ = none

  abbrev pub as_collocations : FuncResult ty → Option (Collocations ty.Float64)
  as_collocations (collocations res) = some res
  as_collocations _ = none

  abbrev pub as_norms : FuncResult ty → Option TextTypeNorms
  as_norms (text_type_norms res) = some res
  as_norms _ = none

  abbrev pub as_token_context : FuncResult ty → Option (TokenContext ty.Line)
  as_token_context (token_context res) = some res
  as_token_context _ = none

  abbrev pub as_avail_values : FuncResult ty → Option TextTypesAvailValues
  as_avail_values (text_types_avail_values res) = some res
  as_avail_values _ = none

  abbrev pub as_corpus_info : FuncResult ty → Option (CorpusInfo ty.Overview)
  as_corpus_info (corpus_info res) = some res
  as_corpus_info _ = none

  abbrev pub as_coll_freq_data : FuncResult ty → Option CollFreqData
  as_coll_freq_data (coll_freq_data res) = some res
  as_coll_freq_data _ = none
