-- ===== src/Results/Types.antt =====
-- rdb/results/results.go, rdb/results.go, rdb/error.go: what a worker can answer.
use mquery.Base.{ℕ, Bool, List, Option}
use mquery.Base.Int.{ℤ}
use mquery.Base.Text.{String}
use mquery.Errors.{GoError}
use mquery.Mango.StructAttrs.{GoStructAttr}
use mquery.Results.{FreqDistrib}
use mquery.Worker.FreqResult.{Norms}

-- The types of packages outside the repository that the answers hold, and the two floating-point
-- types: `Line` is concordance.Line and `Overview` is corp.Overview.
pub record Payloads : Type 1 where
  pub Line : Type 0
  pub Overview : Type 0
  pub Float32 : Type 0
  pub Float64 : Type 0

pub record GoCollItem (F : Type 0) : Type 0 where
  pub word : String
  pub score : F
  pub freq : ℕ

pub record ConcSize (F : Type 0) : Type 0 where
  pub total : ℕ
  pub arf : F
  pub corpus_size : ℕ
  pub error : Option GoError

pub record Collocations (F : Type 0) : Type 0 where
  pub conc_size : ℕ
  pub corpus_size : ℕ
  pub subc_size : ℕ
  pub colls : List (GoCollItem F)
  pub measure : String
  pub srch_range : ℤ × ℤ
  pub error : Option GoError

pub record CollFreqData : Type 0 where
  pub error : Option GoError

-- The field `IPM` is never read: it is computed anew for a response.
pub record Concordance (Line : Type 0) : Type 0 where
  pub lines : List Line
  pub conc_size : ℕ
  pub corpus_size : ℕ
  pub error : Option GoError

pub record CorpusInfo (Overview : Type 0) : Type 0 where
  pub data_ : Overview
  pub error : Option GoError

pub record TextTypeNorms : Type 0 where
  pub sizes : Norms
  pub error : Option GoError

pub record TokenContext (Line : Type 0) : Type 0 where
  pub context : Line
  pub error : Option GoError

pub record TextTypesAvailValues : Type 0 where
  pub attributes : List GoStructAttr
  pub error : Option GoError

pub record ErrorResult : Type 0 where
  pub func : String
  pub error : Option GoError

-- The interface FuncResult and the types that implement it.
pub data FuncResult (ty : Payloads) : Type 0 where
  corpus_info : CorpusInfo ty.Overview → FuncResult ty
  freq_distrib : FreqDistrib ty.Float32 → FuncResult ty
  conc_size : ConcSize ty.Float64 → FuncResult ty
  concordance : Concordance ty.Line → FuncResult ty
  collocations : Collocations ty.Float64 → FuncResult ty
  coll_freq_data : CollFreqData → FuncResult ty
  text_type_norms : TextTypeNorms → FuncResult ty
  token_context : TokenContext ty.Line → FuncResult ty
  text_types_avail_values : TextTypesAvailValues → FuncResult ty
  error_result : ErrorResult → FuncResult ty

module _ {ty : Payloads} where
  unfoldable pub err_of : FuncResult ty → Option GoError
  err_of (corpus_info res) = res.error
  err_of (freq_distrib res) = res.error
  err_of (conc_size res) = res.error
  err_of (concordance res) = res.error
  err_of (collocations res) = res.error
  err_of (coll_freq_data res) = res.error
  err_of (text_type_norms res) = res.error
  err_of (token_context res) = res.error
  err_of (text_types_avail_values res) = res.error
  err_of (error_result res) = res.error

  -- Type(), with the constants of rdb/results.go.
  unfoldable pub type_of : FuncResult ty → String
  type_of (corpus_info res) = "corpusInfo"
  type_of (freq_distrib res) = "freqs"
  type_of (conc_size res) = "termFrequency"
  type_of (concordance res) = "conc"
  type_of (collocations res) = "coll"
  type_of (coll_freq_data res) = "collFreqData"
  type_of (text_type_norms res) = "textTypeNorms"
  type_of (token_context res) = "tokenContext"
  type_of (text_types_avail_values res) = "textTypesAvailValues"
  type_of (error_result res) = "error"

  -- res.Error = ...
  unfoldable pub set_err : Option GoError → FuncResult ty → FuncResult ty
  set_err e (corpus_info res) = corpus_info (record res { error = e })
  set_err e (freq_distrib res) = freq_distrib (record res { error = e })
  set_err e (conc_size res) = conc_size (record res { error = e })
  set_err e (concordance res) = concordance (record res { error = e })
  set_err e (collocations res) = collocations (record res { error = e })
  set_err e (coll_freq_data res) = coll_freq_data (record res { error = e })
  set_err e (text_type_norms res) = text_type_norms (record res { error = e })
  set_err e (token_context res) = token_context (record res { error = e })
  set_err e (text_types_avail_values res) = text_types_avail_values (record res { error = e })
  set_err e (error_result res) = error_result (record res { error = e })

-- What `PublishResult` sends, with the channel on which it sends it. The identity and the times of
-- the worker are left out.
pub record WorkerResult (ty : Payloads) : Type 0 where
  pub channel : String
  pub value : FuncResult ty
  pub has_user_error : Bool
