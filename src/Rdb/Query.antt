-- ===== src/Rdb/Query.antt =====
-- rdb/client.go: the queries. An `int` or `int64` that is only compared is a ℤ; the positions of
-- `TokenContextArgs`, which are added, are bit patterns.
use Prim.Native.String.{◌++◌}
use mquery.Base.{ℕ, Bool, List, if◌then◌else◌}
use mquery.Base.Int.{ℤ}
use mquery.Base.Text.{String, str_eq}

pub record CorpusInfoArgs : Type 0 where
  pub corpus_path : String
  pub language : String

pub record FreqDistribArgs : Type 0 where
  pub corpus_path : String
  pub subc_path : String
  pub query : String
  pub crit : String
  pub is_text_types : Bool
  pub freq_limit : ℤ
  pub max_items : ℤ

pub record CollocationsArgs : Type 0 where
  pub corpus_path : String
  pub subc_path : String
  pub query : String
  pub attr : String
  pub measure : String
  pub srch_range : ℤ × ℤ
  pub min_freq : ℤ
  pub min_corp_freq : ℤ
  pub max_items : ℤ

-- `TermFrequencyArgs` is the same type under another name.
pub record ConcordanceArgs : Type 0 where
  pub corpus_path : String
  pub subc_path : String
  pub query : String
  pub query_lemma : String
  pub coll_query : String
  pub coll_lft_ctx : ℤ
  pub coll_rgt_ctx : ℤ
  pub attrs : List String
  pub show_structs : List String
  pub show_refs : List String
  pub max_items : ℤ
  pub shuffle : Bool
  pub rows_offset : ℤ
  pub max_context : ℤ
  pub view_context_struct : String
  pub parent_idx_attr : String

unfoldable pub as_description : ConcordanceArgs → String
as_description args =
    if str_eq args.coll_query ""
    then args.query
    else args.query ++ " (coll: " ++ args.coll_query ++ ")"

pub record CalcCollFreqDataArgs : Type 0 where
  pub corpus_path : String
  pub subc_path : String
  pub attrs : List String
  pub structs : List String
  pub mktokencov_path : String

pub record TextTypeNormsArgs : Type 0 where
  pub corpus_path : String
  pub struct_attr : String

pub record TokenContextArgs : Type 0 where
  pub corpus_path : String
  pub idx : ℕ
  pub kwic_len : ℕ
  pub left_ctx : ℕ
  pub right_ctx : ℕ
  pub structs : List String
  pub attrs : List String

pub record TextTypesAvailValuesArgs : Type 0 where
  pub corpus_path : String
  pub max_value_list_size : ℤ
  pub skip_truncated : Bool

-- The dynamic type of `Args`.
pub data Args : Type 0 where
  corpus_info_args : CorpusInfoArgs → Args
  freq_distrib_args : FreqDistribArgs → Args
  term_frequency_args : ConcordanceArgs → Args
  concordance_args : ConcordanceArgs → Args
  collocations_args : CollocationsArgs → Args
  calc_coll_freq_data_args : CalcCollFreqDataArgs → Args
  text_type_norms_args : TextTypeNormsArgs → Args
  token_context_args : TokenContextArgs → Args
  text_types_avail_values_args : TextTypesAvailValuesArgs → Args
  other_args : Args

pub record Query : Type 0 where
  pub channel : String
  pub func : String
  pub args : Args
