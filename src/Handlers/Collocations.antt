-- ===== src/Handlers/Collocations.antt =====
-- corpus/handlers/colls.go: the arguments of `Collocations`, its query and its response, after the
-- corpus and the query are known.
pub mod Window
use mquery.Base.{ℕ, zero, suc, ◌&&◌, Option, none, some, if◌then◌else◌}
use mquery.Base.Int.{ℤ, pos, negsuc, ltb_ℤ, eqb_ℤ}
use mquery.Base.Text.{String, str_eq}
use mquery.Rdb.Query.{CollocationsArgs}
use mquery.Results.Types.{Collocations}
use mquery.Handlers.Parallel.{int_arg}

-- The arguments of the URL. A text that is missing is empty.
pub record CollUrl : Type 0 where
  pub measure : String
  pub srch_left : Option String
  pub srch_right : Option String
  pub min_coll_freq : Option String
  pub min_corp_freq : Option String
  pub max_items : Option String
  pub event : String
  pub srch_attr : String

pub record CollArgs : Type 0 where
  pub measure : String
  pub srch_left : ℤ
  pub srch_right : ℤ
  pub min_coll_freq : ℤ
  pub min_corp_freq : ℤ
  pub max_items : ℤ
  pub event : String

-- The arguments, or the status of the error response.
pub data FetchedArgs : Type 0 where
  coll_args : CollArgs → FetchedArgs
  coll_rejected : ℕ → FetchedArgs

abbrev pub or_else : String → String → String
or_else dflt s = if str_eq s "" then dflt else s

-- The status for an integer argument that does not parse is that of `unireq.GetURLIntArgOrFail`.
unfoldable pub fetch_coll_action_args : (String → Option ℤ) → ℕ → CollUrl → FetchedArgs
fetch_coll_action_args atoi bad_int url = elim (int_arg atoi (pos 5) url.srch_left) [
  | none ↦ coll_rejected bad_int
  | some left ↦
      if ltb_ℤ left (pos 0) then coll_rejected 400 else elim (int_arg atoi (pos 5) url.srch_right) [
        | none ↦ coll_rejected bad_int
        | some right ↦
            if ltb_ℤ right (pos 0)
            then coll_rejected 400
            else if eqb_ℤ left (pos 0) && eqb_ℤ right (pos 0)
            then coll_rejected 400
            else elim (int_arg atoi (pos 3) url.min_coll_freq) [
              | none ↦ coll_rejected bad_int
              | some min_coll ↦ elim (int_arg atoi min_coll url.min_corp_freq) [
                | none ↦ coll_rejected bad_int
                | some min_corp ↦ elim (int_arg atoi (pos 20) url.max_items) [
                  | none ↦ coll_rejected bad_int
                  | some max_items ↦ coll_args (record {
                    measure = or_else "logDice" url.measure;
                    srch_left = left;
                    srch_right = right;
                    min_coll_freq = min_coll;
                    min_corp_freq = min_corp;
                    max_items = max_items;
                    event = url.event;
                  })
                ]
              ]
            ]
      ]
]

-- -n; the least int is never negated here.
abbrev pub negated : ℤ → ℤ
negated (pos zero) = pos zero
negated (pos (suc n)) = negsuc n
negated (negsuc n) = pos (suc n)

-- The query that is published.
unfoldable pub coll_query_args : String → String → String → CollUrl → CollArgs → CollocationsArgs
coll_query_args corpus_path saved_subcorpus q url args = record {
  corpus_path = corpus_path;
  subc_path = saved_subcorpus;
  query = q;
  attr = or_else "lemma" url.srch_attr;
  measure = args.measure;
  srch_range = (negated args.srch_left, args.srch_right);
  min_freq = args.min_coll_freq;
  min_corp_freq = args.min_corp_freq;
  max_items = args.max_items;
}

-- The left range is turned back for the response.
unfoldable pub coll_response : {F : Type 0} → Collocations F → Collocations F
coll_response result = record result {
  srch_range = (negated result.srch_range.0, result.srch_range.1);
}
