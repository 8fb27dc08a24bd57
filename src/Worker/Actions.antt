-- ===== src/Worker/Actions.antt =====
-- worker/actions.go: the actions of a worker. Those that read the cache of norms take it, and the one
-- that writes it returns it. What Manatee, the file system and the parser of concordance lines do is
-- the interface below.
pub mod Failures
use Prim.Native.String.{◌++◌}
use mquery.Base.{ℕ, Bool, true, false, not, ◌||◌, List, [], ◌∷◌, Option, none, some, if◌then◌else◌}
use mquery.Base.Word.{add64, sub64, slt64}
use mquery.Base.Int.{ℤ, pos, negsuc, ltb_ℤ}
use mquery.Base.Float.{Floats}
use mquery.Base.Sort.{Sorter}
use mquery.Base.Text.{String, str_eq, split}
use mquery.Errors.{GoError, input_error, internal_error, plain_error, message, Result, ok, err}
use mquery.Mango.{get_text_types_norms}
use mquery.Mango.Measure.{import_coll_measure, normalize_coll_measure_name}
use mquery.Mango.StructAttrs.{StructAttrRow, GoStructAttr, get_struct_attr_values}
use mquery.Mango.Concordance.{
  GoConcordance, ConcRequest, ConcExamples, ConcOutcome, found, rows_out_of_conc, conc_failed,
  conc_panicked, get_concordance, get_concordance_with_coll_phrase,
}
use mquery.Rdb.Query.{
  CorpusInfoArgs, FreqDistribArgs, CollocationsArgs, ConcordanceArgs, as_description,
  CalcCollFreqDataArgs, TextTypeNormsArgs, TokenContextArgs, TextTypesAvailValuesArgs,
}
use mquery.Results.{FreqDistribItem, FreqDistrib}
use mquery.Results.Types.{
  Payloads, GoCollItem, ConcSize, Collocations, CollFreqData, Concordance, CorpusInfo,
  TextTypeNorms, TokenContext, TextTypesAvailValues,
}
use mquery.Worker.FreqResult.{
  Freqs, Norms, Compiled, compiled, failed, panicked, more_frequent, compile_freq_result,
}
use mquery.Worker.NormsCache.{NormsCache, get, set}

-- GoConcSize and GoColls of mango/mango.go.
pub record GoConcSize (F : Type 0) : Type 0 where
  pub value : ℕ
  pub arf : F
  pub corpus_size : ℕ

pub record GoColls (F : Type 0) : Type 0 where
  pub colls : List (GoCollItem F)
  pub conc_size : ℕ
  pub corpus_size : ℕ
  pub subc_size : ℕ

-- An action that returns, or panics.
pub data Acted (A : Type 0) : Type 0 where
  answered : A → Acted A
  action_panicked : String → Acted A

abbrev pub payloads : Floats → Floats → Type 0 → Type 0 → Payloads
payloads f32 f64 Line Overview = record {
  Line = Line;
  Overview = Overview;
  Float32 = f32.Float;
  Float64 = f64.Float;
}

-- What the actions call. A failed call for a value gives no value.
pub record Manatee (Line Overview F : Type 0) : Type 0 where
  pub is_file : String → Result Bool
  -- The overview with the base name of a path for a name, and the empty one.
  pub named : String → Overview
  pub no_overview : Overview
  -- FillStructAndAttrs changes the overview, also if it fails.
  pub fill_struct_and_attrs : String → Overview → Overview × Option GoError
  pub with_size : ℕ → Overview → Overview
  pub with_description : String → Overview → Overview
  pub get_corpus_size : String → Result ℕ
  pub get_corpus_conf : String → String → Result String
  pub calc_freq_dist : String → String → String → String → ℤ → Result Freqs
  pub attr_values_sizes : String → String → String → Result Norms
  pub get_collocations : CollocationsArgs → String → Result (GoColls F)
  pub get_conc_size : String → String → String → Result (GoConcSize F)
  pub conc_examples : ConcRequest → ConcExamples
  pub coll_phrase_examples : ConcRequest → String → ℤ → ℤ → ConcExamples
  pub compile_subc_freqs : String → String → String → Option GoError
  pub mktokencov : String → String → String → String → Option GoError
  pub get_corp_region : String → ℕ → ℕ → List String → List String → Result String
  pub struct_attr_rows : String → ℤ → Result (List StructAttrRow)
  -- NewLineParser for some attributes, and its methods.
  pub parse : List String → List String → List Line
  pub parse_aligned_line : List String → String → Line → Line
  pub no_line : Line
  -- The texts of two lines, one after the other.
  pub append_text : Line → Line → Line
  pub strong : Line → Line
  pub with_ref : ℕ → Line → Line

-- strings.Split(crit, " ")[0]
unfoldable pub extract_attr_from_ttcrit : String → String
extract_attr_from_ttcrit crit = elim (split crit " ") [ [] ↦ "" | attr ∷ rest ↦ attr ]

module _ {Line Overview F : Type 0} (lib : Manatee Line Overview F) where
  abbrev info_answer : Overview → Option GoError → CorpusInfo Overview
  info_answer d e = record { data_ = d; error = e }

  unfoldable pub corpus_info_of : CorpusInfoArgs → CorpusInfo Overview
  corpus_info_of args =
      let path = args.corpus_path in
      let d0 = lib.named path in
      elim (lib.is_file path) [
        | err e ↦ info_answer d0 (some e)
        | ok false ↦ info_answer d0 (some (input_error ("Invalid corpus path: " ++ path)))
        | ok true ↦
            let (d1, fill_error) = lib.fill_struct_and_attrs path d0 in
            elim fill_error [
              | some e ↦ info_answer d1 (some e)
              | none ↦ elim (lib.get_corpus_size path) [
                | err e ↦ info_answer (lib.with_size 0 d1) (some e)
                | ok size ↦ elim (lib.get_corpus_conf path "INFO") [
                  | err e ↦ info_answer (lib.with_description "" (lib.with_size size d1)) (some e)
                  | ok descr ↦ info_answer (lib.with_description descr (lib.with_size size d1)) none
                ]
              ]
            ]
      ]

  -- The norms for the attribute of the criterion, and the error of reading them.
  unfoldable pub freq_norms : FreqDistribArgs → NormsCache → Norms × Option GoError
  freq_norms args nc =
      let attr = extract_attr_from_ttcrit args.crit in
      if args.is_text_types
      then (let (norms, found_norms) = get nc args.corpus_path attr in
          elim found_norms [
            | true ↦ (norms, none)
            | false ↦ elim (get_text_types_norms lib.attr_values_sizes args.corpus_path attr) [
              | ok read ↦ (read, none)
              | err e ↦ ([], some e)
            ]
          ])
      else ([], none)

module _ (f32 : Floats) {Line Overview F : Type 0} (lib : Manatee Line Overview F) where
  abbrev pub freqs_error : GoError → FreqDistrib f32.Float
  freqs_error e = record {
    conc_size = 0;
    corpus_size = 0;
    subc_size = 0;
    freqs = [];
    fcrit = "";
    examples_query_tpl = "";
    error = some e;
  }

  abbrev freqs_answer :
      FreqDistribArgs
      → Freqs
      → Option GoError
      → List (FreqDistribItem f32.Float)
      → FreqDistrib f32.Float
  freqs_answer args freqs e items = record {
    conc_size = freqs.conc_size;
    corpus_size = freqs.corpus_size;
    subc_size = 0;
    freqs = items;
    fcrit = args.crit;
    examples_query_tpl = "";
    error = e;
  }

  -- The error of `CompileFreqResult` goes to a variable that is not read again.
  unfoldable pub compiled_answer :
      FreqDistribArgs
      → Freqs
      → Option GoError
      → Compiled (List (FreqDistribItem f32.Float))
      → Acted (FreqDistrib f32.Float)
  compiled_answer args freqs e (compiled items) = answered (freqs_answer args freqs e items)
  compiled_answer args freqs e (failed items ignored) = answered (freqs_answer args freqs e items)
  compiled_answer args freqs e panicked = action_panicked "runtime error: index out of range"

  unfoldable pub freq_distrib_of :
      Sorter (more_frequent {F = f32.Float})
      → FreqDistribArgs
      → NormsCache
      → Acted (FreqDistrib f32.Float)
  unfolding freq_norms compiled_answer
  freq_distrib_of sort args nc =
      if ltb_ℤ (pos 0) args.max_items
      then elim (lib.calc_freq_dist args.corpus_path args.subc_path args.query args.crit
          args.freq_limit) [
            | err e ↦ answered (freqs_error e)
            | ok freqs ↦
                let (norms, e) = freq_norms lib args nc in
                compiled_answer args freqs e
                  (compile_freq_result f32 sort freqs freqs.subc_size args.max_items norms)
          ]
      else answered (freqs_error (input_error "maxItems must be a positive number"))

module _ {Line Overview F : Type 0} (lib : Manatee Line Overview F) where
  abbrev pub colls_error : GoError → Collocations F
  colls_error e = record {
    conc_size = 0;
    corpus_size = 0;
    subc_size = 0;
    colls = [];
    measure = "";
    srch_range = (pos 0, pos 0);
    error = some e;
  }

  abbrev pub colls_answer : CollocationsArgs → GoColls F → String → Option GoError → Collocations F
  colls_answer args colls msr e = record {
    conc_size = colls.conc_size;
    corpus_size = colls.corpus_size;
    subc_size = colls.subc_size;
    colls = colls.colls;
    measure = msr;
    srch_range = args.srch_range;
    error = e;
  }

  unfoldable pub collocations_of : CollocationsArgs → Collocations F
  collocations_of args = elim (import_coll_measure args.measure) [
    | none ↦ colls_error (plain_error "unsupported value")
    | some msr ↦ elim (lib.get_collocations args msr) [
      | err e ↦ colls_error e
      | ok colls ↦ elim (normalize_coll_measure_name args.measure) [
        | some name ↦ colls_answer args colls name none
        | none ↦
            colls_answer args colls "??"
              (some (plain_error "cannot export collocation measure identifier: unsupported value"))
      ]
    ]
  ]

  unfoldable pub conc_size_of : F → ConcordanceArgs → ConcSize F
  conc_size_of zero_arf args = elim (lib.get_conc_size args.corpus_path args.subc_path args.query) [
    | err e ↦ record { total = 0; arf = zero_arf; corpus_size = 0; error = some e }
    | ok info ↦ record {
      total = info.value;
      arf = info.arf;
      corpus_size = info.corpus_size;
      error = none;
    }
  ]
