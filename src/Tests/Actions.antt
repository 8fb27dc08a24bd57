-- ===== src/Tests/Actions.antt =====
-- A small corpus for the actions of a worker.
use mquery.Worker.Run.Typed.{FitsQuery, run_query-FitsQuery}
use Prim.Native.String.{◌++◌}
use mquery.Base.{All, ℕ, ◌≡◌, ◌↔◌, ◌<◌, refl, none, Option, List, [], ◌∷◌, true, false, Bool, ap}
use mquery.Base.Int.{pos, ltb_ℤ}
use mquery.Base.Sort.{insert_sorted, slice_stable, stable_sorter}
use mquery.Base.Text.{String}
use mquery.Base.Word.{slt64}
use mquery.Errors.{GoError, plain_error, ok, err}
use mquery.Mango.{get_text_types_norms}
use mquery.Mango.Concordance.{GoConcordance, ConcExamples, found}
use mquery.Rdb.Query.{
  FreqDistribArgs, ConcordanceArgs, TextTypeNormsArgs, Query, freq_distrib_args, other_args,
}
use mquery.Results.{FreqDistrib}
use mquery.Results.Types.{freq_distrib, WorkerResult}
use mquery.Worker.FreqResult.{
  Freqs, get_norm, is_text_types, more_frequent, matched_items, is_present, absent_items,
  cut_sorted, compile_freq_result,
}
use mquery.Worker.NormsCache.{new_norms_cache, find, get}
use mquery.Worker.Actions.{
  Manatee, action_panicked, payloads, freq_norms, compiled_answer, freq_distrib_of,
}
use mquery.Worker.Actions.Failures.{freq_distrib_of-error}
use mquery.Worker.Lines.{rows_of}
use mquery.Worker.Lines.Rows.{rows_of-panics}
use mquery.Worker.TextTypes.{text_type_norms_of}
use mquery.Worker.TextTypes.Transparent.{IsSound, norms_answer, text_type_norms_of-transparent}
use mquery.Worker.Run.{Value, wrapped, sent_result, act, run_query}
use mquery.Worker.Run.Answers.{IsAnswered, run_query-answers, run_query-value}
use mquery.Tests.{nat_floats, item}

abbrev pub counted : Freqs
counted = record {
  words = "cat" ∷ "dog" ∷ [];
  freqs = 2 ∷ 7 ∷ [];
  conc_size = 9;
  corpus_size = 1000;
  subc_size = 1000;
}

abbrev pub no_examples : ConcExamples
no_examples = record {
  value = [];
  aligned = none;
  conc_size = 0;
  corpus_size = 0;
  err = none;
  error_code = 0;
}

-- A line is its text.
abbrev pub lib : Manatee String String ℕ
lib = record {
  is_file = λ p. ok true;
  named = λ p. p;
  no_overview = "";
  fill_struct_and_attrs = λ p d. (d, none);
  with_size = λ n d. d;
  with_description = λ t d. t;
  get_corpus_size = λ p. ok 1000;
  get_corpus_conf = λ p k. ok "a corpus";
  calc_freq_dist = λ p s q c n. ok counted;
  attr_values_sizes = λ p s a. ok (("fiction", 600) ∷ ("news", 400) ∷ []);
  get_collocations = λ a m. err (plain_error "no collocations");
  get_conc_size = λ p s q. ok (record { value = 9; arf = 4; corpus_size = 1000 });
  conc_examples = λ r. no_examples;
  coll_phrase_examples = λ r c m n. no_examples;
  compile_subc_freqs = λ p s a. none;
  mktokencov = λ m s p t. none;
  get_corp_region = λ p a b s t. ok "a cat sat";
  struct_attr_rows = λ p n. ok [];
  parse = λ attrs texts. texts;
  parse_aligned_line = λ attrs t l. l ++ t;
  no_line = "";
  append_text = λ a b. a ++ b;
  strong = λ l. l;
  with_ref = λ n l. l;
}

abbrev freq_args : FreqDistribArgs
freq_args = record {
  corpus_path = "/corp/a";
  subc_path = "";
  query = "[word=\"c.*\"]";
  crit = "word/i 0~0>0";
  is_text_types = false;
  freq_limit = pos 1;
  max_items = pos 1;
}

abbrev freq_answer : FreqDistrib ℕ
freq_answer = record {
  conc_size = 9;
  corpus_size = 1000;
  subc_size = 0;
  freqs = item "dog" 7 1000 0 ∷ [];
  fcrit = "word/i 0~0>0";
  examples_query_tpl = "";
  error = none;
}

freq_distrib_of-error_example : (freq_answer.error ≡ none) ↔ (
    (ltb_ℤ (pos 0) freq_args.max_items ≡ true)
    × ((freqs : Freqs) × (lib.calc_freq_dist freq_args.corpus_path freq_args.subc_path
            freq_args.query freq_args.crit freq_args.freq_limit
          ≡ ok freqs))
    × ((freq_norms lib freq_args new_norms_cache).1 ≡ none))
unfolding slt64 insert_sorted slice_stable get_norm is_text_types matched_items is_present
    absent_items cut_sorted compile_freq_result freq_norms compiled_answer freq_distrib_of
freq_distrib_of-error_example =
    freq_distrib_of-error nat_floats lib (stable_sorter more_frequent) freq_args new_norms_cache
      freq_answer refl

abbrev norms_args : TextTypeNormsArgs
norms_args = record { corpus_path = "/corp/a"; struct_attr = "doc.genre" }

new_norms_cache-IsSound : IsSound lib new_norms_cache
unfolding get find
new_norms_cache-IsSound c a n h e = absurd (cc (ap (λ x. x.1) e))

text_type_norms_of-transparent_example :
    ((text_type_norms_of lib norms_args new_norms_cache).0
      ≡ norms_answer (get_text_types_norms lib.attr_values_sizes "/corp/a" "doc.genre"))
    × IsSound lib (text_type_norms_of lib norms_args new_norms_cache).1
text_type_norms_of-transparent_example =
    text_type_norms_of-transparent lib norms_args new_norms_cache refl new_norms_cache-IsSound

abbrev conc_args : ConcordanceArgs
conc_args = record {
  corpus_path = "/corp/a";
  subc_path = "";
  query = "[]";
  query_lemma = "";
  coll_query = "";
  coll_lft_ctx = pos 0;
  coll_rgt_ctx = pos 0;
  attrs = "word" ∷ [];
  show_structs = [];
  show_refs = [];
  max_items = pos 10;
  shuffle = false;
  rows_offset = pos 0;
  max_context = pos 20;
  view_context_struct = "";
  parent_idx_attr = "";
}

abbrev two_lines : GoConcordance
two_lines = record {
  lines = "a cat" ∷ "a dog" ∷ [];
  aligned_lines = "kočka" ∷ [];
  conc_size = 2;
  corpus_size = 1000;
}

rows_of-panics_example :
    ((m : String) × (rows_of lib conc_args (found two_lines) ≡ action_panicked m))
    ↔ ((0 < 1) × (1 < 2))
rows_of-panics_example = rows_of-panics lib conc_args two_lines

abbrev Sent : Type 0
Sent = WorkerResult (payloads nat_floats nat_floats String String)

abbrev all_encodable : Value nat_floats nat_floats lib → Bool
all_encodable v = true

abbrev available : List Sent → Option GoError
available s = none

abbrev unknown : Query
unknown = record { channel = "mqueryResults:a1"; func = "sumUp"; args = other_args }

run_query-answers_example :
    IsAnswered all_encodable available "mqueryResults:a1" []
      (run_query nat_floats nat_floats lib
        (stable_sorter more_frequent)
        all_encodable
        available
        unknown
        (new_norms_cache, [])).1
run_query-answers_example =
    run_query-answers nat_floats nat_floats lib (stable_sorter more_frequent) all_encodable
      available (λ s. refl) (λ r. refl) unknown (new_norms_cache, [])

abbrev frequencies : Query
frequencies = record {
  channel = "mqueryResults:b2";
  func = "freqDistrib";
  args = freq_distrib_args freq_args;
}

abbrev frequencies_answer : Value nat_floats nat_floats lib
frequencies_answer = freq_distrib freq_answer

run_query-value_example :
    run_query nat_floats nat_floats lib
      (stable_sorter more_frequent)
      all_encodable
      available
      frequencies
      (new_norms_cache, [])
    ≡ (new_norms_cache, sent_result "mqueryResults:b2" (wrapped frequencies_answer) ∷ [])
unfolding slt64 insert_sorted slice_stable get_norm is_text_types matched_items is_present
    absent_items cut_sorted compile_freq_result freq_norms compiled_answer freq_distrib_of act
run_query-value_example =
    run_query-value nat_floats nat_floats lib (stable_sorter more_frequent) all_encodable available
      (λ s. refl) frequencies (new_norms_cache, []) frequencies_answer new_norms_cache refl refl

run_query-FitsQuery_example :
    All
      (FitsQuery frequencies)
      (run_query nat_floats nat_floats lib
        (stable_sorter more_frequent)
        all_encodable
        available
        frequencies
        (new_norms_cache, [])).1
run_query-FitsQuery_example =
    run_query-FitsQuery nat_floats nat_floats lib (stable_sorter more_frequent) all_encodable
      available frequencies (new_norms_cache, []) tt
