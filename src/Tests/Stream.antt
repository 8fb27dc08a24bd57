-- ===== src/Tests/Stream.antt =====
-- A stream of two chunks, and a request without a limit.
use mquery.Base.{ℕ, arith, List, ◌++◌, map, ◌≡◌, refl, some, none, Option, [], ◌∷◌}
use mquery.Base.Int.{ℤ, pos}
use mquery.Base.Sort.{stable_sorter}
use mquery.Base.Text.{String}
use mquery.Errors.{plain_error, input_error}
use mquery.Base.Word.{add64}
use mquery.Results.{FreqDistrib, merge_item, merge_items, merge_with, merge_all}
use mquery.Worker.FreqResult.{more_frequent}
use mquery.Worker.NormsCache.{new_norms_cache}
use mquery.Worker.Actions.{answered, freqs_error, freq_distrib_of}
use mquery.Handlers.Parallel.{empty_distrib}
use mquery.Handlers.Stream.{
  StreamUrl, StreamedFreqsBaseArgs, streamed_attr, tt_streamed_base, stream_chunk_args,
  ChunkOutcome, worker_failed, chunk_answer, error_message, snapshot, chunk_answers, merge_order,
  chunk_results, chunk_message, stream_calc,
}
use mquery.Handlers.Stream.Complete.{stream_calc_complete}
use mquery.Handlers.Stream.Limits.{no_limit-rejected}
use mquery.Tests.{nat_floats, item, distrib}
use mquery.Tests.Actions.{lib}

abbrev answer : FreqDistrib ℕ
answer = distrib 5 (item "dog" 2 100 20000 ∷ [])

abbrev later : FreqDistrib ℕ
later = distrib 4 (item "cat" 3 100 30000 ∷ item "dog" 4 100 40000 ∷ [])

abbrev failure : ℕ × ChunkOutcome ℕ
failure = (1, worker_failed (plain_error "no memory"))

-- The chunk 0 is merged first. Its message is copied at once, and encoded after all steps of the
-- merge of the chunk 2, whose message is copied and encoded then.
abbrev arrivals : List (ℕ × ChunkOutcome ℕ)
arrivals =
    failure
    ∷ (0, chunk_answer answer (record { merged = 0; copied = 0; encoded = 3 }))
    ∷ (2, chunk_answer later (record { merged = 1; copied = 0; encoded = 0 }))
    ∷ []

-- The message has the size of its own chunk, and the frequency of both.
stream_calc_shared :
    stream_calc nat_floats arrivals
    ≡ error_message nat_floats 3 1 (plain_error "no memory")
      ∷ snapshot nat_floats 3 0
          (record (merge_with nat_floats (empty_distrib nat_floats) answer) {
            freqs = item "dog" 6 100 0 ∷ [];
          })
          none
      ∷ snapshot nat_floats 3 2
          (record (merge_with nat_floats (empty_distrib nat_floats) answer) {
            conc_size = 9;
            freqs = item "dog" 6 100 0 ∷ item "cat" 3 100 30000 ∷ [];
          })
          none
      ∷ []
unfolding stream_calc merge_with add64 merge_items merge_item
stream_calc_shared = refl

stream_calc_complete_example :
    stream_calc nat_floats arrivals
    ≡ map
        (chunk_message nat_floats 3 (merge_order arrivals))
        (failure ∷ (0, chunk_answer answer (record { merged = 0; copied = 0; encoded = 3 })) ∷ [])
      ++ snapshot nat_floats 3 2
          (merge_all nat_floats (empty_distrib nat_floats) (chunk_results (merge_order arrivals)))
          none
        ∷ []
unfolding chunk_answers
stream_calc_complete_example =
    stream_calc_complete nat_floats
      (failure ∷ (0, chunk_answer answer (record { merged = 0; copied = 0; encoded = 3 })) ∷ []) []
      2 later (record { merged = 1; copied = 0; encoded = 0 }) (omega arith, (omega arith, tt))

abbrev url : StreamUrl
url = record {
  q = "[]";
  attr = "doc.genre";
  fcrit = "";
  event = "";
  flimit = none;
  max_items = none;
}

abbrev args : StreamedFreqsBaseArgs
args = record {
  q = "[]";
  attr = "doc.genre";
  fcrit = "";
  flimit = pos 1;
  max_items = pos 0;
  event = "";
}

abbrev one : String → Option ℤ
one s = some (pos 1)

no_limit-rejected_example :
    freq_distrib_of nat_floats lib
      (stable_sorter more_frequent)
      (stream_chunk_args args "/corp/a" "chunk_00.subc")
      new_norms_cache
    ≡ answered (freqs_error nat_floats lib (input_error "maxItems must be a positive number"))
unfolding streamed_attr tt_streamed_base
no_limit-rejected_example =
    no_limit-rejected nat_floats lib one 422 url args (stable_sorter more_frequent) new_norms_cache
      "/corp/a" "chunk_00.subc" refl refl
