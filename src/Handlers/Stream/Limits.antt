-- ===== src/Handlers/Stream/Limits.antt =====
-- The limit of items of a streamed request.
use mquery.Base.{ℕ, ◌≡◌, refl, false, none, Option, arith}
use mquery.Base.Int.{ℤ, pos, ltb_ℤ}
use mquery.Base.Float.{Floats}
use mquery.Base.Sort.{Sorter}
use mquery.Base.Text.{String}
use mquery.Errors.{input_error}
use mquery.Worker.FreqResult.{more_frequent}
use mquery.Worker.NormsCache.{NormsCache}
use mquery.Worker.Actions.{Manatee, answered, freqs_error, freq_distrib_of}
use mquery.Handlers.Stream.{
  StreamUrl, StreamedFreqsBaseArgs, base_args, tt_streamed_base, stream_chunk_args,
}

no_limit :
    (atoi : String → Option ℤ) (bad_int : ℕ) (url : StreamUrl) (args : StreamedFreqsBaseArgs)
    → url.max_items ≡ none
    → tt_streamed_base atoi bad_int url ≡ base_args args
    → args.max_items ≡ pos 0
unfolding tt_streamed_base
no_limit atoi bad_int url args h e = ground (arith, h, e)

module _ (f32 : Floats) {Line Overview F : Type 0} (lib : Manatee Line Overview F) where
  -- A streamed request without `maxItems` is accepted with the limit 0, and every worker then answers
  -- the query of every chunk of it with an error.
  pub no_limit-rejected :
      (atoi : String → Option ℤ) (bad_int : ℕ) (url : StreamUrl) (args : StreamedFreqsBaseArgs)
      (sort : Sorter (more_frequent {F = f32.Float})) (nc : NormsCache) (corpus_path subc : String)
      → url.max_items ≡ none
      → tt_streamed_base atoi bad_int url ≡ base_args args
      → freq_distrib_of f32 lib sort (stream_chunk_args args corpus_path subc) nc
        ≡ answered (freqs_error f32 lib (input_error "maxItems must be a positive number"))
  unfolding freq_distrib_of stream_chunk_args
  no_limit-rejected atoi bad_int url args sort nc corpus_path subc h e =
      let zero_items = no_limit atoi bad_int url args h e in
      let none_allowed : ltb_ℤ (pos 0) args.max_items ≡ false = rw zero_items refl in
      rw (none_allowed, freq_distrib_of, stream_chunk_args) refl
