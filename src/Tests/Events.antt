-- ===== src/Tests/Events.antt =====
-- The events of a stream of two chunks, of which one fails.
use mquery.Base.{ℕ, ◌≡◌, refl, List, [], ◌∷◌, Option, none, some}
use mquery.Base.Int.{ℤ, pos}
use mquery.Base.Text.{String}
use mquery.Errors.{Result, ok, plain_error}
use mquery.Handlers.YearRange.{StreamData}
use mquery.Handlers.Stream.{
  StreamedFreqsBaseArgs, ChunkOutcome, Moments, worker_failed, chunk_answer, stream_calc,
}
use mquery.Handlers.Request.{Url, Served, arg, body}
use mquery.Handlers.StreamActions.{text_types_streamed}
use mquery.Tests.{nat_floats, item, distrib}

abbrev at_once : Moments
at_once = record { merged = 0; copied = 0; encoded = 0 }

abbrev arrivals : List (ℕ × ChunkOutcome ℕ)
arrivals =
    (1, worker_failed (plain_error "no memory"))
    ∷ (0, chunk_answer (distrib 5 (item "dog" 2 100 20000 ∷ [])) at_once)
    ∷ []

abbrev outcomes : StreamedFreqsBaseArgs → Result (List (ℕ × ChunkOutcome ℕ))
outcomes args = ok arrivals

abbrev atoi : String → Option ℤ
atoi s = none

abbrev json_of : StreamData ℕ → String
json_of m = elim m.error [ none ↦ "{}" | some e ↦ "{\"error\": {}}" ]

abbrev url : Url
url = ("q", "[]") ∷ ("attr", "doc.genre") ∷ ("event", "freqs") ∷ []

abbrev args : StreamedFreqsBaseArgs
args = record {
  q = "[]";
  attr = "doc.genre";
  fcrit = "";
  flimit = pos 1;
  max_items = pos 0;
  event = "freqs";
}

abbrev response : Served String
response = text_types_streamed nat_floats atoi 422 outcomes (λ m. ok (json_of m)) (λ s. none) url

text_types_streamed_example :
    response.writes
    ≡ body "event: freqs\ndata: {\"error\": {}}\n\n" ∷ body "event: freqs\ndata: {}\n\n" ∷ []
unfolding text_types_streamed arg stream_calc
text_types_streamed_example = refl
