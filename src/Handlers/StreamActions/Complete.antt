-- ===== src/Handlers/StreamActions/Complete.antt =====
-- How many events a stream has.
use mquery.Base.{ℕ, ◌≡◌, List, Option}
use mquery.Base.Int.{ℤ}
use mquery.Base.Float.{Floats}
use mquery.Base.Text.{String}
use mquery.Errors.{Result, ok}
use mquery.Handlers.YearRange.{StreamData}
use mquery.Handlers.Stream.{StreamedFreqsBaseArgs, ChunkOutcome}
use mquery.Handlers.Request.{Url, Served, Write, body}
use mquery.Handlers.StreamActions.{event_text, write_messages, text_types_streamed}

module _ (f32 : Floats) (atoi : String → Option ℤ) (bad_int : ℕ)
    (chunk_outcomes : StreamedFreqsBaseArgs → Result (List (ℕ × ChunkOutcome f32.Float)))
    (marshal : StreamData f32.Float → Result String) (error_json : String → Option String) where
  abbrev written : String → List (StreamData f32.Float) → Served String
  written = write_messages f32 atoi bad_int chunk_outcomes marshal error_json

  abbrev stream : Url → Served String
  stream = text_types_streamed f32 atoi bad_int chunk_outcomes marshal error_json

  module _ (json_of : StreamData f32.Float → String)
      (encodes : (m : StreamData f32.Float) → marshal m ≡ ok (json_of m)) where
    -- The event of a message.
    abbrev pub event_of : String → StreamData f32.Float → Write String
    event_of event m = body (event_text event (json_of m))
