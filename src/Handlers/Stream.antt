-- ===== src/Handlers/Stream.antt =====
-- corpus/handlers/ttchunked.go: the streams of growing frequencies. The channel of messages is the
-- list of what is sent. The goroutines merge under a lock, but `*result` is copied after its unlock and
-- shares its items with later merges, so that a message depends on how far the merges have come when
-- it is copied and when it is encoded. A copy and an encoding are taken to be one step each.
pub mod Complete
pub mod Limits
use Prim.Native.String.{◌++◌}
use mquery.Base.{
  ℕ, suc, ◌+◌, true, List, [], ◌∷◌, Option, none, some, if◌then◌else◌, length, not, ◌&&◌, Bool, map,
  take, leb, ltb,
}
use mquery.Base.Int.{ℤ, pos}
use mquery.Base.Sort.{slice_stable}
use mquery.Base.Float.{Floats}
use mquery.Base.Text.{String, str_eq, split}
use mquery.Errors.{GoError, plain_error}
use mquery.Results.{FreqDistrib}
use mquery.Results.Steps.{merge_steps, all_steps, run_steps}
use mquery.Rdb.Query.{FreqDistribArgs}
use mquery.Handlers.YearRange.{StreamData}
use mquery.Handlers.Parallel.{empty_distrib, int_arg}

pub record StreamedFreqsBaseArgs : Type 0 where
  pub q : String
  pub attr : String
  pub fcrit : String
  pub flimit : ℤ
  pub max_items : ℤ
  pub event : String

-- The arguments of the URL. A text that is missing is empty.
pub record StreamUrl : Type 0 where
  pub q : String
  pub attr : String
  pub fcrit : String
  pub event : String
  pub flimit : Option String
  pub max_items : Option String

-- The arguments, or the status of the error response.
pub data BaseArgs : Type 0 where
  base_args : StreamedFreqsBaseArgs → BaseArgs
  rejected : ℕ → BaseArgs

-- The attribute of `fcrit`, or that of `attr` if it is empty.
unfoldable pub streamed_attr : StreamUrl → Option String
streamed_attr url = if str_eq url.fcrit "" then some url.attr else elim (split url.fcrit " ") [
  | attr ∷ position ∷ [] ↦ if str_eq position "0" then some attr else none
  | _ ↦ none
]

-- The status for an integer argument that does not parse is that of `unireq.GetURLIntArgOrFail`.
unfoldable pub tt_streamed_base : (String → Option ℤ) → ℕ → StreamUrl → BaseArgs
unfolding streamed_attr
tt_streamed_base atoi bad_int url =
    if not (str_eq url.attr "") && not (str_eq url.fcrit "")
    then rejected 400
    else elim (streamed_attr url) [
      | none ↦ rejected 422
      | some attr ↦ elim (int_arg atoi (pos 1) url.flimit) [
        | none ↦ rejected bad_int
        | some flimit ↦ elim (int_arg atoi (pos 0) url.max_items) [
          | none ↦ rejected bad_int
          | some max_items ↦ base_args (record {
            q = url.q;
            attr = attr;
            fcrit = url.fcrit;
            flimit = flimit;
            max_items = max_items;
            event = url.event;
          })
        ]
      ]
    ]

-- The query of a chunk.
unfoldable pub stream_chunk_args : StreamedFreqsBaseArgs → String → String → FreqDistribArgs
stream_chunk_args args corpus_path subc = record {
  corpus_path = corpus_path;
  subc_path = subc;
  query = args.q;
  crit = args.attr ++ " 0";
  is_text_types = true;
  freq_limit = args.flimit;
  max_items = args.max_items;
}

-- When a goroutine with an answer does what it does: the place of its merge among all merges, and how
-- many more single steps of merges others have done when it copies the result, and from there until
-- the copy is encoded.
pub record Moments : Type 0 where
  pub merged : ℕ
  pub copied : ℕ
  pub encoded : ℕ

-- What becomes of the query of a chunk.
pub data ChunkOutcome (F : Type 0) : Type 0 where
  not_published : GoError → ChunkOutcome F
  worker_failed : GoError → ChunkOutcome F
  other_type : ChunkOutcome F
  chunk_answer : FreqDistrib F → Moments → ChunkOutcome F

module _ {F : Type 0} where
  -- The results among the outcomes, with the places of their merges.
  unfoldable pub chunk_answers : List (ℕ × ChunkOutcome F) → List (ℕ × FreqDistrib F)
  chunk_answers [] = []
  chunk_answers ((i, not_published e) ∷ rest) = chunk_answers rest
  chunk_answers ((i, worker_failed e) ∷ rest) = chunk_answers rest
  chunk_answers ((i, other_type) ∷ rest) = chunk_answers rest
  chunk_answers ((i, chunk_answer next m) ∷ rest) = (m.merged, next) ∷ chunk_answers rest

  abbrev pub merged_before : ℕ × FreqDistrib F → ℕ × FreqDistrib F → Bool
  merged_before a b = ltb a.0 b.0

  -- The results in the order of their merges.
  abbrev pub merge_order : List (ℕ × ChunkOutcome F) → List (ℕ × FreqDistrib F)
  merge_order arrivals = slice_stable merged_before (chunk_answers arrivals)

  abbrev pub chunk_results : List (ℕ × FreqDistrib F) → List (FreqDistrib F)
  chunk_results merges = map (λ a. a.1) merges

  -- How many single steps have been done when the merge at a place has ended.
  unfoldable pub steps_until : ℕ → List (ℕ × FreqDistrib F) → ℕ
  steps_until place [] = 0
  steps_until place ((k, next) ∷ rest) =
      let others = steps_until place rest in
      if leb k place then length (merge_steps next) + others else others

module _ (f32 : Floats) where
  open f32 use {Float}

  abbrev pub error_message : ℕ → ℕ → GoError → StreamData Float
  error_message total ch_idx e = record {
    entries = empty_distrib f32;
    chunk_num = ch_idx + 1;
    chunks_total = total;
    error = some e;
  }

  abbrev pub snapshot : ℕ → ℕ → FreqDistrib Float → Option GoError → StreamData Float
  snapshot total ch_idx result e = record {
    entries = result;
    chunk_num = ch_idx + 1;
    chunks_total = total;
    error = e;
  }

  -- The shared result after so many single steps.
  abbrev pub result_at : List (ℕ × FreqDistrib Float) → ℕ → FreqDistrib Float
  result_at merges n = run_steps f32 (empty_distrib f32) (take n (all_steps (chunk_results merges)))

  -- A copy of the result as it is encoded: its sizes and the number of its items are those of the
  -- moment of the copy, the items themselves are shared.
  abbrev pub with_items_of : FreqDistrib Float → FreqDistrib Float → FreqDistrib Float
  with_items_of copied encoded = record copied { freqs = take (length copied.freqs) encoded.freqs }

  unfoldable pub shared_copy : List (ℕ × FreqDistrib Float) → Moments → FreqDistrib Float
  unfolding steps_until run_steps
  shared_copy merges m =
      let copied = steps_until m.merged merges + m.copied in
      with_items_of (result_at merges copied) (result_at merges (copied + m.encoded))

  -- The message of a chunk.
  unfoldable pub chunk_message :
      ℕ → List (ℕ × FreqDistrib Float) → ℕ × ChunkOutcome Float → StreamData Float
  unfolding shared_copy
  chunk_message total merges (i, not_published e) = error_message total i e
  chunk_message total merges (i, worker_failed e) = error_message total i e
  chunk_message total merges (i, other_type) =
      error_message total i (plain_error "invalid type for FreqDistrib")
  chunk_message total merges (i, chunk_answer next m) =
      snapshot total i (shared_copy merges m) next.error

  -- `arrivals` are the outcomes in the order of their messages in the channel.
  unfoldable pub stream_calc : List (ℕ × ChunkOutcome Float) → List (StreamData Float)
  unfolding chunk_message chunk_answers slice_stable
  stream_calc arrivals = map (chunk_message (length arrivals) (merge_order arrivals)) arrivals
