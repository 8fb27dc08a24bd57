-- ===== src/Edit/Split.antt =====
-- `SplitCorpus`: sizes are below 2 ^ 45, where `math.Ceil` of the float64 quotient is the integer
-- quotient rounded up.
pub mod Cover
use mquery.Base.{
  ℕ, zero, suc, ◌+◌, ◌-◌, ◌*◌, ◌/◌, ◌%◌, ◌<◌, ◌≤◌, ◌≡◌, refl, List, [], ◌∷◌, ◌++◌, Option, none,
  some, arith, if◌then◌else◌, ltb, ◌==◌, min, inl, inr, Option-cases,
}
use mquery.Base.Int.{ℤ, pos, negsuc}
use mquery.Base.Text.{String}
use mquery.Errors.{GoError, plain_error}
use mquery.Edit.Bytes.{subcorpus_bytes}

abbrev pub max_reasonable_num_chunks : ℕ
max_reasonable_num_chunks = 200

abbrev neg : ℕ → ℤ
neg zero = pos 0
neg (suc n) = negsuc n

-- int(math.Ceil(float64(size) / float64(chunkSize))); `nonfinite` is what the platform makes of an
-- infinite quotient or of 0 / 0.
unfoldable pub num_chunks : ℤ → ℕ → ℤ → ℤ
num_chunks nonfinite size (pos c) = if c == 0 then nonfinite else pos ((size + c - 1) / c)
num_chunks nonfinite size (negsuc c) = neg (size / suc c)

-- A file that was written.
pub record Chunk : Type 0 where
  pub path : String
  pub from_idx : ℕ
  pub to_idx : ℕ
  pub content : List ℕ

pub data SplitResult : Type 0 where
  split : List Chunk → SplitResult
  failed : List Chunk → GoError → SplitResult
  panicked : SplitResult

module _ (path_of : ℕ → String) (write : String → List ℕ → Option GoError) where
  abbrev pub chunk_at : ℕ → ℕ → ℕ → Chunk
  chunk_at size c i = record {
    path = path_of i;
    from_idx = i * c;
    to_idx = min ((i + 1) * c) size;
    content = subcorpus_bytes (i * c) (min ((i + 1) * c) size);
  }

  -- The loop, for the rounds left and the index.
  unfoldable pub write_chunks : ℕ → ℕ → ℕ → ℕ → List Chunk → SplitResult
  write_chunks zero i size c done = split done
  write_chunks (suc n) i size c done =
      let chunk = chunk_at size c i in
      elim (write chunk.path chunk.content) [
        | some e ↦ failed done e
        | none ↦ write_chunks n (i + 1) size c (done ++ chunk ∷ [])
      ]

  -- The numbers in the message of the limit are left out. `dir_error` is the error of `fs.IsDir`.
  unfoldable pub split_corpus : ℤ → Option GoError → ℕ → ℤ → SplitResult
  unfolding num_chunks write_chunks
  split_corpus nonfinite dir_error size chunk_size = elim (num_chunks nonfinite size chunk_size) [
    | negsuc m ↦ panicked
    | pos n ↦
        if ltb max_reasonable_num_chunks n
        then failed [] (plain_error "failed create split corpus: too much chunks")
        else elim dir_error [
          | some e ↦ failed [] e
          | none ↦ elim chunk_size [
            | pos c ↦ write_chunks n 0 size c []
            | negsuc c ↦ write_chunks n 0 size 0 []
          ]
        ]
  ]
