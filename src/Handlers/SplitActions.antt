-- ===== src/Handlers/SplitActions.antt =====
-- corpus/handlers/edit.go: DeleteSplit and SplitCorpus.
use mquery.Base.{Bool, true, false, List, [], ◌∷◌, Option, none, some, if◌then◌else◌}
use mquery.Base.Int.{ℤ}
use mquery.Base.Text.{String}
use mquery.Errors.{GoError, Result, ok, err}
use mquery.Edit.Split.{Chunk, SplitResult, split, failed, panicked}
use mquery.Edit.Files.{split_corpus_exists, delete_split}
use mquery.Rdb.Query.{CalcCollFreqDataArgs, calc_coll_freq_data_args}
use mquery.Results.Types.{Payloads, err_of}
use mquery.Handlers.Request.{
  Url, query_of, Served, asking, failing, responding, panicking, with_int,
}
use mquery.Handlers.Context.{values_of}
use mquery.Handlers.Exchange.{Actions, Asked, not_published, received, as_coll_freq_data}

-- The responses: `{"ok": true}`, or the paths of the chunks.
pub data EditResponse : Type 0 where
  removed : EditResponse
  created : List String → EditResponse

abbrev pub delete_response : Option GoError × List String → Served EditResponse
delete_response (none, left) = responding removed
delete_response (some e, left) = failing 500

-- `entries` are the files of the split.
unfoldable pub delete_split_action :
    (String → Option GoError) → Result Bool → Result (List String) → Served EditResponse
unfolding split_corpus_exists delete_split
delete_split_action remove is_dir entries = elim (split_corpus_exists is_dir entries) [
  | err e ↦ failing 409
  | ok false ↦ failing 404
  | ok true ↦ delete_response (delete_split remove entries)
]

abbrev pub paths : List Chunk → List String
paths [] = []
paths (c ∷ cs) = c.path ∷ paths cs

module _ {ty : Payloads} (a : Actions ty) (mktokencov_path : String) where
  abbrev pub precalc_args : Url → String → CalcCollFreqDataArgs
  precalc_args url subc = record {
    corpus_path = a.registry_path (query_of "corpusId" url);
    subc_path = subc;
    attrs = values_of "precalcAttr" url;
    structs = values_of "precalcStruct" url;
    mktokencov_path = mktokencov_path;
  }

  -- What the goroutine of a chunk finds: whether it fails; `none` is a panic for a nil value.
  abbrev pub chunk_fails : Asked ty → Option Bool
  chunk_fails not_published = some true
  chunk_fails (received none user_error) = none
  chunk_fails (received (some v) user_error) = elim (err_of v) [
    | some e ↦ some true
    | none ↦ elim (as_coll_freq_data v) [ none ↦ some true | some res ↦ some false ]
  ]

  abbrev pub is_published : Asked ty → Bool
  is_published not_published = false
  is_published (received v user_error) = true

  -- The loop over the chunks: a query that cannot be published ends the action at once, while the
  -- goroutines of the earlier chunks go on. `any_failed` is what those have found.
  unfoldable pub precalc : Url → List String → List String → Bool → Served EditResponse
  precalc url all [] any_failed = if any_failed then failing 500 else responding (created all)
  precalc url all (p ∷ ps) any_failed =
      let args = calc_coll_freq_data_args (precalc_args url p) in
      let answer = a.ask "calcCollFreqData" args in
      asking "calcCollFreqData" args (
        if is_published answer
        then elim (chunk_fails answer) [
          | none ↦ panicking
          | some true ↦ precalc url all ps true
          | some false ↦ precalc url all ps any_failed
        ]
        else failing 500)

  abbrev pub split_response : Url → SplitResult → Served EditResponse
  split_response url (failed done e) = failing 409
  split_response url panicked = panicking
  split_response url (split chunks) = precalc url (paths chunks) (paths chunks) false

  -- `split_by` is SplitCorpus of corpus/edit with a size of the chunks, `chunk_size` the configured one.
  unfoldable pub split_corpus_action :
      (ℤ → SplitResult) → ℤ → Result Bool → Result (List String) → Url → Served EditResponse
  unfolding precalc split_corpus_exists values_of
  split_corpus_action split_by chunk_size is_dir entries url =
      elim (split_corpus_exists is_dir entries) [
        | err e ↦ failing 409
        | ok true ↦ failing 409
        | ok false ↦
            with_int a.atoi a.bad_int "chunkSize" chunk_size url
              λ size. split_response url (split_by size)
      ]
