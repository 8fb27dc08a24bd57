-- ===== src/Mango/Concordance.antt =====
-- mango/mango.go: `GetConcordance` and `GetConcordanceWithCollPhrase` around the calls of C.
use Prim.Native.String.{◌++◌}
use mquery.Base.{ℕ, Bool, List, [], ◌∷◌, Option, none, some, if◌then◌else◌, ◌==◌}
use mquery.Base.Int.{ℤ, pos, ltb_ℤ}
use mquery.Base.Text.{String, str_eq, contains}
use mquery.Errors.{GoError, plain_error}

pub record GoConcordance : Type 0 where
  pub lines : List String
  pub aligned_lines : List String
  pub conc_size : ℕ
  pub corpus_size : ℕ

abbrev pub no_concordance : GoConcordance
no_concordance = record { lines = []; aligned_lines = []; conc_size = 0; corpus_size = 0 }

pub record ConcRequest : Type 0 where
  pub corpus_path : String
  pub subc_path : String
  pub query : String
  pub attrs : List String
  pub structs : List String
  pub refs : List String
  pub from_line : ℤ
  pub max_items : ℤ
  pub max_context : ℤ
  pub shuffle : Bool
  pub view_context_struct : String

-- What the C functions return; `aligned` is none where the pointer is nil. The number of the texts in
-- both lists is `size`.
pub record ConcExamples : Type 0 where
  pub value : List String
  pub aligned : Option (List String)
  pub conc_size : ℕ
  pub corpus_size : ℕ
  pub err : Option String
  pub error_code : ℕ

-- A Go call with two results; ErrRowsRangeOutOfConc is told apart from other errors.
pub data ConcOutcome : Type 0 where
  found : GoConcordance → ConcOutcome
  rows_out_of_conc : GoConcordance → ConcOutcome
  conc_failed : GoConcordance → GoError → ConcOutcome
  conc_panicked : String → ConcOutcome

-- The reference to the token number is always asked for.
abbrev pub with_token_ref : List String → List String
with_token_ref refs = if contains refs "#" then refs else "#" ∷ refs

-- The loops over the C arrays, which leave out empty texts.
unfoldable pub non_empty : List String → List String
non_empty [] = []
non_empty (s ∷ ss) = let rest = non_empty ss in if str_eq s "" then rest else s ∷ rest

abbrev aligned_of : Option (List String) → List String
aligned_of none = []
aligned_of (some ss) = non_empty ss

-- What follows a call of C, for the corpus size that the caller sets.
unfoldable pub import_examples : ℕ → ConcExamples → ConcOutcome
unfolding non_empty
import_examples corpus_size ans =
    let sizes = record no_concordance { conc_size = ans.conc_size; corpus_size = corpus_size } in
    elim ans.err [
      | some e ↦
          if ans.error_code == 1 then rows_out_of_conc sizes else conc_failed sizes (plain_error e)
      | none ↦
          found
            (record sizes { lines = non_empty ans.value; aligned_lines = aligned_of ans.aligned })
    ]

unfoldable pub get_concordance : (ConcRequest → ConcExamples) → ConcRequest → ConcOutcome
unfolding import_examples
get_concordance conc_examples req =
    if ltb_ℤ req.from_line (pos 0)
    then conc_panicked "GetConcordance - invalid fromLine value"
    else if ltb_ℤ req.max_items (pos 0)
    then conc_panicked "GetConcordance - invalid maxItems value"
    else if ltb_ℤ req.max_context (pos 0)
    then conc_panicked "GetConcordance - invalid maxContext value"
    else (let ans = conc_examples (record req { refs = with_token_ref req.refs }) in
        import_examples ans.corpus_size ans)

-- The corpus size is not set, and only `make` looks at the sign of `max_items`.
unfoldable pub get_concordance_with_coll_phrase :
    (ConcRequest → String → ℤ → ℤ → ConcExamples) → ConcRequest → String → ℤ → ℤ → ConcOutcome
unfolding import_examples
get_concordance_with_coll_phrase conc_examples req coll_query lft_ctx rgt_ctx =
    if ltb_ℤ req.max_items (pos 0)
    then conc_panicked "makeslice: cap out of range"
    else import_examples 0 (
        conc_examples (record req { refs = with_token_ref req.refs }) (coll_query ++ ";") lft_ctx
          rgt_ctx)
