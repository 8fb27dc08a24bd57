-- ===== src/Worker/Lines.antt =====
-- worker/actions.go: the actions whose answers are lines of a concordance.
pub mod Rows
use Prim.Native.String.{◌++◌}
use mquery.Base.{ℕ, List, [], ◌∷◌, Option, none, some, if◌then◌else◌}
use mquery.Base.Word.{add64, sub64, slt64}
use mquery.Base.Int.{ℤ, pos}
use mquery.Base.Text.{String, str_eq}
use mquery.Errors.{GoError, input_error, internal_error, message, Result, ok, err}
use mquery.Mango.Concordance.{
  GoConcordance, ConcRequest, ConcOutcome, found, rows_out_of_conc, conc_failed, conc_panicked,
  get_concordance, get_concordance_with_coll_phrase,
}
use mquery.Rdb.Query.{ConcordanceArgs, as_description, TokenContextArgs}
use mquery.Results.Types.{Concordance, TokenContext}
use mquery.Worker.Actions.{Manatee, Acted, answered, action_panicked}

-- max(a, b), of signed numbers.
abbrev pub max64 : ℕ → ℕ → ℕ
max64 a b = if slt64 a b then b else a

abbrev pub request : ConcordanceArgs → ConcRequest
request args = record {
  corpus_path = args.corpus_path;
  subc_path = args.subc_path;
  query = args.query;
  attrs = args.attrs;
  structs = args.show_structs;
  refs = args.show_refs;
  from_line = args.rows_offset;
  max_items = args.max_items;
  max_context = args.max_context;
  shuffle = args.shuffle;
  view_context_struct = args.view_context_struct;
}

module _ {Line Overview F : Type 0} (lib : Manatee Line Overview F) where
  -- The loop over the parsed lines, in which an index past the aligned texts panics.
  unfoldable pub align : List Line → List String → (String → Line → Line) → Option (List Line)
  align [] texts parse_aligned = some []
  align (l ∷ ls) [] parse_aligned = none
  align (l ∷ ls) (t ∷ ts) parse_aligned = elim (align ls ts parse_aligned) [
    | none ↦ none
    | some rest ↦ some (parse_aligned t l ∷ rest)
  ]

  unfoldable pub align_all : List Line → List String → (String → Line → Line) → Option (List Line)
  unfolding align
  align_all ls [] parse_aligned = some ls
  align_all ls (t ∷ ts) parse_aligned = align ls (t ∷ ts) parse_aligned

  abbrev pub no_rows : GoError → Concordance Line
  no_rows e = record { lines = []; conc_size = 0; corpus_size = 0; error = some e }

  -- What is made of the lines of Manatee; `e` is the error for rows that are out of range.
  unfoldable pub parsed_rows :
      ConcordanceArgs → Option GoError → GoConcordance → Acted (Concordance Line)
  unfolding align_all
  parsed_rows args e conc =
      elim (align_all (lib.parse args.attrs conc.lines) conc.aligned_lines
        (lib.parse_aligned_line args.attrs)) [
          | none ↦ action_panicked "runtime error: index out of range"
          | some ls ↦ answered (record {
            lines = ls;
            conc_size = conc.conc_size;
            corpus_size = conc.corpus_size;
            error = e;
          })
        ]

  unfoldable pub rows_of : ConcordanceArgs → ConcOutcome → Acted (Concordance Line)
  unfolding parsed_rows
  rows_of args (found conc) = parsed_rows args none conc
  rows_of args (rows_out_of_conc conc) =
      parsed_rows args (some (input_error "invalid rows range")) conc
  rows_of args (conc_failed conc e) =
      answered (no_rows (internal_error ("query " ++ as_description args ++ ": " ++ message e)))
  rows_of args (conc_panicked m) = action_panicked m

  unfoldable pub fetch_rows : ConcordanceArgs → ConcOutcome
  fetch_rows args =
      if str_eq args.coll_query ""
      then get_concordance lib.conc_examples (request args)
      else get_concordance_with_coll_phrase lib.coll_phrase_examples (request args) args.coll_query
          args.coll_lft_ctx args.coll_rgt_ctx

  unfoldable pub concordance_of : ConcordanceArgs → Acted (Concordance Line)
  unfolding rows_of fetch_rows
  concordance_of args = elim args.attrs [
    | [] ↦ answered (no_rows (input_error "No positional attributes selected for the concordance"))
    | _ ↦ rows_of args (fetch_rows args)
  ]

  abbrev context_error : Line → GoError → Acted (TokenContext Line)
  context_error l e = answered (record { context = l; error = some e })

  abbrev first_line : Line → List Line → Line
  first_line l [] = l
  first_line l (x ∷ xs) = x

  abbrev joined : Line → List Line → Line
  joined l [] = l
  joined l (x ∷ xs) = lib.append_text l x

  -- The three regions: before the position, the token itself, and after it. The first is empty of
  -- text where the parser gives no line; the second panics there.
  unfoldable pub token_context_of : TokenContextArgs → Acted (TokenContext Line)
  token_context_of args =
      let region = λ (a b : ℕ). lib.get_corp_region args.corpus_path a b args.structs args.attrs in
      let parsed = λ (t : String). lib.parse args.attrs (t ∷ []) in
      let kwic_end = add64 args.idx args.kwic_len in
      elim (region (max64 0 (sub64 args.idx args.left_ctx)) (max64 0 args.idx)) [
        | err e ↦ context_error lib.no_line e
        | ok left ↦
            let l1 = first_line lib.no_line (parsed left) in
            elim (region args.idx kwic_end) [
              | err e ↦ context_error l1 e
              | ok kwic ↦ elim (parsed kwic) [
                | [] ↦ action_panicked "runtime error: index out of range [0] with length 0"
                | k ∷ ks ↦
                    let l2 = lib.append_text l1 (lib.strong k) in
                    elim (region (add64 kwic_end 1)
                      (add64 (add64 args.idx args.right_ctx) args.kwic_len)) [
                        | err e ↦ context_error l2 e
                        | ok right ↦ answered (record {
                          context = lib.with_ref args.idx (joined l2 (parsed right));
                          error = none;
                        })
                      ]
              ]
            ]
      ]
