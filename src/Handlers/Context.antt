-- ===== src/Handlers/Context.antt =====
-- corpus/handlers/context.go: TokenContext, a window around a token.
use mquery.Base.{ℕ, suc, ◌-◌, Bool, true, false, List, [], ◌∷◌, none, some, if◌then◌else◌}
use mquery.Base.Int.{ℤ, pos, negsuc}
use mquery.Base.Text.{String, str_eq, contains, split}
use mquery.Base.Word.{word_mod}
use mquery.Rdb.Query.{TokenContextArgs, token_context_args}
use mquery.Results.Types.{Payloads, TokenContext}
use mquery.Corpora.Setup.{MqCorpusSetup}
use mquery.Corpora.Lookup.{Found, corp, no_corp, nil_dereference}
use mquery.Handlers.Request.{Url, arg, query_of, Served, failing, responding, panicking, with_int}
use mquery.Handlers.Exchange.{Actions, typed_or_respond_error, exchange, as_token_context}

-- int64(n), as a bit pattern.
abbrev pub to_word : ℤ → ℕ
to_word (pos n) = n
to_word (negsuc n) = word_mod - suc n

-- All values of a name.
unfoldable pub values_of : String → Url → List String
values_of name [] = []
values_of name ((k, v) ∷ rest) =
    let later = values_of name rest in if str_eq k name then v ∷ later else later

unfoldable pub all_known : List String → List String → Bool
all_known known [] = true
all_known known (x ∷ xs) = if contains known x then all_known known xs else false

abbrev pub first_part : List String → String
first_part [] = ""
first_part (p ∷ ps) = p

-- strings.Split(strct, ".")[0] of each.
abbrev pub raw_structs : List String → List String
raw_structs [] = []
raw_structs (s ∷ ss) = first_part (split s ".") ∷ raw_structs ss

abbrev pub attrs_or_default : List String → List String
attrs_or_default [] = "word" ∷ "lemma" ∷ []
attrs_or_default attrs = attrs

-- `left_and_right` is the method of MaximumTokenContextWindow.
module _ {ty : Payloads} (a : Actions ty) (left_and_right : ℤ → ℤ × ℤ) where
  unfoldable pub context_args : Url → ℤ → ℤ → ℤ → ℤ → TokenContextArgs
  unfolding values_of
  context_args url idx left right kwic_len = record {
    corpus_path = a.registry_path (query_of "corpusId" url);
    idx = to_word idx;
    kwic_len = to_word kwic_len;
    left_ctx = to_word left;
    right_ctx = to_word right;
    structs = values_of "struct" url;
    attrs = attrs_or_default (values_of "attr" url);
  }

  abbrev pub checked_context :
      Url → MqCorpusSetup → TokenContextArgs → Served (TokenContext ty.Line)
  checked_context url conf args =
      if all_known conf.pos_attrs (values_of "attr" url)
      then (if all_known conf.known_structures (raw_structs (values_of "struct" url))
          then exchange a.ask "tokenContext" (token_context_args args)
              (typed_or_respond_error as_token_context (λ res. responding res))
          else failing 400)
      else failing 400

  abbrev pub context_for : Url → ℤ → Found → Served (TokenContext ty.Line)
  context_for url idx nil_dereference = panicking
  context_for url idx no_corp = failing 404
  context_for url idx (corp conf) =
      let (max_left, max_right) = left_and_right conf.maximum_token_context_window in
      with_int a.atoi a.bad_int "leftCtx" max_left url λ left.
        with_int a.atoi a.bad_int "rightCtx" max_right url λ right.
          with_int a.atoi a.bad_int "kwicLen" (pos 1) url
            λ kwic_len. checked_context url conf (context_args url idx left right kwic_len)

  -- The index is required.
  unfoldable pub token_context_action : Url → Served (TokenContext ty.Line)
  unfolding all_known context_args values_of
  token_context_action url = elim (arg "idx" url) [
    | none ↦ failing a.bad_int
    | some s ↦ elim (a.atoi s) [
      | none ↦ failing a.bad_int
      | some idx ↦ context_for url idx (a.find_corp (query_of "corpusId" url))
    ]
  ]
