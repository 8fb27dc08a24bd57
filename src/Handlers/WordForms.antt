-- ===== src/Handlers/WordForms.antt =====
-- corpus/handlers/wforms.go: WordForms and OtherForms. A word is looked up by its lemmas, and each lemma
-- by its forms; every lookup is one query for frequencies.
use Prim.Native.String.{◌++◌}
use mquery.Base.{ℕ, Bool, true, false, List, [], ◌∷◌, Option, none, some, if◌then◌else◌}
use mquery.Base.Int.{pos}
use mquery.Base.Text.{String, str_eq, contains, split}
use mquery.Rdb.Query.{FreqDistribArgs, freq_distrib_args}
use mquery.Results.{FreqDistribItem, FreqDistrib}
use mquery.Results.Types.{Payloads, err_of}
use mquery.Corpora.Lookup.{Found, corp, no_corp, nil_dereference}
use mquery.Handlers.Request.{Url, arg, query_of, Served, asking, failing, responding, panicking}
use mquery.Handlers.Exchange.{Actions, Asked, not_published, received, as_freqs}

abbrev pub max_word_form_result_items : ℕ
max_word_form_result_items = 50

pub record LemmaItem : Type 0 where
  pub lemma : String
  pub sublemma : String
  pub pos_tag : String

pub record WordFormsItem (F : Type 0) : Type 0 where
  pub lemma : String
  pub sublemma : String
  pub pos_tag : String
  pub forms : List (FreqDistribItem F)

abbrev pub condition : String → String → String
condition attr value = attr ++ "=\"" ++ value ++ "\""

-- A further condition, unless its value is empty.
abbrev pub and_condition : String → String → String
and_condition attr value = if str_eq value "" then "" else " & " ++ condition attr value

abbrev pub lemmas_crit : Bool → String
lemmas_crit export_sublemmas =
    if export_sublemmas then "lemma 0~0>0 pos 0~0>0 sublemma 0~0>0" else "lemma 0~0>0 pos 0~0>0"

-- The query of `findLemmas`; the inserted words are not escaped.
unfoldable pub lemmas_args : String → String → String → Bool → FreqDistribArgs
lemmas_args corpus_path word tag export_sublemmas = record {
  corpus_path = corpus_path;
  subc_path = "";
  query = "[" ++ condition "word" word ++ and_condition "pos" tag ++ "]";
  crit = lemmas_crit export_sublemmas;
  is_text_types = false;
  freq_limit = pos 1;
  max_items = pos 500;
}

-- The query of `findWordForms`.
unfoldable pub forms_args : String → LemmaItem → Bool → FreqDistribArgs
forms_args corpus_path item case_sensitive = record {
  corpus_path = corpus_path;
  subc_path = "";
  query =
      "["
      ++ condition "lemma" item.lemma
      ++ and_condition "pos" item.pos_tag
      ++ and_condition "sublemma" item.sublemma
      ++ "]";
  crit = if case_sensitive then "word 0~0>0" else "word/i 0~0>0";
  is_text_types = false;
  freq_limit = pos 1;
  max_items = pos max_word_form_result_items;
}

-- The parts of a value of the criterion. A lemma without a tag makes the access to the second panic.
unfoldable pub lemma_of : Bool → List String → Option LemmaItem
lemma_of export_sublemmas (l ∷ p ∷ []) = some (record { lemma = l; sublemma = ""; pos_tag = p })
lemma_of export_sublemmas (l ∷ p ∷ s ∷ rest) =
    some (record { lemma = l; sublemma = if export_sublemmas then s else ""; pos_tag = p })
lemma_of export_sublemmas _ = none

abbrev cons_lemma : Option LemmaItem → Option (List LemmaItem) → Option (List LemmaItem)
cons_lemma (some x) (some xs) = some (x ∷ xs)
cons_lemma _ _ = none

module _ {F : Type 0} where
  -- `none` is a panic.
  unfoldable pub lemmas_of : Bool → List (FreqDistribItem F) → Option (List LemmaItem)
  unfolding lemma_of
  lemmas_of export_sublemmas [] = some []
  lemmas_of export_sublemmas (v ∷ vs) =
      cons_lemma (lemma_of export_sublemmas (split v.word " ")) (lemmas_of export_sublemmas vs)

-- The first lemma of each sublemma. The groups of the source are a map, in any order; here they are
-- in the order of their first lemmas.
unfoldable pub first_of_groups : List String → List LemmaItem → List LemmaItem
first_of_groups seen [] = []
first_of_groups seen (x ∷ xs) =
    if contains seen x.sublemma
    then first_of_groups seen xs
    else x ∷ first_of_groups (x.sublemma ∷ seen) xs

-- What a lookup gives: a value, an error, or a panic.
pub data Looked (A : Type 0) : Type 0 where
  looked : A → Looked A
  look_failed : Looked A
  look_panicked : Looked A

module _ {ty : Payloads} (a : Actions ty) where
  -- `findLemmas`: the type is asserted before the error is read, so that nil is an error.
  abbrev pub lemmas_in : Bool → FreqDistrib ty.Float32 → Looked (List LemmaItem)
  lemmas_in export_sublemmas res = elim res.error [
    | some e ↦ look_failed
    | none ↦ elim (lemmas_of export_sublemmas res.freqs) [
      | none ↦ look_panicked
      | some lemmas ↦ looked lemmas
    ]
  ]

  abbrev pub found_lemmas : Bool → Asked ty → Looked (List LemmaItem)
  found_lemmas export_sublemmas not_published = look_failed
  found_lemmas export_sublemmas (received none user_error) = look_failed
  found_lemmas export_sublemmas (received (some v) user_error) = elim (as_freqs v) [
    | none ↦ look_failed
    | some res ↦ lemmas_in export_sublemmas res
  ]

  abbrev pub item_of : LemmaItem → FreqDistrib ty.Float32 → WordFormsItem ty.Float32
  item_of l res = record {
    lemma = l.lemma;
    sublemma = l.sublemma;
    pos_tag = l.pos_tag;
    forms = res.freqs;
  }

  -- `findWordForms`: the error is read first, of nil too.
  abbrev pub found_forms : LemmaItem → Asked ty → Looked (WordFormsItem ty.Float32)
  found_forms l not_published = look_failed
  found_forms l (received none user_error) = look_panicked
  found_forms l (received (some v) user_error) = elim (err_of v) [
    | some e ↦ look_failed
    | none ↦ elim (as_freqs v) [ none ↦ look_failed | some res ↦ looked (item_of l res) ]
  ]

  abbrev pub Forms : Type 0
  Forms = List (WordFormsItem ty.Float32)

  -- A lookup of forms, with what follows.
  abbrev pub with_forms :
      String → LemmaItem → (WordFormsItem ty.Float32 → Served Forms) → Served Forms
  with_forms corpus_id l next =
      let args = freq_distrib_args (forms_args (a.registry_path corpus_id) l true) in
      asking "freqDistrib" args (elim (found_forms l (a.ask "freqDistrib" args)) [
        | look_panicked ↦ panicking
        | look_failed ↦ failing 500
        | looked item ↦ next item
      ])

  -- The loop over the groups; a failed lookup ends it.
  unfoldable pub forms_of_all : String → List LemmaItem → (Forms → Served Forms) → Served Forms
  unfolding forms_args
  forms_of_all corpus_id [] next = next []
  forms_of_all corpus_id (l ∷ ls) next =
      with_forms corpus_id l λ item. forms_of_all corpus_id ls (λ items. next (item ∷ items))

  abbrev pub other_forms_in : String → String → Url → Found → Served Forms
  other_forms_in corpus_id word url nil_dereference = panicking
  other_forms_in corpus_id word url no_corp = failing 404
  other_forms_in corpus_id word url (corp conf) =
      let has_sublemma = contains conf.pos_attrs "sublemma" in
      let args =
        freq_distrib_args
          (lemmas_args (a.registry_path corpus_id) word (query_of "pos" url) has_sublemma) in
      asking "freqDistrib" args (elim (found_lemmas has_sublemma (a.ask "freqDistrib" args)) [
        | look_panicked ↦ panicking
        | look_failed ↦ failing 500
        | looked lemmas ↦
            forms_of_all corpus_id (first_of_groups [] lemmas) (λ items. responding items)
      ])

  unfoldable pub other_forms : Url → Served Forms
  unfolding forms_of_all lemmas_args first_of_groups
  other_forms url =
      let corpus_id = query_of "corpusId" url in
      other_forms_in corpus_id (query_of "wordForm" url) url (a.find_corp corpus_id)

  abbrev pub forms_response : WordFormsItem ty.Float32 → Served Forms
  forms_response item = elim item.forms [ [] ↦ failing 404 | _ ↦ responding (item ∷ []) ]

  -- A subcorpus is refused.
  unfoldable pub word_forms : Url → Served Forms
  unfolding forms_args
  word_forms url =
      let lemma = query_of "lemma" url in
      let item : LemmaItem = record {
        lemma = lemma;
        sublemma = query_of "sublemma" url;
        pos_tag = query_of "pos" url;
      } in
      elim (arg "subcorpus" url) [
        | some s ↦ failing 400
        | none ↦
            if str_eq lemma ""
            then failing 400
            else with_forms (query_of "corpusId" url) item forms_response
      ]
