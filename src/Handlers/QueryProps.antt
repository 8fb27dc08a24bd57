-- ===== src/Handlers/QueryProps.antt =====
-- corpus/handlers/common.go: DetermineQueryProps and DecodeTextTypeAttrOrFail. corpus/query.go:
-- SubcorpusToCQL. corpus/common.go: CheckSavedSubcorpus. A map is the list of its entries.
pub mod Restriction
use Prim.Native.String.{◌++◌}
use mquery.Base.{ℕ, Bool, true, false, List, [], ◌∷◌, Option, none, some, if◌then◌else◌}
use mquery.Base.Text.{String, str_eq, split}
use mquery.Results.Binning.{Outcome, returned, panicked}
use mquery.Corpora.Setup.{TextTypes, MqCorpusSetup, text_of}
use mquery.Corpora.Lookup.{Found, corp, no_corp, nil_dereference}
use mquery.Handlers.Request.{Url, arg, query_of}

-- strings.Join
abbrev pub join_texts : String → List String → String
join_texts sep [] = ""
join_texts sep (x ∷ []) = x
join_texts sep (x ∷ y ∷ rest) = x ++ sep ++ join_texts sep (y ∷ rest)

abbrev pub within_clause : String → String → List String → String
within_clause strct attr values =
    " within <" ++ strct ++ " " ++ attr ++ "=\"" ++ join_texts "|" values ++ "\" />"

abbrev then_text : String → Outcome String → Outcome String
then_text s panicked = panicked
then_text s (returned t) = returned (s ++ t)

-- An attribute without a dot has no second part.
unfoldable pub subcorpus_to_cql : TextTypes → Outcome String
subcorpus_to_cql [] = returned ""
subcorpus_to_cql ((attr, values) ∷ rest) =
    let later = subcorpus_to_cql rest in
    elim (split attr ".") [
      | strct ∷ a ∷ others ↦ then_text (within_clause strct a values) later
      | _ ↦ panicked
    ]

-- subcID[:2]; the bytes of an identifier are its characters, as in ASCII.
unfoldable pub first_two : String → Option String
first_two (String.◌∷◌ a (String.◌∷◌ b rest)) = some (String.◌∷◌ a (String.◌∷◌ b String.[]))
first_two _ = none

-- The path and whether it is a file. `path` is filepath.Join of its three directories with data.subc,
-- `is_file` is fs.IsFile, which gives no value if the test fails.
unfoldable pub check_saved_subcorpus :
    (String → String → String → String)
    → (String → Option Bool)
    → String
    → String
    → Outcome (String × Bool)
unfolding first_two
check_saved_subcorpus path is_file base_dir subc_id = elim (first_two subc_id) [
  | none ↦ panicked
  | some prefix ↦
      let p = path base_dir prefix subc_id in
      elim (is_file p) [ none ↦ returned (p, false) | some isf ↦ returned (p, isf) ]
]

-- `status` is `none` where `err` is nil.
pub record QueryProps : Type 0 where
  pub corpus : String
  pub saved_subcorpus : String
  pub query : String
  pub corpus_conf : Option MqCorpusSetup
  pub status : Option ℕ

abbrev pub props_error : String → Option MqCorpusSetup → ℕ → QueryProps
props_error corpus_id conf status = record {
  corpus = corpus_id;
  saved_subcorpus = "";
  query = "";
  corpus_conf = conf;
  status = some status;
}

abbrev pub props_of : String → MqCorpusSetup → String → String → QueryProps
props_of corpus_id conf saved q = record {
  corpus = corpus_id;
  saved_subcorpus = saved;
  query = q;
  corpus_conf = some conf;
  status = none;
}

unfoldable pub text_types_of : String → List (String × TextTypes) → TextTypes
text_types_of subc [] = []
text_types_of subc ((k, tt_values) ∷ rest) =
    if str_eq k subc then tt_values else text_types_of subc rest

-- An attribute, or the status of the error response.
pub data Decoded : Type 0 where
  decoded : String → Decoded
  not_decoded : ℕ → Decoded
  decode_panicked : Decoded

-- `find_corp` is GetCorp, and `saved_subcorpus_of` is CheckSavedSubcorpus in the configured directory.
module _ (find_corp : String → Found) (saved_subcorpus_of : String → Outcome (String × Bool)) where
  -- A named subcorpus that has no text types is sought among the saved ones.
  abbrev pub saved_props :
      String → MqCorpusSetup → String → Outcome (String × Bool) → Outcome QueryProps
  saved_props corpus_id conf q panicked = panicked
  saved_props corpus_id conf q (returned (p, true)) = returned (props_of corpus_id conf p q)
  saved_props corpus_id conf q (returned (p, false)) =
      returned (props_error corpus_id (some conf) 422)

  abbrev pub subcorpus_props :
      String → MqCorpusSetup → String → String → Outcome String → Outcome QueryProps
  subcorpus_props corpus_id conf q subc panicked = panicked
  subcorpus_props corpus_id conf q subc (returned cql) =
      if str_eq cql ""
      then saved_props corpus_id conf q (saved_subcorpus_of subc)
      else returned (props_of corpus_id conf "" (q ++ cql))

  abbrev pub found_props : String → String → String → Found → Outcome QueryProps
  found_props corpus_id q subc nil_dereference = panicked
  found_props corpus_id q subc no_corp = returned (props_error corpus_id none 404)
  found_props corpus_id q subc (corp conf) =
      if str_eq q ""
      then returned (props_error corpus_id (some conf) 400)
      else if str_eq subc ""
      then returned (props_of corpus_id conf "" q)
      else subcorpus_props corpus_id conf q subc
          (subcorpus_to_cql (text_types_of subc conf.subcorpora))

  unfoldable pub determine_query_props : Url → Outcome QueryProps
  unfolding subcorpus_to_cql text_types_of
  determine_query_props url =
      let corpus_id = query_of "corpusId" url in
      found_props corpus_id (query_of "q" url) (query_of "subcorpus" url) (find_corp corpus_id)

  unfoldable pub decode_text_type_attr : Url → Decoded
  decode_text_type_attr url =
      let attr = query_of "attr" url in
      let property = query_of "textProperty" url in
      if str_eq attr ""
      then (if str_eq property "" then decoded "" else elim (find_corp (query_of "corpusId" url)) [
        | nil_dereference ↦ decode_panicked
        | no_corp ↦ not_decoded 404
        | corp conf ↦ elim (arg property conf.property_names) [
          | none ↦ not_decoded 422
          | some name ↦ decoded name
        ]
      ])
      else if str_eq property ""
      then decoded attr
      else not_decoded 400
