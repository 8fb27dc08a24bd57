-- ===== src/Handlers/Info.antt =====
-- corpus/handlers/info.go: CorpusInfo and Corplist.
use mquery.Base.{List, [], ◌∷◌, Option, none, some, if◌then◌else◌, map}
use mquery.Base.Text.{String}
use mquery.Corpora.Setup.{Texts, TextTypes, MqCorpusSetup, text_of}
use mquery.Corpora.Lookup.{Found, corp, no_corp, nil_dereference}
use mquery.Server.Locales.{LocaleConf, supports_locale, default_locale}
use mquery.Handlers.Request.{
  Url, arg, query_of, default_query, is_set, Served, failing, responding, panicking,
}

-- The text of a language, or the English one.
unfoldable pub get_translation : Texts → String → String
unfolding text_of arg
get_translation texts lang = elim (arg lang texts) [ some v ↦ v | none ↦ text_of "en" texts ]

pub record SubcInfo : Type 0 where
  pub id : String
  pub description : String

pub record CorpusCompactInfo : Type 0 where
  pub id : String
  pub full_name : String
  pub description : String
  pub subcorpora : List SubcInfo

-- The description of a subcorpus, which is no field of `TextTypes`, is a parameter.
module _ (subc_description : TextTypes → Texts) where
  abbrev pub subc_infos : String → List (String × TextTypes) → List SubcInfo
  subc_infos lang [] = []
  subc_infos lang ((k, v) ∷ rest) =
      record { id = k; description = get_translation (subc_description v) lang }
      ∷ subc_infos lang rest

  abbrev pub compact_info : String → MqCorpusSetup → CorpusCompactInfo
  compact_info lang v = record {
    id = v.id;
    full_name = get_translation v.full_name lang;
    description = get_translation v.description lang;
    subcorpora = subc_infos lang v.subcorpora;
  }

  -- Corplist; `all_corpora` is GetAllCorpora, which gives no nil.
  unfoldable pub corplist :
      List LocaleConf → List MqCorpusSetup → Url → Served (List CorpusCompactInfo × String)
  unfolding supports_locale default_locale get_translation
  corplist locales all_corpora url =
      let lang = default_query "lang" (default_locale locales) url in
      if supports_locale locales lang
      then responding (map (compact_info lang) all_corpora, lang)
      else failing 422

-- What LoadCorpusInfo gives: information, ErrNotFound, or another error.
pub data InfoLoaded (I : Type 0) : Type 0 where
  info_loaded : I → InfoLoaded I
  info_not_found : InfoLoaded I
  info_error : InfoLoaded I

pub record CorpusInfoResponse (I : Type 0) : Type 0 where
  pub corpus : I
  pub text_properties : List String
  pub locale : String
  pub conf : Option MqCorpusSetup

module _ {I : Type 0} (find_corp : String → Found) (load : String → String → InfoLoaded I) where
  abbrev pub info_response :
      Url → String → MqCorpusSetup → InfoLoaded I → Served (CorpusInfoResponse I)
  info_response url lang conf info_not_found = failing 404
  info_response url lang conf info_error = failing 500
  info_response url lang conf (info_loaded i) = responding (record {
    corpus = i;
    text_properties = conf.text_properties;
    locale = lang;
    conf = if is_set "attachConf" url then some conf else none;
  })

  abbrev pub info_found : Url → String → String → Found → Served (CorpusInfoResponse I)
  info_found url lang corpus_id nil_dereference = panicking
  info_found url lang corpus_id no_corp = failing 404
  info_found url lang corpus_id (corp conf) = info_response url lang conf (load corpus_id lang)

  unfoldable pub corpus_info_action : List LocaleConf → Url → Served (CorpusInfoResponse I)
  unfolding supports_locale default_locale
  corpus_info_action locales url =
      let lang = default_query "lang" (default_locale locales) url in
      let corpus_id = query_of "corpusId" url in
      if supports_locale locales lang
      then info_found url lang corpus_id (find_corp corpus_id)
      else failing 422
