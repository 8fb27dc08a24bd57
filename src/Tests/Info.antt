-- ===== src/Tests/Info.antt =====
-- The information on a corpus that is asked for twice.
use mquery.Base.{◌≡◌, refl, Bool, true, false, [], ◌∷◌, none, some, if◌then◌else◌}
use mquery.Base.Text.{String, str_eq}
use mquery.Errors.{Result, ok}
use mquery.Rdb.Query.{Args}
use mquery.Results.Types.{Payloads, CorpusInfo, corpus_info}
use mquery.Results.Binning.{returned}
use mquery.Corpora.Setup.{MqCorpusSetup}
use mquery.Corpora.Lookup.{Found, corp}
use mquery.Handlers.Exchange.{Asked, not_published, received}
use mquery.Handlers.Info.{info_loaded}
use mquery.Corpora.Info.{load_corpus_info, open_split_corpus}
use mquery.Corpora.Info.Loaded.{load_corpus_info-again}
use mquery.Tests.Corpora.{setup}

abbrev texts : Payloads
texts = record { Line = String; Overview = String; Float32 = String; Float64 = String }

abbrev info : CorpusInfo String
info = record { data_ = "about a"; error = none }

abbrev path : String → String
path id = id

abbrev is_there : String → Result Bool
is_there p = ok true

abbrev found_corp : String → Found
found_corp id = corp (setup id)

abbrev ask : String → Args → Asked texts
ask func args = received (some (corpus_info info)) false

abbrev same : MqCorpusSetup → String → CorpusInfo String → CorpusInfo String
same conf lang i = i

abbrev is_gone : String → Result Bool
is_gone p = ok false

abbrev no_answer : String → Args → Asked texts
no_answer func args = not_published

load_corpus_info-again_example :
    load_corpus_info texts path is_gone found_corp no_answer same "a" "en"
      (load_corpus_info texts path is_there found_corp ask same "a" "en" []).1
    ≡ (
      returned (info_loaded info),
      (load_corpus_info texts path is_there found_corp ask same "a" "en" []).1,
    )
unfolding load_corpus_info
load_corpus_info-again_example =
    load_corpus_info-again texts path is_there found_corp ask same "a" "en" [] info is_gone
      found_corp no_answer same refl

open_split_corpus_example :
    open_split_corpus (λ n. if str_eq n "log" then "" else ".subc") (λ n. n) (ok ("x" ∷ "log" ∷ []))
    ≡ ok ("x" ∷ [])
unfolding open_split_corpus
open_split_corpus_example = refl
