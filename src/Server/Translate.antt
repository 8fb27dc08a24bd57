-- ===== src/Server/Translate.antt =====
-- proxied/translator.go: the proxy of a service that translates queries.
use mquery.Base.{ℕ, Bool, List, [], ◌∷◌, Option, none, some, if◌then◌else◌}
use mquery.Base.Text.{String}
use mquery.Handlers.Request.{Url, query_of, Served, failing, responding, panicking}

-- What http.Client gives: an error, without a response, or a status and a body, if it can be read.
pub data Upstream : Type 0 where
  upstream_failed : Upstream
  upstream : ℕ → Option String → Upstream

abbrev pub translator_query : Url → List (String × String)
translator_query url = ("q", query_of "q" url) ∷ ("lang", query_of "lang" url) ∷ []

-- The status of an error is read from a response that is nil; the status of the service is not
-- passed on.
abbrev pub forwarded : Upstream → Served String
forwarded upstream_failed = panicking
forwarded (upstream status none) = failing 500
forwarded (upstream status (some text)) = responding text

unfoldable pub remote_query_translator :
    Bool → (List (String × String) → Upstream) → Url → Served String
remote_query_translator url_is_valid send url =
    if url_is_valid then forwarded (send (translator_query url)) else failing 500
