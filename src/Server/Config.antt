-- ===== src/Server/Config.antt =====
-- cnf/conf.go: the configuration of the server and its validation.
pub mod Valid
use Prim.Native.String.{◌++◌}
use mquery.Base.{
  ℕ, suc, Bool, true, false, ◌&&◌, ◌||◌, List, [], ◌∷◌, ◌++◌ as append, Option, none, some,
  if◌then◌else◌, ◌==◌,
}
use mquery.Base.Int.{ℤ, pos, eqb_ℤ}
use mquery.Base.Text.{String, str_eq}
use mquery.Errors.{codes, is_prefix, Result, ok, err}
use mquery.Corpora.Files.{CorporaSetup}
use mquery.Server.Locales.{LocaleConf, supports_locale, default_locale}

pub record AuthSection : Type 0 where
  pub token_header_name : String
  pub tokens : List String

-- AuthConf.IsDefined, of a pointer.
unfoldable pub is_defined : Option AuthSection → Bool
is_defined none = false
is_defined (some ac) =
    if str_eq ac.token_header_name "" then false else elim ac.tokens [ [] ↦ false | t ∷ ts ↦ true ]

-- The fields that are read here.
pub record ServerConf : Type 0 where
  pub listen_address : String
  pub public_urls : List String
  pub server_write_timeout_secs : ℤ
  pub corpora_setup : Option CorporaSetup
  pub allow_custom_timeouts : Bool
  pub locales : List LocaleConf
  pub time_zone : String

abbrev pub dflt_server_write_timeout_secs : ℕ
dflt_server_write_timeout_secs = 30

abbrev pub dflt_locale : LocaleConf
dflt_locale = record { name = "en"; is_default = true }

unfoldable pub num_defaults : List LocaleConf → ℕ
num_defaults [] = 0
num_defaults (c ∷ cs) = let rest = num_defaults cs in if c.is_default then suc rest else rest

unfoldable pub all_parse : (String → Bool) → List String → Bool
all_parse parses [] = true
all_parse parses (u ∷ us) = if parses u then all_parse parses us else false

-- A locale `en` that is missing is added, not as the default.
unfoldable pub with_english : List LocaleConf → List LocaleConf
unfolding supports_locale
with_english [] = dflt_locale ∷ []
with_english (c ∷ cs) =
    if supports_locale (c ∷ cs) "en"
    then c ∷ cs
    else append (c ∷ cs) (record { name = "en"; is_default = false } ∷ [])

abbrev pub urls_or_address : String → List String → List String
urls_or_address address [] = ("http://" ++ address) ∷ []
urls_or_address address urls = urls

abbrev pub timeout_or_default : ℤ → ℤ
timeout_or_default n = if eqb_ℤ n (pos 0) then pos dflt_server_write_timeout_secs else n

abbrev pub on_all_interfaces : String → Bool
on_all_interfaces address =
    is_prefix (codes "0.0.0.0") (codes address) || is_prefix (codes ":") (codes address)

-- The defaults. That of the time zone is not assigned.
unfoldable pub conf_with_defaults : ServerConf → ServerConf
unfolding with_english
conf_with_defaults conf = record conf {
  server_write_timeout_secs = timeout_or_default conf.server_write_timeout_secs;
  public_urls = urls_or_address conf.listen_address conf.public_urls;
  locales = with_english conf.locales;
}

-- `parses` is url.Parse, `is_location` time.LoadLocation, and `validate` the validation of the corpora,
-- which is called twice.
module _ (parses is_location : String → Bool)
    (validate : Option CorporaSetup → Result CorporaSetup) where
  abbrev pub twice_validated : Result CorporaSetup → Result CorporaSetup
  twice_validated (err e) = err e
  twice_validated (ok cs) = validate (some cs)

  abbrev pub checked_rest : ServerConf → Result CorporaSetup → Option ServerConf
  checked_rest conf (err e) = none
  checked_rest conf (ok cs) =
      if is_location conf.time_zone
      then (if on_all_interfaces conf.listen_address && conf.allow_custom_timeouts
          then none
          else some (record conf { corpora_setup = some cs }))
      else none

  abbrev pub checked : ServerConf → Option ServerConf
  checked conf =
      if all_parse parses conf.public_urls
      then (if num_defaults conf.locales == 1
          then checked_rest conf (twice_validated (validate conf.corpora_setup))
          else none)
      else none

  -- ValidateAndDefaults; `none` ends the process.
  unfoldable pub validate_conf : ServerConf → Option ServerConf
  unfolding conf_with_defaults num_defaults all_parse
  validate_conf conf = checked (conf_with_defaults conf)
