-- ===== src/Server/Config/Valid.antt =====
-- What a validated configuration of the server promises.
use mquery.Base.{◌≡◌, Bool, true, false, ◌&&◌, ◌++◌ as append, Option, none, some}
use mquery.Base.Int.{pos, eqb_ℤ}
use mquery.Base.Text.{String}
use mquery.Errors.{Result}
use mquery.Corpora.Files.{CorporaSetup}
use mquery.Server.Locales.{supports_locale}
use mquery.Server.Config.{ServerConf, num_defaults, all_parse, on_all_interfaces}

module _ (parses is_location : String → Bool)
    (validate : Option CorporaSetup → Result CorporaSetup) where
  -- What is checked of a configuration to which the defaults were applied.
  pub record IsChecked (conf out : ServerConf) : Type 0 where
    pub one_default : num_defaults out.locales ≡ 1
    pub english : supports_locale out.locales "en" ≡ true
    pub timeout : eqb_ℤ out.server_write_timeout_secs (pos 0) ≡ false
    pub urls : all_parse parses out.public_urls ≡ true
    pub location : is_location out.time_zone ≡ true
    pub private : (on_all_interfaces out.listen_address && out.allow_custom_timeouts) ≡ false
    pub zone : out.time_zone ≡ conf.time_zone

  abbrev Holds : ServerConf → Option ServerConf → Type 0
  Holds conf none = Unit
  Holds conf (some out) = IsChecked conf out
