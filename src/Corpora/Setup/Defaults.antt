-- ===== src/Corpora/Setup/Defaults.antt =====
-- What a validated configuration is.
use mquery.Base.{◌≡◌, Bool, false, List, arith}
use mquery.Base.Int.{pos, eqb_ℤ}
use mquery.Base.Text.{String}
use mquery.Errors.{ok}
use mquery.Corpora.Setup.{Variant, MqCorpusSetup, validate_and_defaults}

module _ (is_dynamic : String → List (String × Variant) → Bool)
    (valid_property : String → Bool) where
  -- A configuration that is accepted has limits that are not 0, and is accepted again without a
  -- change.
  pub validate_and_defaults_lem :
      (cs out : MqCorpusSetup)
      → validate_and_defaults is_dynamic valid_property cs ≡ ok out
      → (eqb_ℤ out.maximum_records (pos 0) ≡ false)
        × (eqb_ℤ out.maximum_token_context_window (pos 0) ≡ false)
        × (validate_and_defaults is_dynamic valid_property out ≡ ok out)
  unfolding validate_and_defaults
  validate_and_defaults_lem cs out h = ground (arith, h)
