-- ===== src/Tests/Corpora.antt =====
-- One configured corpus and one that is generated.
use mquery.Base.{◌≡◌, ◌↔◌, Bool, true, false, Option, some, none, List, [], ◌∷◌, if◌then◌else◌}
use mquery.Base.Int.{pos}
use mquery.Base.Text.{String, str_eq}
use mquery.Corpora.Setup.{Variant, MqCorpusSetup}
use mquery.Corpora.Lookup.{cached, nil_dereference, get_corp}
use mquery.Corpora.Lookup.Cache.{get_corp-nil}

abbrev pub setup : String → MqCorpusSetup
setup id = record {
  id = id;
  full_name = ("en", "A corpus") ∷ [];
  description = [];
  variants = [];
  pos_attrs = "word" ∷ [];
  text_properties = "author" ∷ [];
  maximum_records = pos 0;
  maximum_token_context_window = pos 30;
  full_conc_text_props_attrs = [];
  subcorpora = [];
  property_names = [];
  conc_markup_structures = [];
  syntax_result_attrs = [];
  syntax_parent_attr = "parent";
  view_context_struct = "s";
  has_public_audio = false;
  conc_text_props_attrs = [];
  known_structures = "s" ∷ [];
  overview_props = [];
}

abbrev dynamic : String → List (String × Variant) → Bool
dynamic id vs = false

abbrev known : String → Bool
known p = true

abbrev resource : String → Option MqCorpusSetup
resource id = if str_eq id "a" then some (setup "a") else none

abbrev nothing : String → Option MqCorpusSetup
nothing id = none

abbrev generated : String → Option MqCorpusSetup
generated id = some (setup id)

get_corp-nil_example : ((get_corp resource nothing generated false "a" []).0 ≡ nil_dereference) ↔ (
    ((c : MqCorpusSetup) × (resource "a" ≡ some c)) × (cached "a" [] ≡ none) × (nothing "a" ≡ none))
get_corp-nil_example = get_corp-nil resource nothing generated false "a" []
