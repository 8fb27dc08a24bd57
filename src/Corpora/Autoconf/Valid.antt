-- ===== src/Corpora/Autoconf/Valid.antt =====
-- What the lookup of a corpus gives if configurations are generated.
use mquery.Base.{
  ◌≡◌, sym, ap, ◌∙◌, subst, Bool, true, List, ◌∷◌, Option, none, some, arith, inl, inr,
  Option-cases, Bool-cases,
}
use mquery.Base.Text.{String, str_eq}
use mquery.Errors.{Result, ok}
use mquery.Errors.Cases.{Result-cases}
use mquery.Corpora.Setup.{Texts, MqCorpusSetup, validate_and_defaults}
use mquery.Corpora.Setup.Defaults.{validate_and_defaults_lem}
use mquery.Corpora.Lookup.{AutoConfCache, Found, found_of, corp, cached, get_corp}
use mquery.Corpora.Lookup.Cache.{get_corp-hit, get_corp-miss}
use mquery.Corpora.Autoconf.{Document, TextProperties, PropertyConfs}
use mquery.Corpora.Autoconf.Generate.{Registry, load_registry, new_conf, autogenerate_conf}

module _ (props : TextProperties) (is_dynamic : String → Bool) (valid_property : String → Bool)
    (has_pos_attr : Document → String → Bool) (known_structures_of : List String → List String)
    (conc_attrs_of : PropertyConfs → List String) (overview_of : PropertyConfs → Texts) where
  abbrev pub validate : MqCorpusSetup → Result MqCorpusSetup
  validate = validate_and_defaults (λ id variants. is_dynamic id) valid_property

  abbrev pub generate : Registry → (String → String) → String → Option MqCorpusSetup
  generate =
      autogenerate_conf props is_dynamic valid_property has_pos_attr known_structures_of
        conc_attrs_of overview_of

  abbrev fresh : String → Document → MqCorpusSetup
  fresh =
      new_conf props is_dynamic valid_property has_pos_attr known_structures_of conc_attrs_of
        overview_of

  -- A configuration that is generated is accepted without a change.
  generate-IsValid :
      (r : Registry) (registry_path : String → String) (id : String) (c : MqCorpusSetup)
      → generate r registry_path id ≡ some c
      → validate c ≡ ok c
  unfolding autogenerate_conf
  generate-IsValid r registry_path id c h =
      elim (Result-cases (load_registry r (registry_path id))) [
        | inl (e, load) ↦ ground (arith, h, load)
        | inr (reg, load) ↦ elim (Result-cases (validate (fresh id reg))) [
          | inl (e, valid) ↦ ground (arith, h, load, valid)
          | inr (out, valid) ↦
              let same : out ≡ c = ground (arith, h, load, valid) in
              subst (λ x. validate x ≡ ok x) same
                (validate_and_defaults_lem (λ i variants. is_dynamic i) valid_property
                  (fresh id reg) out valid).2
        ]
      ]

  -- Each configuration in the cache is accepted without a change.
  abbrev pub AreAccepted : AutoConfCache → Type 0
  AreAccepted cache =
      (k : String) (c : MqCorpusSetup) → cached k cache ≡ some (some c) → validate c ≡ ok c

  found_of-corp : (v : Option MqCorpusSetup) (c : MqCorpusSetup) → found_of v ≡ corp c → v ≡ some c
  found_of-corp none c h = cc
  found_of-corp (some d) c h = cc

  AreAccepted-generated :
      (r : Registry) (registry_path : String → String) (id : String) (cache : AutoConfCache)
      → AreAccepted cache
      → AreAccepted ((id, generate r registry_path id) ∷ cache)
  unfolding cached
  AreAccepted-generated r registry_path id cache accepted k c h = elim (Bool-cases (str_eq id k)) [
    | inl e ↦ generate-IsValid r registry_path id c (ground (arith, h, e))
    | inr e ↦ accepted k c (ground (arith, h, e))
  ]

  -- In the mode without configuration, for a corpus that is not configured: if each configuration in
  -- the cache passes its validation without a change, then so do the configuration that is found
  -- and those in the cache after the lookup.
  pub get_corp-AreAccepted :
      (r : Registry) (registry_path : String → String)
      (resource generate_min : String → Option MqCorpusSetup) (id : String) (cache : AutoConfCache)
      → resource id ≡ none
      → AreAccepted cache
      → let next = get_corp resource generate_min (generate r registry_path) true id cache in
        ((c : MqCorpusSetup) → next.0 ≡ corp c → validate c ≡ ok c) × AreAccepted next.1
  get_corp-AreAccepted r registry_path resource generate_min id cache unconfigured accepted =
      let make = generate r registry_path in
      let IsSafe = λ (x : Found × AutoConfCache).
        ((c : MqCorpusSetup) → x.0 ≡ corp c → validate c ≡ ok c) × AreAccepted x.1 in
      elim (Option-cases (cached id cache)) [
        | inl e ↦
            subst IsSafe (sym (get_corp-miss resource generate_min make id cache unconfigured e)) (
              λ c h. generate-IsValid r registry_path id c (found_of-corp (make id) c h),
              AreAccepted-generated r registry_path id cache accepted,
            )
        | inr (v, e) ↦
            subst IsSafe (sym (get_corp-hit resource generate_min make id cache v unconfigured e))
              (λ c h. accepted id c (e ∙ ap some (found_of-corp v c h)), accepted)
      ]
