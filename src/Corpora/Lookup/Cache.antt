-- ===== src/Corpora/Lookup/Cache.antt =====
-- What the cache of generated configurations does.
use mquery.Base.{
  ◌≡◌, ◌↔◌, refl, sym, subst, Bool, true, ◌∷◌, Option, none, some, arith, inl, inr, Option-cases,
}
use mquery.Base.Text.{String, str_eq_iff}
use mquery.Corpora.Setup.{MqCorpusSetup}
use mquery.Corpora.Lookup.{AutoConfCache, cached, Found, found_of, nil_dereference, get_corp}

module _ (resource : String → Option MqCorpusSetup) where
  pub get_corp-hit :
      (generate_min generate : String → Option MqCorpusSetup) (corpus_id : String)
      (cache : AutoConfCache) (v : Option MqCorpusSetup)
      → resource corpus_id ≡ none
      → cached corpus_id cache ≡ some v
      → get_corp resource generate_min generate true corpus_id cache ≡ (found_of v, cache)
  unfolding get_corp
  get_corp-hit generate_min generate corpus_id cache v h e = rw (h, e, get_corp) refl

  pub get_corp-miss :
      (generate_min generate : String → Option MqCorpusSetup) (corpus_id : String)
      (cache : AutoConfCache)
      → resource corpus_id ≡ none
      → cached corpus_id cache ≡ none
      → get_corp resource generate_min generate true corpus_id cache
        ≡ (found_of (generate corpus_id), (corpus_id, generate corpus_id) ∷ cache)
  unfolding get_corp
  get_corp-miss generate_min generate corpus_id cache h e = rw (h, e, get_corp) refl

  cached-head :
      (k : String) (v : Option MqCorpusSetup) (cache : AutoConfCache)
      → cached k ((k, v) ∷ cache) ≡ some v
  unfolding cached
  cached-head k v cache = ground (arith, str_eq_iff k k)

  -- In the mode without configuration, for a corpus that is not configured, a second call after a
  -- first one gives the same, also if there was none, whatever the registry holds by then, and leaves
  -- the cache as it is.
  pub get_corp-cached :
      (generate_min generate later_min later : String → Option MqCorpusSetup) (corpus_id : String)
      (cache : AutoConfCache)
      → resource corpus_id ≡ none
      → let first = get_corp resource generate_min generate true corpus_id cache in
        get_corp resource later_min later true corpus_id first.1 ≡ first
  get_corp-cached generate_min generate later_min later corpus_id cache h =
      let again =
        λ (x : Found × AutoConfCache). get_corp resource later_min later true corpus_id x.1 ≡ x in
      elim (Option-cases (cached corpus_id cache)) [
        | inl e ↦
            let v = generate corpus_id in
            subst again (sym (get_corp-miss generate_min generate corpus_id cache h e)) (
              get_corp-hit later_min later corpus_id ((corpus_id, v) ∷ cache) v h
                (cached-head corpus_id v cache))
        | inr (v, e) ↦
            subst again (sym (get_corp-hit generate_min generate corpus_id cache v h e))
              (get_corp-hit later_min later corpus_id cache v h e)
      ]

  -- The lookup dereferences nil exactly for a configured corpus that is not in the cache and for
  -- which no minimal configuration can be generated.
  pub get_corp-nil :
      (generate_min generate : String → Option MqCorpusSetup) (zero_conf : Bool)
      (corpus_id : String) (cache : AutoConfCache)
      → ((get_corp resource generate_min generate zero_conf corpus_id cache).0 ≡ nil_dereference)
        ↔ (((c : MqCorpusSetup) × (resource corpus_id ≡ some c))
            × (cached corpus_id cache ≡ none)
            × (generate_min corpus_id ≡ none))
  unfolding get_corp
  get_corp-nil generate_min generate zero_conf corpus_id cache =
      elim (Option-cases (resource corpus_id)) [
        | inl e ↦ ground (arith, e)
        | inr (c, e) ↦ (
          λ h. ((c, e), ground (arith, e, h), ground (arith, e, h)),
          λ h. ground (arith, e, h.1, h.2),
        )
      ]
