-- ===== src/Corpora/Info/Loaded.antt =====
-- The cache of the information on corpora.
use mquery.Errors.Cases.{Result-cases}
use mquery.Base.{◌≡◌, refl, Bool, true, false, Option, none, some, arith, inl, inr, Option-cases}
use mquery.Base.Text.{String, str_eq_iff}
use mquery.Errors.{GoError, Result}
use mquery.Rdb.Query.{corpus_info_args, Args}
use mquery.Results.Types.{Payloads, CorpusInfo}
use mquery.Results.Binning.{returned}
use mquery.Corpora.Setup.{MqCorpusSetup}
use mquery.Corpora.Lookup.{corp, no_corp, nil_dereference, Found}
use mquery.Handlers.Exchange.{not_published, received, as_corpus_info, Asked}
use mquery.Handlers.Info.{info_loaded}
use mquery.Corpora.Info.{
  unless_error, InfoResult, cached_extended, typed_info, answered_info, make_cache_key, InfoCache,
  cached_info, load_corpus_info,
}

module _ (ty : Payloads) (registry_path : String → String) where
  -- What the cache holds is given, without a query and without a change of the cache, whatever the
  -- files, the configuration and the workers are by then.
  load_corpus_info-hit :
      (file : String → Result Bool) (find_corp : String → Found) (ask : String → Args → Asked ty)
      (extend : MqCorpusSetup → String → CorpusInfo ty.Overview → CorpusInfo ty.Overview)
      (corpus_id language : String) (cache : InfoCache ty) (info : CorpusInfo ty.Overview)
      → cached_info ty (make_cache_key corpus_id language) cache ≡ some info
      → load_corpus_info ty registry_path file find_corp ask extend corpus_id language cache
        ≡ (returned (info_loaded info), cache)
  unfolding load_corpus_info
  load_corpus_info-hit file find_corp ask extend corpus_id language cache info h =
      rw (h, load_corpus_info) refl

  module _ (file : String → Result Bool) (find_corp : String → Found)
      (ask : String → Args → Asked ty)
      (extend : MqCorpusSetup → String → CorpusInfo ty.Overview → CorpusInfo ty.Overview)
      (corpus_id language : String) (cache : InfoCache ty) (i : CorpusInfo ty.Overview) where
    -- Loaded information is in the cache after the call.
    IsKept : InfoResult ty → Type 0
    IsKept r =
        r.0 ≡ returned (info_loaded i)
        → cached_info ty (make_cache_key corpus_id language) r.1 ≡ some i

    cached_extended-IsKept :
        (info : CorpusInfo ty.Overview) (f : Found)
        → IsKept (
            cached_extended ty registry_path file find_corp ask extend corpus_id language info cache
              f)
    unfolding IsKept cached_info
    cached_extended-IsKept info no_corp h = absurd (ground (arith, h))
    cached_extended-IsKept info nil_dereference h = absurd (ground (arith, h))
    cached_extended-IsKept info (corp conf) h =
        let key = make_cache_key corpus_id language in ground (arith, h, str_eq_iff key key)

    unless_error-IsKept :
        (e : Option GoError) (r : InfoResult ty) → IsKept r → IsKept (unless_error ty e cache r)
    unfolding IsKept
    unless_error-IsKept (some e) r kept = λ h. absurd (ground (arith, h))
    unless_error-IsKept none r kept = kept

    typed_info-IsKept :
        (o : Option (CorpusInfo ty.Overview))
        → IsKept (typed_info ty registry_path file find_corp ask extend corpus_id language cache o)
    unfolding IsKept
    typed_info-IsKept none = λ h. absurd (ground (arith, h))
    typed_info-IsKept (some info) =
        unless_error-IsKept info.error
          (cached_extended ty registry_path file find_corp ask extend corpus_id language info cache
            (find_corp corpus_id))
          (cached_extended-IsKept info (find_corp corpus_id))

    answered_info-IsKept :
        (a : Asked ty)
        → IsKept
            (answered_info ty registry_path file find_corp ask extend corpus_id language cache a)
    unfolding IsKept
    answered_info-IsKept not_published = λ h. absurd (ground (arith, h))
    answered_info-IsKept (received none b) = λ h. absurd (ground (arith, h))
    answered_info-IsKept (received (some v) b) = typed_info-IsKept (as_corpus_info v)

    load_corpus_info-IsKept :
        IsKept
          (load_corpus_info ty registry_path file find_corp ask extend corpus_id language cache)
    unfolding IsKept load_corpus_info
    load_corpus_info-IsKept =
        elim (Option-cases (cached_info ty (make_cache_key corpus_id language) cache)) [
          | inr (info, e) ↦ rw (e, load_corpus_info) (λ h. ground (arith, h, e))
          | inl e ↦ elim (Result-cases (file (registry_path corpus_id))) [
            | inl (x, f) ↦ rw (e, load_corpus_info) (rw (f) (λ h. absurd (ground (arith, h))))
            | inr (false, f) ↦ rw (e, load_corpus_info) (rw (f) (λ h. absurd (ground (arith, h))))
            | inr (true, f) ↦
                rw (e, load_corpus_info)
                  (rw (f) (
                    answered_info-IsKept (
                      ask "corpusInfo" (
                        corpus_info_args (record {
                          corpus_path = registry_path corpus_id;
                          language = language;
                        })))))
          ]
        ]

    -- Information that was loaded once is given again, without a change of the cache, whatever the
    -- files, the configuration and the workers are by then.
    pub load_corpus_info-again :
        (later_file : String → Result Bool) (later_corp : String → Found)
        (later_ask : String → Args → Asked ty)
        (later_extend : MqCorpusSetup → String → CorpusInfo ty.Overview → CorpusInfo ty.Overview)
        → let next =
            load_corpus_info ty registry_path file find_corp ask extend corpus_id language cache in
          next.0 ≡ returned (info_loaded i)
          → load_corpus_info ty registry_path later_file later_corp later_ask later_extend corpus_id
              language next.1
            ≡ (returned (info_loaded i), next.1)
    unfolding IsKept
    load_corpus_info-again later_file later_corp later_ask later_extend h =
        let next =
          load_corpus_info ty registry_path file find_corp ask extend corpus_id language cache in
        load_corpus_info-hit later_file later_corp later_ask later_extend corpus_id language next.1
          i (load_corpus_info-IsKept h)
