-- ===== src/Worker/Actions/Failures.antt =====
-- When the answer of `freqDistrib` carries an error.
use mquery.Base.{◌≡◌, ◌↔◌, sym, ◌∙◌, inl, inr, true, Bool-cases, Option, none, arith}
use mquery.Base.Int.{pos, ltb_ℤ}
use mquery.Base.Float.{Floats}
use mquery.Base.Sort.{Sorter}
use mquery.Errors.{GoError, ok}
use mquery.Errors.Cases.{Result-cases}
use mquery.Rdb.Query.{FreqDistribArgs}
use mquery.Results.{FreqDistrib}
use mquery.Worker.FreqResult.{Freqs, Compiled, compiled, failed, panicked, more_frequent}
use mquery.Worker.NormsCache.{NormsCache}
use mquery.Worker.Actions.{Manatee, answered, freq_norms, compiled_answer, freq_distrib_of}

module _ (f32 : Floats) {Line Overview F : Type 0} (lib : Manatee Line Overview F) where
  compiled_answer-error :
      (args : FreqDistribArgs) (freqs : Freqs) (e : Option GoError)
      → (c : Compiled (_)) (res : FreqDistrib f32.Float)
      → compiled_answer f32 lib args freqs e c ≡ answered res
      → res.error ≡ e
  unfolding compiled_answer
  compiled_answer-error args freqs e (compiled items) res h = cc
  compiled_answer-error args freqs e (failed items m) res h = cc
  compiled_answer-error args freqs e panicked res h = absurd (cc)

  -- An answer of `freqDistrib` is free of an error exactly if the limit of items is positive, Manatee
  -- has calculated the frequencies, and the norms, where they are needed, were in the cache or could
  -- be read. It does not depend on whether every value has a norm.
  pub freq_distrib_of-error :
      (sort : Sorter (more_frequent {F = f32.Float})) (args : FreqDistribArgs) (nc : NormsCache)
      (res : FreqDistrib f32.Float)
      → freq_distrib_of f32 lib sort args nc ≡ answered res
      → (res.error ≡ none) ↔ (
          (ltb_ℤ (pos 0) args.max_items ≡ true)
          × ((freqs : Freqs) × (lib.calc_freq_dist args.corpus_path args.subc_path args.query
                  args.crit args.freq_limit
                ≡ ok freqs))
          × ((freq_norms lib args nc).1 ≡ none))
  unfolding freq_distrib_of
  freq_distrib_of-error sort args nc res h = elim (Bool-cases (ltb_ℤ (pos 0) args.max_items)) [
    | inr p ↦ ground arith
    | inl p ↦
        elim (Result-cases (
          lib.calc_freq_dist args.corpus_path args.subc_path args.query args.crit
            args.freq_limit)) [
              | inl (e, q) ↦ ground arith
              | inr (freqs, q) ↦
                  let e =
                    compiled_answer-error args freqs (freq_norms lib args nc).1 _ res
                      (rw (p, q) at h) in
                  (λ k. (p, (freqs, q), sym e ∙ k), λ k. e ∙ k.2)
            ]
  ]
