-- ===== src/Worker/TextTypes/Transparent.antt =====
-- The cache of norms is not seen in the answers of `textTypeNorms`.
use mquery.Base.{◌≡◌, refl, ap, Bool, sym, ◌∙◌, inl, inr, true, Bool-cases, none, some, [], arith}
use mquery.Base.Text.{String, str_eq, str_eq_iff}
use mquery.Errors.{Result, ok, err}
use mquery.Mango.{get_text_types_norms}
use mquery.Rdb.Query.{TextTypeNormsArgs}
use mquery.Results.Types.{TextTypeNorms}
use mquery.Worker.FreqResult.{Norms}
use mquery.Worker.NormsCache.{NormsCache, get, set}
use mquery.Worker.NormsCache.Laws.{HasNoHash, get-set}
use mquery.Worker.Actions.{Manatee}
use mquery.Errors.Cases.{Result-cases}
use mquery.Worker.TextTypes.{text_type_norms_of}

-- The answer of a worker without a cache.
pub norms_answer : Result Norms → TextTypeNorms
norms_answer (ok n) = record { sizes = n; error = none }
norms_answer (err e) = record { sizes = []; error = some e }

module _ {Line Overview F : Type 0} (lib : Manatee Line Overview F) where
  -- What the cache holds for a path without a `#` is what Manatee gives.
  abbrev pub IsSound : NormsCache → Type 0
  IsSound nc =
      (c a : String) (n : Norms)
      → HasNoHash c
      → get nc c a ≡ (n, true)
      → get_text_types_norms lib.attr_values_sizes c a ≡ ok n

  set-IsSound :
      (nc : NormsCache) (c a : String) (n : Norms)
      → HasNoHash c
      → get_text_types_norms lib.attr_values_sizes c a ≡ ok n
      → IsSound nc
      → IsSound (set nc c a (some n))
  set-IsSound nc c a n hc e s d b m hd h =
      let laws = get-set nc c a d b n hc hd in
      elim (Bool-cases (str_eq c d)) [
        | inr p ↦ s d b m hd (sym (laws.1 (λ q. ground (arith, str_eq_iff c d, q.0))) ∙ h)
        | inl p ↦ elim (Bool-cases (str_eq a b)) [
          | inr q ↦ s d b m hd (sym (laws.1 (λ r. ground (arith, str_eq_iff a b, r.1))) ∙ h)
          | inl q ↦
              let c_is = (str_eq_iff c d).0 p in
              let a_is = (str_eq_iff a b).0 q in
              let same = rw (← c_is, ← a_is) at h in
              rw (← c_is, ← a_is) (e ∙ ap ok (ap (λ x. x.0) (sym laws.0 ∙ same)))
        ]
      ]

  -- From a cache that holds for each pair what Manatee gives, `textTypeNorms` answers what Manatee
  -- gives, error or not, and leaves such a cache, for a corpus path without a `#`.
  pub text_type_norms_of-transparent :
      (args : TextTypeNormsArgs) (nc : NormsCache)
      → HasNoHash args.corpus_path
      → IsSound nc
      → ((text_type_norms_of lib args nc).0
          ≡ norms_answer
              (get_text_types_norms lib.attr_values_sizes args.corpus_path args.struct_attr))
        × IsSound (text_type_norms_of lib args nc).1
  unfolding text_type_norms_of norms_answer
  text_type_norms_of-transparent args nc h s =
      elim (Bool-cases (get nc args.corpus_path args.struct_attr).1) [
        | inl p ↦
            let c = args.corpus_path in
            let a = args.struct_attr in
            let whole = ap (λ (b : Bool). ((get nc c a).0, b)) p in
            let direct = s c a (get nc c a).0 h whole in
            rw (p, text_type_norms_of) (sym (ap norms_answer direct), s)
        | inr p ↦
            elim (Result-cases
              (get_text_types_norms lib.attr_values_sizes args.corpus_path args.struct_attr)) [
                | inl (e, q) ↦ rw (p, q, text_type_norms_of) (refl, s)
                | inr (n, q) ↦
                    rw (p, q, text_type_norms_of)
                      (refl, set-IsSound nc args.corpus_path args.struct_attr n h q s)
              ]
      ]
