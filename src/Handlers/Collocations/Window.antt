-- ===== src/Handlers/Collocations/Window.antt =====
-- The range in which collocates are searched.
use mquery.Base.{ℕ, zero, suc, ◌≡◌, refl, false, ◌&&◌, arith, Option, none, ap}
use mquery.Base.Int.{ℤ, pos, negsuc, ltb_ℤ, eqb_ℤ}
use mquery.Base.Text.{String}
use mquery.Worker.Actions.{Manatee, GoColls, colls_answer}
use mquery.Handlers.Collocations.{
  CollUrl, CollArgs, coll_args, fetch_coll_action_args, negated, coll_query_args, coll_response,
}

negated-negated : (n : ℤ) → negated (negated n) ≡ n
negated-negated (pos zero) = refl
negated-negated (pos (suc n)) = refl
negated-negated (negsuc n) = refl

module _ {Line Overview F : Type 0} (lib : Manatee Line Overview F) where
  -- Arguments that are accepted have bounds of the range that are not negative and not both 0, and a
  -- worker that finds collocations answers with a range which the response turns into these bounds.
  pub fetch_coll_action_args_lem :
      (atoi : String → Option ℤ) (bad_int : ℕ) (url : CollUrl) (args : CollArgs)
      → fetch_coll_action_args atoi bad_int url ≡ coll_args args
      → (ltb_ℤ args.srch_left (pos 0) ≡ false)
        × (ltb_ℤ args.srch_right (pos 0) ≡ false)
        × ((eqb_ℤ args.srch_left (pos 0) && eqb_ℤ args.srch_right (pos 0)) ≡ false)
        × ((path subc q : String) (colls : GoColls F) (name : String)
            → (coll_response (
                colls_answer lib (coll_query_args path subc q url args) colls name none)).srch_range
              ≡ (args.srch_left, args.srch_right))
  unfolding fetch_coll_action_args coll_query_args coll_response
  fetch_coll_action_args_lem atoi bad_int url args h = (
    ground (arith, h),
    ground (arith, h),
    ground (arith, h),
    λ path subc q colls name. ap (λ x. (x, args.srch_right)) (negated-negated args.srch_left),
  )
