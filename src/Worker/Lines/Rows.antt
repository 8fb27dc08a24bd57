-- ===== src/Worker/Lines/Rows.antt =====
-- When `concordance` panics on the lines that Manatee has returned.
use mquery.Base.{◌≡◌, ◌↔◌, ◌<◌, refl, List, [], ◌∷◌, none, arith, length, inl, inr, Option-cases}
use mquery.Base.Text.{String}
use mquery.Mango.Concordance.{GoConcordance, found}
use mquery.Rdb.Query.{ConcordanceArgs}
use mquery.Worker.Actions.{Manatee, action_panicked}
use mquery.Worker.Lines.{align, align_all, parsed_rows, rows_of}

module _ {Line Overview F : Type 0} (lib : Manatee Line Overview F) where
  align-none :
      (ls : List Line) (ts : List String) (f : String → Line → Line)
      → (align lib ls ts f ≡ none) ↔ (length ts < length ls)
  unfolding align
  align-none [] ts f = ground arith
  align-none (l ∷ ls) [] f = (λ h. omega arith, λ h. refl)
  align-none (l ∷ ls) (t ∷ ts) f = elim (Option-cases (align lib ls ts f)) [
    | inl e ↦ ground (arith, align-none ls ts f)
    | inr (r, e) ↦ ground (arith, align-none ls ts f)
  ]

  align_all-none :
      (ls : List Line) (ts : List String) (f : String → Line → Line)
      → (align_all lib ls ts f ≡ none) ↔ ((0 < length ts) × (length ts < length ls))
  unfolding align_all
  align_all-none ls [] f = ground arith
  align_all-none ls (t ∷ ts) f = ground (arith, align-none ls (t ∷ ts) f)

  -- On lines that Manatee has returned, `concordance` panics exactly if there are aligned texts and
  -- fewer of them than parsed lines.
  pub rows_of-panics :
      (args : ConcordanceArgs) (conc : GoConcordance)
      → ((m : String) × (rows_of lib args (found conc) ≡ action_panicked m)) ↔ (
          (0 < length conc.aligned_lines)
          × (length conc.aligned_lines < length (lib.parse args.attrs conc.lines)))
  unfolding rows_of parsed_rows
  rows_of-panics args conc =
      let ls = lib.parse args.attrs conc.lines in
      let f = lib.parse_aligned_line args.attrs in
      let short = align_all-none ls conc.aligned_lines f in
      elim (Option-cases (align_all lib ls conc.aligned_lines f)) [
        | inl e ↦ rw (e, rows_of, parsed_rows) (λ h. short.0 e, λ h. (_, refl))
        | inr (rs, e) ↦
            rw (e, rows_of, parsed_rows) (λ h. absurd (cc (h.1)), λ h. absurd (cc (e, short.1 h)))
      ]
