-- ===== src/Handlers/Conc/Limits.antt =====
-- What the concordance actions ask of the workers and how often they respond.
use mquery.Base.{
  ◌≡◌, refl, Bool, true, false, List, Option, none, some, inl, inr, Bool-cases, Option-cases,
}
use mquery.Base.Int.{ℤ, pos, ltb_ℤ}
use mquery.Base.Float.{Floats}
use mquery.Base.Text.{String, str_eq}
use mquery.Rdb.Query.{ConcordanceArgs, Args, concordance_args}
use mquery.Results.Binning.{Outcome, returned, panicked}
use mquery.Results.Types.{Concordance}
use mquery.Worker.Actions.{payloads}
use mquery.Corpora.Setup.{MqCorpusSetup}
use mquery.Corpora.Lookup.{Found, corp, no_corp, nil_dereference}
use mquery.Corpora.Markdown.{ConcLine, apply_text_properties_mapping, conc_to_markdown}
use mquery.Handlers.Request.{Url, default_query}
use mquery.Handlers.QueryProps.{QueryProps, determine_query_props}
use mquery.Handlers.Exchange.{Actions, as_concordance}
use mquery.Handlers.Exchange.Once.{
  AnswersOnce, failing-AnswersOnce, panicking-AnswersOnce, exchange-AnswersOnce, typed-AnswersOnce,
  with_int-AnswersOnce,
}
use mquery.Handlers.Conc.{
  is_format, syntax_args, conc_args, sentences_args, has_sentences, concordance_max_width,
  concordance_default_width, ArgsBuilder, some_refs, markdown_response, markdown_for, formatted,
  published_concordance, answer_concordance, concordance_for, any_concordance, ranged,
  syntax_concordance, concordance_action, sentences,
}

-- A query for a concordance with at most `concordance_max_width` tokens of context.
abbrev pub IsNarrow : String × Args → Type 0
IsNarrow (func, concordance_args args) =
    (func ≡ "concordance") × (ltb_ℤ (pos concordance_max_width) args.max_context ≡ false)
IsNarrow (func, _) = ⊥

module _ (f32 f64 : Floats) {Overview : Type 0}
    (a : Actions (payloads f32 f64 ConcLine Overview)) where
  markdown-AnswersOnce : (o : Outcome String) → AnswersOnce IsNarrow (markdown_response f32 f64 a o)
  markdown-AnswersOnce panicked = panicking-AnswersOnce IsNarrow
  markdown-AnswersOnce (returned s) = record { asked_all = tt; once = refl }

  found-AnswersOnce :
      (refs : List String) (result : Concordance ConcLine) (o : Found)
      → AnswersOnce IsNarrow (markdown_for f32 f64 a refs result o)
  found-AnswersOnce refs result (corp conf) =
      markdown-AnswersOnce (conc_to_markdown conf result (some_refs refs))
  found-AnswersOnce refs result no_corp = panicking-AnswersOnce IsNarrow
  found-AnswersOnce refs result nil_dereference = panicking-AnswersOnce IsNarrow

  formatted-AnswersOnce :
      (format : String) (props : QueryProps) (refs : List String) (result : Concordance ConcLine)
      → AnswersOnce IsNarrow (formatted f32 f64 a format props refs result)
  unfolding formatted
  formatted-AnswersOnce format props refs result = elim (Bool-cases (str_eq format "json")) [
    | inl e ↦ rw e (record { asked_all = tt; once = refl })
    | inr e ↦ rw e (elim (Bool-cases (str_eq format "markdown")) [
      | inl m ↦ rw m (found-AnswersOnce refs result (a.find_corp props.corpus))
      | inr m ↦ rw m (failing-AnswersOnce IsNarrow 422)
    ])
  ]

  module _ (format : String) (builder : ArgsBuilder) (valid : ConcordanceArgs → Bool)
      (narrow : (props : QueryProps) (conf : MqCorpusSetup)
        → ltb_ℤ (pos concordance_max_width) (builder props conf).max_context ≡ false) where
    published-AnswersOnce :
        (props : QueryProps) (conf : MqCorpusSetup)
        → AnswersOnce IsNarrow (published_concordance f32 f64 a format builder valid props conf)
    unfolding published_concordance
    published-AnswersOnce props conf = elim (Bool-cases (valid (builder props conf))) [
      | inl e ↦
          rw (e, published_concordance)
            (exchange-AnswersOnce IsNarrow
              (answer_concordance f32 f64 a format props conf (builder props conf))
              (typed-AnswersOnce IsNarrow as_concordance _ (λ r.
                formatted-AnswersOnce format props (builder props conf).show_refs
                  (apply_text_properties_mapping (a.prop_of conf) r)))
              a.ask "concordance" (concordance_args (builder props conf)) (refl, narrow props conf))
      | inr e ↦ rw (e, published_concordance) (failing-AnswersOnce IsNarrow 400)
    ]

    for-AnswersOnce :
        (o : Outcome QueryProps)
        → AnswersOnce IsNarrow (concordance_for f32 f64 a format builder valid o)
    unfolding concordance_for
    for-AnswersOnce panicked = panicking-AnswersOnce IsNarrow
    for-AnswersOnce (returned props) = elim (Option-cases props.status) [
      | inr (status, e) ↦ rw (e, concordance_for) (failing-AnswersOnce IsNarrow status)
      | inl e ↦ elim (Option-cases props.corpus_conf) [
        | inl n ↦ rw (e, n, concordance_for) (panicking-AnswersOnce IsNarrow)
        | inr (conf, c) ↦ rw (e, c, concordance_for) (published-AnswersOnce props conf)
      ]
    ]

    any_concordance-AnswersOnce :
        (url : Url) → AnswersOnce IsNarrow (any_concordance f32 f64 a url format builder valid)
    unfolding any_concordance
    any_concordance-AnswersOnce url =
        for-AnswersOnce (determine_query_props a.find_corp a.saved_subcorpus_of url)

  module _ (url : Url) where
    syntax_concordance-AnswersOnce : AnswersOnce IsNarrow (syntax_concordance f32 f64 a url)
    unfolding syntax_concordance syntax_args
    syntax_concordance-AnswersOnce =
        any_concordance-AnswersOnce "json" (syntax_args a.registry_path url) has_sentences
          (λ props conf. refl) url

    sentences-AnswersOnce : AnswersOnce IsNarrow (sentences f32 f64 a url)
    unfolding sentences sentences_args
    sentences-AnswersOnce =
        let format = default_query "format" "json" url in
        elim (Bool-cases (is_format format)) [
          | inr e ↦ rw (e, sentences) (failing-AnswersOnce IsNarrow 400)
          | inl e ↦
              rw (e, sentences)
                (with_int-AnswersOnce IsNarrow a.atoi a.bad_int "rowsOffset" (pos 0) url _
                  (λ rows_offset.
                    any_concordance-AnswersOnce format
                      (λ props conf. sentences_args a.registry_path url props conf rows_offset)
                      has_sentences (λ props conf. refl) url))
        ]

    ranged-AnswersOnce :
        (format : String) (width max_rows rows_offset : ℤ)
        → ltb_ℤ (pos concordance_max_width) width ≡ false
        → (o : Option (ℤ × ℤ))
        → AnswersOnce IsNarrow (ranged f32 f64 a url format width max_rows rows_offset o)
    unfolding conc_args
    ranged-AnswersOnce format width max_rows rows_offset h none = failing-AnswersOnce IsNarrow 400
    ranged-AnswersOnce format width max_rows rows_offset h (some range) =
        any_concordance-AnswersOnce format
          (λ props conf. conc_args a.registry_path url props conf width max_rows rows_offset range)
          (λ args. true) (λ props conf. h) url

    concordance_action-AnswersOnce : AnswersOnce IsNarrow (concordance_action f32 f64 a url)
    unfolding concordance_action
    concordance_action-AnswersOnce =
        let format = default_query "format" "json" url in
        elim (Bool-cases (is_format format)) [
          | inr e ↦ rw (e, concordance_action) (failing-AnswersOnce IsNarrow 400)
          | inl e ↦
              rw (e, concordance_action)
                (with_int-AnswersOnce IsNarrow a.atoi a.bad_int "contextWidth"
                  (pos concordance_default_width) url _
                  (λ width. elim (Bool-cases (ltb_ℤ (pos concordance_max_width) width)) [
                    | inl wide ↦ rw wide (failing-AnswersOnce IsNarrow 400)
                    | inr narrow ↦ rw narrow (
                        with_int-AnswersOnce IsNarrow a.atoi a.bad_int "maxRows" (pos 0) url _
                          (λ max_rows.
                            with_int-AnswersOnce IsNarrow a.atoi a.bad_int "rowsOffset" (pos 0) url
                              _
                              (λ rows_offset.
                                ranged-AnswersOnce format width max_rows rows_offset narrow _)))
                  ]))
        ]

    -- Whatever the arguments and the answer of the worker, each of the three concordance actions
    -- writes exactly one response unless it panics, and publishes no query but for concordances
    -- with at most 50 tokens of context.
    pub concordances-AnswersOnce :
        AnswersOnce IsNarrow (concordance_action f32 f64 a url)
        × AnswersOnce IsNarrow (sentences f32 f64 a url)
        × AnswersOnce IsNarrow (syntax_concordance f32 f64 a url)
    concordances-AnswersOnce =
        (concordance_action-AnswersOnce, sentences-AnswersOnce, syntax_concordance-AnswersOnce)
