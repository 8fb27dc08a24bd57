-- ===== src/Handlers/QueryProps/Restriction.antt =====
-- What the query properties of a request without an error say.
use Prim.Native.String.{◌++◌}
use mquery.Base.{◌≡◌, refl, ap, Bool, true, false, none, some, inl, inr, Bool-cases}
use mquery.Base.Text.{String, str_eq}
use mquery.Results.Binning.{Outcome, returned, panicked}
use mquery.Corpora.Setup.{MqCorpusSetup}
use mquery.Corpora.Lookup.{Found, corp, no_corp, nil_dereference}
use mquery.Handlers.Request.{Url, query_of}
use mquery.Handlers.QueryProps.{
  QueryProps, subcorpus_to_cql, text_types_of, saved_props, subcorpus_props, found_props,
  determine_query_props,
}

abbrev props_in : QueryProps → Outcome QueryProps → QueryProps
props_in dflt panicked = dflt
props_in dflt (returned x) = x

module _ (find_corp : String → Found) (saved_subcorpus_of : String → Outcome (String × Bool)) where
  -- The part of the corpus that is searched: all of it, a saved subcorpus that is a file, or what the
  -- configured text types select.
  pub data Restriction (conf : MqCorpusSetup) (q subc : String) (props : QueryProps) : Type 0 where
    whole :
        str_eq subc "" ≡ true
        → props.query ≡ q
        → props.saved_subcorpus ≡ ""
        → Restriction conf q subc props
    saved :
        str_eq subc "" ≡ false
        → saved_subcorpus_of subc ≡ returned (props.saved_subcorpus, true)
        → props.query ≡ q
        → Restriction conf q subc props
    selected :
        (cql : String)
        → subcorpus_to_cql (text_types_of subc conf.subcorpora) ≡ returned cql
        → str_eq cql "" ≡ false
        → props.query ≡ q ++ cql
        → props.saved_subcorpus ≡ ""
        → Restriction conf q subc props

  pub record IsDetermined (url : Url) (props : QueryProps) : Type 0 where
    pub conf : MqCorpusSetup
    pub found : find_corp (query_of "corpusId" url) ≡ corp conf
    pub pointer : props.corpus_conf ≡ some conf
    pub asked : str_eq (query_of "q" url) "" ≡ false
    pub restriction : Restriction conf (query_of "q" url) (query_of "subcorpus" url) props

  module _ (conf : MqCorpusSetup) (id q subc : String) (props : QueryProps)
      (no_error : props.status ≡ none) where
    abbrev Fine : Type 0
    Fine = (props.corpus_conf ≡ some conf) × Restriction conf q subc props

    saved-Fine :
        (o : Outcome (String × Bool))
        → str_eq subc "" ≡ false
        → saved_subcorpus_of subc ≡ o
        → saved_props find_corp saved_subcorpus_of id conf q o ≡ returned props
        → Fine
    saved-Fine panicked n e h = absurd (cc)
    saved-Fine (returned (p, true)) n e h = let p = ap (props_in props) h in (cc, saved n (cc) (cc))
    saved-Fine (returned (p, false)) n e h = absurd (cc)

    cql-Fine :
        (o : Outcome String)
        → str_eq subc "" ≡ false
        → subcorpus_to_cql (text_types_of subc conf.subcorpora) ≡ o
        → subcorpus_props find_corp saved_subcorpus_of id conf q subc o ≡ returned props
        → Fine
    cql-Fine panicked n e h = absurd (cc)
    cql-Fine (returned cql) n e h = elim (Bool-cases (str_eq cql "")) [
      | inl m ↦ saved-Fine (saved_subcorpus_of subc) n refl (rw m at h)
      | inr m ↦ let p = ap (props_in props) (rw m at h) in (cc, selected cql e m (cc) (cc))
    ]

  module _ (url : Url) (props : QueryProps) (no_error : props.status ≡ none) where
    found-IsDetermined :
        (o : Found)
        → find_corp (query_of "corpusId" url) ≡ o
        → found_props find_corp saved_subcorpus_of
            (query_of "corpusId" url)
            (query_of "q" url)
            (query_of "subcorpus" url)
            o
          ≡ returned props
        → IsDetermined url props
    found-IsDetermined nil_dereference e h = absurd (cc)
    found-IsDetermined no_corp e h = absurd (cc)
    found-IsDetermined (corp conf) e h =
        let id = query_of "corpusId" url in
        let q = query_of "q" url in
        let subc = query_of "subcorpus" url in
        elim (Bool-cases (str_eq q "")) [
          | inl m ↦ let p = ap (props_in props) (rw m at h) in absurd (cc)
          | inr m ↦ elim (Bool-cases (str_eq subc "")) [
            | inl n ↦
                let p = ap (props_in props) (rw (n) at (rw (m) at h)) in
                record {
                  conf = conf;
                  found = e;
                  pointer = cc;
                  asked = m;
                  restriction = whole n (cc) (cc);
                }
            | inr n ↦
                let f =
                  cql-Fine conf id q subc props no_error
                    (subcorpus_to_cql (text_types_of subc conf.subcorpora)) n refl
                    (rw (n) at (rw (m) at h)) in
                record { conf = conf; found = e; pointer = f.0; asked = m; restriction = f.1 }
          ]
        ]

    -- If the query properties carry no error, the corpus was found and the query is not empty. A
    -- named subcorpus is never dropped: the search is restricted to a saved subcorpus that is a file,
    -- or the query is followed by the text types of the subcorpus; without a name the query is that
    -- of the client and no subcorpus is set.
    pub determine_query_props-IsDetermined :
        determine_query_props find_corp saved_subcorpus_of url ≡ returned props
        → IsDetermined url props
    unfolding determine_query_props
    determine_query_props-IsDetermined h =
        found-IsDetermined (find_corp (query_of "corpusId" url)) refl h
