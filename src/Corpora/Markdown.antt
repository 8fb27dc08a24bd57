-- ===== src/Corpora/Markdown.antt =====
-- corpus/transform/markdown.go: a concordance as a table. corpus/concordance.go: the names of text
-- properties in the lines. The lines and tokens are those of the package mquery-common, with the
-- fields that are read here; a map is the list of its entries.
use Prim.Native.String.{◌++◌}
use mquery.Base.{Bool, true, false, List, [], ◌∷◌, if◌then◌else◌}
use mquery.Base.Text.{String, str_eq}
use mquery.Results.Binning.{Outcome, returned, panicked}
use mquery.Results.Types.{Concordance}
use mquery.Corpora.Setup.{Texts, MqCorpusSetup, text_of}
use mquery.Handlers.QueryProps.{join_texts}

pub record Token : Type 0 where
  pub word : String
  pub strong : Bool
  pub attrs : Texts

pub data LineElement : Type 0 where
  token : Token → LineElement
  opened : String → Bool → LineElement
  closed : String → LineElement

pub record ConcLine : Type 0 where
  pub elements : List LineElement
  pub props : Texts

-- The attributes of a token except for `word`.
abbrev pub attr_texts : (String → String → String) → Token → List String → List String
attr_texts shown tk [] = []
attr_texts shown tk (name ∷ rest) =
    let later = attr_texts shown tk rest in
    if str_eq name "word" then later else shown name (text_of name tk.attrs) ∷ later

abbrev assignment : String → String → String
assignment name value = name ++ "=" ++ value

abbrev quoted : String → String → String
quoted name value = "*" ++ name ++ "*=&quot;" ++ value ++ "&quot;"

unfoldable pub expand_kwic : Token → MqCorpusSetup → String
unfolding text_of
expand_kwic tk conf =
    if tk.strong
    then "**"
      ++ tk.word
      ++ "** *{"
      ++ join_texts ", " (attr_texts assignment tk conf.pos_attrs)
      ++ "}*"
    else tk.word

-- A slice of capacity -1 cannot be made.
unfoldable pub get_attrs : Token → List String → Outcome String
unfolding text_of
get_attrs tk [] = panicked
get_attrs tk (a ∷ pos_attrs) =
    returned (join_texts " &amp; " (attr_texts quoted tk (a ∷ pos_attrs)))

abbrev pub export_token : Token → String
export_token tk = if tk.strong then "**" ++ tk.word ++ "**" else tk.word

unfoldable pub export_text_props : Texts → String
export_text_props [] = ""
export_text_props ((k, v) ∷ []) = "**" ++ k ++ "**: " ++ v
export_text_props ((k, v) ∷ p ∷ rest) =
    "**" ++ k ++ "**: " ++ v ++ ", " ++ export_text_props (p ∷ rest)

-- The state of a row: before the matched words, in them, or after them. The separator before a token
-- and the state after it.
pub data RowState : Type 0 where
  left_context : RowState
  kwic : RowState
  right_context : RowState

abbrev pub separator : RowState → Bool → String × RowState
separator left_context true = (" | ", kwic)
separator kwic false = (" |", right_context)
separator state strong = ("", state)

abbrev after_text : String → Outcome (String × List String) → Outcome (String × List String)
after_text s panicked = panicked
after_text s (returned (t, metadata)) = returned (s ++ t, metadata)

abbrev with_metadata :
    Outcome String → Outcome (String × List String) → Outcome (String × List String)
with_metadata panicked row = panicked
with_metadata (returned a) panicked = panicked
with_metadata (returned a) (returned (t, metadata)) = returned (t, ("[" ++ a ++ "]") ∷ metadata)

module _ (conf : MqCorpusSetup) where
  -- The loop over the elements of a line: what it writes, and the attributes of the matched words.
  unfoldable pub row_of : RowState → List LineElement → Outcome (String × List String)
  unfolding get_attrs
  row_of state [] = returned ("", [])
  row_of state (token tk ∷ rest) =
      let (mark, next) = separator state tk.strong in
      let row = after_text (mark ++ " " ++ export_token tk) (row_of next rest) in
      if tk.strong then with_metadata (get_attrs tk conf.pos_attrs) row else row
  row_of state (opened name self_close ∷ rest) =
      after_text (if self_close then " *&lt;" ++ name ++ " /&gt;*" else " *&lt;" ++ name ++ "&gt;*")
        (row_of state rest)
  row_of state (closed name ∷ rest) = after_text (" *&lt;/" ++ name ++ "&gt;*") (row_of state rest)

  abbrev pub metadata_row : List String → String
  metadata_row [] = ""
  metadata_row (m ∷ ms) = "|| " ++ join_texts " " (m ∷ ms) ++ " ||\n"

  abbrev pub line_text : Bool → Texts → Outcome (String × List String) → Outcome String
  line_text text_props props panicked = panicked
  line_text text_props props (returned (row, metadata)) = returned (
      "| … "
      ++ row
      ++ " …"
      ++ (if text_props then " | " ++ export_text_props props else "")
      ++ "|\n"
      ++ metadata_row metadata)

  abbrev then_lines : Outcome String → Outcome String → Outcome String
  then_lines panicked rest = panicked
  then_lines (returned a) panicked = panicked
  then_lines (returned a) (returned b) = returned (a ++ b)

  unfoldable pub lines_text : Bool → List ConcLine → Outcome String
  unfolding row_of export_text_props
  lines_text text_props [] = returned "\n\n"
  lines_text text_props (line ∷ rest) =
      then_lines (line_text text_props line.props (row_of left_context line.elements))
        (lines_text text_props rest)

  abbrev pub table_head : Bool → String
  table_head text_props =
      if text_props
      then "|left context | KWIC | right context | text properties |\n|-------:|:----:|:-------|--------|\n"
      else "|left context | KWIC | right context |\n|-------:|:----:|:-------|\n"

  unfoldable pub conc_to_markdown : Concordance ConcLine → Bool → Outcome String
  unfolding lines_text
  conc_to_markdown conc text_props =
      then_lines (returned (table_head text_props)) (lines_text text_props conc.lines)

-- delete(m, k) and m[k] = v
unfoldable pub deleted : String → Texts → Texts
deleted k [] = []
deleted k ((j, v) ∷ rest) =
    let later = deleted k rest in if str_eq j k then later else (j, v) ∷ later

unfoldable pub assigned : String → String → Texts → Texts
assigned k v [] = (k, v) ∷ []
assigned k v ((j, w) ∷ rest) =
    let later = assigned k v rest in if str_eq j k then (k, v) ∷ rest else (j, w) ∷ later

-- `prop_of` is TextTypeProperties.Prop, empty for an attribute that is no property. A key that the
-- loop adds is taken not to be visited again.
module _ (prop_of : String → String) where
  unfoldable pub map_props : Texts → Texts → Texts
  unfolding deleted assigned
  map_props [] props = props
  map_props ((attr, value) ∷ rest) props = map_props rest (
      if str_eq (prop_of attr) ""
      then props
      else assigned (prop_of attr) value (deleted attr props))

  abbrev pub map_lines : List ConcLine → List ConcLine
  map_lines [] = []
  map_lines (line ∷ rest) = record line { props = map_props line.props line.props } ∷ map_lines rest

  abbrev pub apply_text_properties_mapping : Concordance ConcLine → Concordance ConcLine
  apply_text_properties_mapping res = record res { lines = map_lines res.lines }
