-- ===== src/Mango/Bindings.antt =====
-- mango/mango.go: the functions that call one function of C and turn its answer into Go values. A
-- text, a number and a vector of C are their values; the release of memory is left out.
pub mod Vectors
use Prim.Native.String.{◌++◌}
use mquery.Base.{ℕ, zero, suc, ◌+◌, List, [], ◌∷◌, Option, none, some, if◌then◌else◌}
use mquery.Base.Int.{ℤ, pos}
use mquery.Base.Text.{String, str_eq}
use mquery.Errors.{GoError, plain_error, Result, ok, err}
use mquery.Rdb.Query.{CollocationsArgs}
use mquery.Results.Types.{GoCollItem}
use mquery.Worker.FreqResult.{Freqs, Norms}
use mquery.Worker.Actions.{GoColls, GoConcSize, Manatee}
use mquery.Mango.Multiword.{normalize_multiword}

-- A vector or an array of C: its size and the access to an element.
pub record Vector (A : Type 0) : Type 0 where
  pub size : ℕ
  pub element : ℕ → A

-- The loops `for i := 0; i < size; i++`, from an index on.
unfoldable pub read_from : {A : Type 0} → (ℕ → A) → ℕ → ℕ → List A
read_from element i zero = []
read_from element i (suc n) = element i ∷ read_from element (suc i) n

unfoldable pub int_vector_to_slice : Vector ℕ → List ℕ
unfolding read_from
int_vector_to_slice vector = read_from vector.element 0 vector.size

unfoldable pub str_vector_to_slice : Vector String → List String
unfolding read_from
str_vector_to_slice vector = read_from (λ i. normalize_multiword (vector.element i)) 0 vector.size

-- What a function of C returns; the value is used if `err` is nil.
pub record CValue (A : Type 0) : Type 0 where
  pub value : A
  pub err : Option String

unfoldable pub go_value : {A : Type 0} → CValue A → Result A
go_value v = elim v.err [ none ↦ ok v.value | some m ↦ err (plain_error m) ]

pub record FreqsRetVal : Type 0 where
  pub words : Vector String
  pub freqs : Vector ℕ
  pub conc_size : ℕ
  pub corpus_size : ℕ
  pub search_size : ℕ
  pub err : Option String

-- An item that C gives, with the score before it is rounded.
pub record CollVal (F : Type 0) : Type 0 where
  pub word : String
  pub score : F
  pub freq : ℕ

pub record CollsRetVal (F : Type 0) : Type 0 where
  pub items : Vector (CollVal F)
  pub conc_size : ℕ
  pub corpus_size : ℕ
  pub search_size : ℕ
  pub err : Option String

-- The functions of C. `code` of a measure is its character. The pairs of an iterator over the sizes
-- are a list. `round4` is maths.RoundToN with four decimals.
pub record CLibrary (F : Type 0) : Type 0 where
  pub corpus_size : String → CValue ℕ
  pub concordance_size : String → String → String → CValue (GoConcSize F)
  pub compile_subc : String → String → String → Option String
  pub freq_dist : String → String → String → String → ℤ → FreqsRetVal
  pub collocations : CollocationsArgs → String → CollsRetVal F
  pub sizes_of_values : String → String → String → CValue (List (String × ℕ))
  -- get_corpus_conf of the corpus that open_corpus returns
  pub corpus_conf : String → String → CValue String
  pub posattr_size : String → String → CValue ℕ
  pub struct_size : String → String → CValue ℕ
  pub corp_region : String → ℕ → ℕ → String → String → CValue String
  pub round4 : F → F

-- strings.Join with a comma
unfoldable pub join_commas : List String → String
join_commas [] = ""
join_commas (s ∷ []) = s
join_commas (s ∷ t ∷ rest) = s ++ "," ++ join_commas (t ∷ rest)

-- An assignment to a key of a map.
unfoldable pub put_size : String → ℕ → Norms → Norms
put_size k n [] = (k, n) ∷ []
put_size k n ((j, m) ∷ rest) =
    let others = put_size k n rest in if str_eq j k then (k, n) ∷ rest else (j, m) ∷ others

unfoldable pub put_sizes : List (String × ℕ) → Norms → Norms
unfolding put_size
put_sizes [] norms = norms
put_sizes ((k, n) ∷ rest) norms = put_sizes rest (put_size k n norms)

module _ {F : Type 0} (c : CLibrary F) where
  unfoldable pub calc_freq_dist : String → String → String → String → ℤ → Result Freqs
  unfolding str_vector_to_slice int_vector_to_slice
  calc_freq_dist corpus_id subc_id query fcrit flimit =
      let ans = c.freq_dist corpus_id subc_id query fcrit flimit in
      elim ans.err [
        | some m ↦ err (plain_error m)
        | none ↦ ok (record {
          words = str_vector_to_slice ans.words;
          freqs = int_vector_to_slice ans.freqs;
          conc_size = ans.conc_size;
          corpus_size = ans.corpus_size;
          subc_size = ans.search_size;
        })
      ]

  abbrev pub coll_item : CollVal F → GoCollItem F
  coll_item tmp = record { word = tmp.word; score = c.round4 tmp.score; freq = tmp.freq }

  unfoldable pub get_collcations : CollocationsArgs → String → Result (GoColls F)
  unfolding read_from
  get_collcations args measure =
      let colls = c.collocations args measure in
      elim colls.err [
        | some m ↦ err (plain_error m)
        | none ↦ ok (record {
          colls = read_from (λ i. coll_item (colls.items.element i)) 0 colls.items.size;
          conc_size = colls.conc_size;
          corpus_size = colls.corpus_size;
          subc_size = colls.search_size;
        })
      ]

  abbrev sized : Result (List (String × ℕ)) → Result Norms
  sized (ok sizes) = ok (put_sizes sizes [])
  sized (err e) = err e

  -- The loop of GetTextTypesNorms.
  unfoldable pub attr_values_sizes : String → String → String → Result Norms
  unfolding put_sizes go_value
  attr_values_sizes corpus_path strct attr =
      sized (go_value (c.sizes_of_values corpus_path strct attr))

  abbrev pub compile_subc_freqs : String → String → String → Option GoError
  compile_subc_freqs corpus_path subc_path attr = elim (c.compile_subc corpus_path subc_path attr) [
    | none ↦ none
    | some m ↦ some (plain_error m)
  ]

  unfoldable pub get_corpus_size : String → Result ℕ
  unfolding go_value
  get_corpus_size corpus_path = go_value (c.corpus_size corpus_path)

  unfoldable pub get_conc_size : String → String → String → Result (GoConcSize F)
  unfolding go_value
  get_conc_size corpus_path subc_path query =
      go_value (c.concordance_size corpus_path subc_path query)

  unfoldable pub get_corpus_conf : String → String → Result String
  unfolding go_value
  get_corpus_conf corpus_path prop = go_value (c.corpus_conf corpus_path prop)

  unfoldable pub get_pos_attr_size : String → String → Result ℕ
  unfolding go_value
  get_pos_attr_size corpus_path name = go_value (c.posattr_size corpus_path name)

  unfoldable pub get_struct_size : String → String → Result ℕ
  unfolding go_value
  get_struct_size corpus_path name = go_value (c.struct_size corpus_path name)

  unfoldable pub get_corp_region : String → ℕ → ℕ → List String → List String → Result String
  unfolding go_value join_commas
  get_corp_region corpus_path lft_ctx rgt_ctx structs attrs =
      go_value (c.corp_region corpus_path lft_ctx rgt_ctx (join_commas attrs) (join_commas structs))

  -- The interface of a worker, with these functions for those of its fields that they stand for.
  abbrev pub bound : {Line Overview : Type 0} → Manatee Line Overview F → Manatee Line Overview F
  bound lib = record lib {
    get_corpus_size = get_corpus_size;
    get_corpus_conf = get_corpus_conf;
    calc_freq_dist = calc_freq_dist;
    attr_values_sizes = attr_values_sizes;
    get_collocations = get_collcations;
    get_conc_size = get_conc_size;
    compile_subc_freqs = compile_subc_freqs;
    get_corp_region = get_corp_region;
  }
