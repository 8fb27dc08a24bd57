-- ===== src/Worker/FreqResult.antt =====
-- worker/common.go: `CompileFreqResult`. A map is the list of its entries in the order in which
-- `range` meets them, which Go leaves open.
pub mod Top
pub mod Norms
use mquery.Base.{
  ℕ, zero, suc, Bool, true, false, ◌&&◌, not, List, [], ◌∷◌, ◌++◌, Option, none, some,
  if◌then◌else◌, ltb, length, take,
}
use mquery.Base.Word.{slt64}
use mquery.Base.Int.{ℤ, pos, negsuc}
use mquery.Base.Float.{Floats}
use mquery.Base.Sort.{Sorter}
use mquery.Base.Text.{around, String, str_eq}
use mquery.Results.{FreqDistribItem, ipm_of}

-- The vectors of Manatee that are read here.
pub record Freqs : Type 0 where
  pub words : List String
  pub freqs : List ℕ
  pub conc_size : ℕ
  pub corpus_size : ℕ
  pub subc_size : ℕ

abbrev pub Norms : Type 0
Norms = List (String × ℕ)

unfoldable pub get_norm : String → Norms → Option ℕ
get_norm w [] = none
get_norm w ((k, n) ∷ rest) = if str_eq k w then some n else get_norm w rest

unfoldable pub is_text_types : Norms → Bool
is_text_types [] = false
is_text_types _ = true

-- A returned error comes with the items gathered before it.
pub data Compiled (A : Type 0) : Type 0 where
  compiled : A → Compiled A
  failed : A → String → Compiled A
  panicked : Compiled A

-- ans[i].Freq > ans[j].Freq
abbrev pub more_frequent : {F : Type 0} → FreqDistribItem F → FreqDistribItem F → Bool
more_frequent a b = slt64 b.freq a.freq

module _ (f32 : Floats) where
  open f32 use {Float}

  abbrev pub freq_item : String → ℕ → ℕ → FreqDistribItem Float
  freq_item w freq norm = record { word = w; freq = freq; base = norm; ipm = ipm_of f32 freq norm }

  -- The item of a value of the attribute that the query does not match.
  abbrev pub zero_item : String → ℕ → FreqDistribItem Float
  zero_item w norm = record { word = w; freq = 0; base = norm; ipm = f32.of_int 0 }

  abbrev keep_positive :
      String → ℕ → ℕ → List (FreqDistribItem Float) → List (FreqDistribItem Float)
  keep_positive w freq norm ans = if slt64 0 norm then ans ++ freq_item w freq norm ∷ [] else ans

  -- The loop over the frequencies; an index past the words panics.
  unfoldable pub matched_items :
      Norms
      → ℕ
      → List (FreqDistribItem Float)
      → List ℕ
      → List String
      → Compiled (List (FreqDistribItem Float))
  unfolding is_text_types
  matched_items norms corp_size ans [] words = compiled ans
  matched_items norms corp_size ans (f ∷ fs) [] = panicked
  matched_items norms corp_size ans (f ∷ fs) (w ∷ ws) = elim (is_text_types norms) [
    | false ↦ matched_items norms corp_size (keep_positive w f corp_size ans) fs ws
    | true ↦ elim (get_norm w norms) [
      | none ↦ failed ans (around "cannot find norm for `" w "`")
      | some norm ↦ matched_items norms corp_size (keep_positive w f norm ans) fs ws
    ]
  ]

  -- presentValues: the words of the items so far.
  unfoldable pub is_present : List (FreqDistribItem Float) → String → Bool
  is_present [] w = false
  is_present (v ∷ vs) w = if str_eq v.word w then true else is_present vs w

  -- The loop over the norms; `present` are the items of the loop before.
  unfoldable pub absent_items : List (FreqDistribItem Float) → Norms → List (FreqDistribItem Float)
  unfolding is_present
  absent_items present [] = []
  absent_items present ((k, n) ∷ rest) =
      let items = absent_items present rest in
      if is_present present k then items else zero_item k n ∷ items

  module _ (sort : Sorter (more_frequent {F = Float})) where
    -- ans[:lenLimit]
    unfoldable pub cut_sorted :
        ℤ → List (FreqDistribItem Float) → Compiled (List (FreqDistribItem Float))
    cut_sorted (negsuc n) ans = panicked
    cut_sorted (pos n) ans =
        compiled (take (if ltb n (length ans) then n else length ans) (sort.run ans))

    unfoldable pub compile_freq_result :
        Freqs → ℕ → ℤ → Norms → Compiled (List (FreqDistribItem Float))
    unfolding matched_items absent_items cut_sorted
    compile_freq_result freqs corp_size max_items norms =
        elim (matched_items norms corp_size [] freqs.freqs freqs.words) [
          | panicked ↦ panicked
          | failed ans e ↦ failed ans e
          | compiled ans ↦ cut_sorted max_items (ans ++ absent_items ans norms)
        ]
