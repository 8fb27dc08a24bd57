-- ===== src/Worker/TextTypes.antt =====
-- worker/actions.go: the actions on text types and on the data for collocations.
pub mod Transparent
use mquery.Base.{ℕ, Bool, true, false, not, ◌||◌, List, [], ◌∷◌, Option, none, some, if◌then◌else◌}
use mquery.Base.Text.{String}
use mquery.Errors.{GoError, Result, ok, err}
use mquery.Mango.{get_text_types_norms}
use mquery.Mango.StructAttrs.{GoStructAttr, get_struct_attr_values}
use mquery.Rdb.Query.{CalcCollFreqDataArgs, TextTypeNormsArgs, TextTypesAvailValuesArgs}
use mquery.Results.Types.{CollFreqData, TextTypeNorms, TextTypesAvailValues}
use mquery.Worker.Actions.{Manatee}
use mquery.Worker.NormsCache.{NormsCache, get, set}

-- A loop that ends at the first error of its calls.
unfoldable pub first_error : (String → Option GoError) → List String → Option GoError
first_error call [] = none
first_error call (x ∷ xs) = elim (call x) [ some e ↦ some e | none ↦ first_error call xs ]

-- The values that are kept by the loop of `textTypesAvailValues`.
unfoldable pub kept_attributes : Bool → List GoStructAttr → List GoStructAttr
kept_attributes skip [] = []
kept_attributes skip (v ∷ vs) =
    let rest = kept_attributes skip vs in if not v.is_truncated || not skip then v ∷ rest else rest

module _ {Line Overview F : Type 0} (lib : Manatee Line Overview F) where
  unfoldable pub calc_coll_freq_data_of : CalcCollFreqDataArgs → CollFreqData
  unfolding first_error
  calc_coll_freq_data_of args =
      elim (first_error (lib.compile_subc_freqs args.corpus_path args.subc_path) args.attrs) [
        | some e ↦ record { error = some e }
        | none ↦ record {
          error =
              first_error (lib.mktokencov args.mktokencov_path args.subc_path args.corpus_path)
                args.structs;
        }
      ]

  -- The norms are read at most once for a pair, and kept.
  unfoldable pub text_type_norms_of : TextTypeNormsArgs → NormsCache → TextTypeNorms × NormsCache
  text_type_norms_of args nc =
      let (norms, found_norms) = get nc args.corpus_path args.struct_attr in
      elim found_norms [
        | true ↦ (record { sizes = norms; error = none }, nc)
        | false ↦
            elim (get_text_types_norms lib.attr_values_sizes args.corpus_path args.struct_attr) [
              | err e ↦ (record { sizes = []; error = some e }, nc)
              | ok read ↦ (
                record { sizes = read; error = none },
                set nc args.corpus_path args.struct_attr (some read),
              )
            ]
      ]

  unfoldable pub text_types_avail_values_of : TextTypesAvailValuesArgs → TextTypesAvailValues
  unfolding kept_attributes
  text_types_avail_values_of args =
      elim (lib.struct_attr_rows args.corpus_path args.max_value_list_size) [
        | err e ↦ record { attributes = []; error = some e }
        | ok rows ↦ record {
          attributes = kept_attributes args.skip_truncated (get_struct_attr_values rows);
          error = none;
        }
      ]
