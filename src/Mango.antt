-- ===== src/Mango.antt =====
-- mango: the Go side of the bindings to Manatee. The calls of the C functions are parameters.
pub mod Measure
pub mod StructAttrs
pub mod Concordance
pub mod Bindings
pub mod Multiword
use Prim.Native.String.{◌++◌}
use mquery.Base.{ℕ, List, [], ◌∷◌}
use mquery.Base.Text.{String, split}
use mquery.Errors.{Result, ok, err, input_error}
use mquery.Worker.FreqResult.{Norms}

-- GetTextTypesNorms, for the call that reads the sizes of a structure's attribute.
pub get_text_types_norms :
    (String → String → String → Result Norms) → String → String → Result Norms
get_text_types_norms attr_values_sizes corpus_path attr = elim (split attr ".") [
  | strct ∷ name ∷ [] ↦ attr_values_sizes corpus_path strct name
  | _ ↦ err (input_error ("invalid attribute format in `" ++ attr ++ "` (must be `struct.attr`)"))
]
