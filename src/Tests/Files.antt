-- ===== src/Tests/Files.antt =====
-- Chunks of a corpus, their files, the values that Manatee lists, measures and errors.
use mquery.Base.{ℕ, ◌≡◌, refl, List, [], ◌∷◌, map, arith, true, false, Option, none}
use mquery.Base.Int.{pos}
use mquery.Base.Text.{String}
use mquery.Edit.Split.{split, Chunk, split_corpus}
use mquery.Edit.Split.Cover.{Covers, split_corpus-Covers}
use mquery.Mango.StructAttrs.{
  StructAttrRow, get_struct_attr_values, triple, triples_of, triples-get_struct_attr_values,
}
use mquery.Errors.{GoError}

abbrev path_of : ℕ → String
path_of i = "/chunks/chunk.subc"

abbrev writes : String → List ℕ → Option GoError
writes path bytes = none

split_corpus-Covers_example :
    (out : List Chunk) × (split_corpus path_of writes (pos 0) none 250 (pos 100) ≡ split out)
    × Covers 100 0 250 out
split_corpus-Covers_example =
    split_corpus-Covers path_of writes (pos 0) 250 100 (λ p b. refl) (omega arith) (omega arith)

abbrev rows : List StructAttrRow
rows =
    record { struct_name = "doc"; attr_name = "genre"; value = "fiction"; truncated = false }
    ∷ record { struct_name = "doc"; attr_name = "genre"; value = "news"; truncated = false }
    ∷ record { struct_name = "s"; attr_name = "id"; value = "1"; truncated = true }
    ∷ []

triples-get_struct_attr_values_example : triples_of (get_struct_attr_values rows) ≡ map triple rows
triples-get_struct_attr_values_example = triples-get_struct_attr_values rows
