-- ===== src/Tests/Bindings.antt =====
-- A library of C that gives two words.
use mquery.Base.{◌≡◌, refl, ℕ, zero, suc, [], ◌∷◌, none, some}
use mquery.Base.Int.{pos}
use mquery.Base.Text.{String}
use mquery.Errors.{ok}
use mquery.Worker.FreqResult.{Freqs}
use mquery.Mango.Multiword.{normalize_multiword}
use mquery.Mango.Bindings.{Vector, CValue, FreqsRetVal, CLibrary, calc_freq_dist}

normalize_multiword_example : normalize_multiword " New\tYork\n" ≡ "New York"
unfolding normalize_multiword
normalize_multiword_example = refl

abbrev words : Vector String
words = record { size = 2; element = λ i. elim i [ zero ↦ " New\tYork\n" | _ ↦ "x" ] }

abbrev numbers : Vector ℕ
numbers = record { size = 2; element = λ i. suc i }

abbrev answer : FreqsRetVal
answer = record {
  words = words;
  freqs = numbers;
  conc_size = 3;
  corpus_size = 10;
  search_size = 10;
  err = none;
}

abbrev no_text : CValue String
no_text = record { value = ""; err = some "not here" }

abbrev no_number : CValue ℕ
no_number = record { value = 0; err = some "not here" }

abbrev library : CLibrary ℕ
library = record {
  corpus_size = λ p. no_number;
  concordance_size = λ p s q. record {
    value = record { value = 0; arf = 0; corpus_size = 0 };
    err = some "not here";
  };
  compile_subc = λ p s a. none;
  freq_dist = λ p s q f n. answer;
  collocations = λ a m. record {
    items = record { size = 0; element = λ i. record { word = ""; score = 0; freq = 0 } };
    conc_size = 0;
    corpus_size = 0;
    search_size = 0;
    err = none;
  };
  sizes_of_values = λ p s a. record { value = []; err = none };
  corpus_conf = λ p a. no_text;
  posattr_size = λ p a. no_number;
  struct_size = λ p a. no_number;
  corp_region = λ p l r s a. no_text;
  round4 = λ x. x;
}

abbrev two_freqs : Freqs
two_freqs = record {
  words = "New York" ∷ "x" ∷ [];
  freqs = 1 ∷ 2 ∷ [];
  conc_size = 3;
  corpus_size = 10;
  subc_size = 10;
}

calc_freq_dist_example : calc_freq_dist library "a" "" "[]" "doc.id 0" (pos 1) ≡ ok two_freqs
unfolding calc_freq_dist normalize_multiword
calc_freq_dist_example = refl
