-- ===== src/Tests.antt =====
-- Concrete parameters for the tests.
mod Merging
mod Binning
mod Worker
mod Rdb
mod Files
mod Actions
mod Server
mod Collocations
mod Corpora
mod Stream
mod Handlers
mod Routes
mod Bindings
mod Autoconf
mod Mcp
mod Events
mod Info
use mquery.Base.{
  ℕ, ◌+◌, ◌-◌, ◌*◌, ◌/◌, max, ltb, Bool, false, Option, some, none, List, [], ◌∷◌, if◌then◌else◌,
}
use mquery.Base.Float.{Floats}
use mquery.Base.Text.{String, str_eq}
use mquery.Results.{FreqDistribItem, FreqDistrib}

-- Natural numbers in the place of floating-point ones.
abbrev pub nat_floats : Floats
nat_floats = record {
  Float = ℕ;
  of_int = λ n. n;
  plus = λ a b. a + b;
  minus = λ a b. a - b;
  times = λ a b. a * b;
  over = λ a b. a / b;
  sqrt = λ a. a;
  abs = λ a. a;
  max = λ a b. max a b;
  less = λ a b. ltb a b;
}

abbrev pub item : String → ℕ → ℕ → ℕ → FreqDistribItem ℕ
item w f b i = record { word = w; freq = f; base = b; ipm = i }

abbrev pub distrib : ℕ → List (FreqDistribItem ℕ) → FreqDistrib ℕ
distrib n items = record {
  conc_size = n;
  corpus_size = 1000;
  subc_size = 1000;
  freqs = items;
  fcrit = "word/i 0~0>0";
  examples_query_tpl = "";
  error = none;
}

-- The years that occur in the tests.
abbrev pub year : String → Option ℕ
year w = if str_eq w "1999" then some 29 else if str_eq w "2000" then some 30 else none
