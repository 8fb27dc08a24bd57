-- ===== src/Server/Monitoring.antt =====
-- monitoring/tswriter.go: `Write`, and JobLog of rdb/general.go. A number of seconds is a parameter.
use mquery.Base.{ℕ, Bool, List, [], ◌∷◌, Option, none, some, if◌then◌else◌}
use mquery.Base.Text.{String}
use mquery.Errors.{GoError}

-- `Time` and `F` are time.Time and float64.
pub record JobLog (Time : Type 0) : Type 0 where
  pub worker_id : String
  pub func : String
  pub begin_ : Time
  pub end_ : Time
  pub error : Option GoError

-- A row of the table of operations or of that of functions, with its time.
pub data Entry (Time F : Type 0) : Type 0 where
  operation : Time → ℕ → ℕ → F → Entry Time F
  called_func : Time → String → ℕ → Entry Time F

abbrev pub num_errors : Option GoError → ℕ
num_errors none = 0
num_errors (some e) = 1

-- The entries that are sent, in order; nothing without a writer of tables.
unfoldable pub write :
    {Time F : Type 0} → (Time → Time → F) → Bool → Time → Time → JobLog Time → List (Entry Time F)
write seconds_between has_writer now later item =
    if has_writer
    then operation now 1 (num_errors item.error) (seconds_between item.begin_ item.end_)
      ∷ called_func later item.func 1
      ∷ []
    else []
