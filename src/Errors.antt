-- ===== src/Errors.antt =====
-- merror/errors.go, `IsUserError` of rdb/general.go and `wrapError` of worker/common.go: the kinds of
-- errors and how they travel from a worker to the client.
pub mod Wrap
pub mod Cases
use Prim.Native.String.{◌++◌}
use Prim.Native.Char.{code}
use mquery.Base.{
  ℕ, ◌+◌, Bool, true, false, ◌&&◌, ◌||◌, List, [], ◌∷◌, map, if◌then◌else◌, leb, ◌==◌,
}
use mquery.Base.Text.{String}

-- An error value of Go: the four types of merror, pointers to two of them, and any other type, which
-- here is its message.
pub data GoError : Type 0 where
  input_error : String → GoError
  input_error_ptr : String → GoError
  internal_error : String → GoError
  internal_error_ptr : String → GoError
  recovered_error : String → GoError
  timeout_error : String → GoError
  plain_error : String → GoError

-- err.Error()
pub message : GoError → String
message (input_error m) = m
message (input_error_ptr m) = m
message (internal_error m) = m
message (internal_error_ptr m) = m
message (recovered_error m) = m
message (timeout_error m) = m
message (plain_error m) = m

-- The code points of a text.
abbrev pub codes : String → List ℕ
codes String.[] = []
codes (String.◌∷◌ c s) = code c ∷ codes s

-- strings.ToLower, for the letters of ASCII. No other letter has one of the sought text as its lower
-- case.
pub to_lower : ℕ → ℕ
to_lower c = if leb b'A' c && leb c b'Z' then c + 32 else c

unfoldable pub is_prefix : List ℕ → List ℕ → Bool
is_prefix [] ys = true
is_prefix (x ∷ xs) [] = false
is_prefix (x ∷ xs) (y ∷ ys) = x == y && is_prefix xs ys

-- strings.Contains
pub contains_codes : List ℕ → List ℕ → Bool
unfolding is_prefix
contains_codes [] p = is_prefix p []
contains_codes (y ∷ ys) p = is_prefix p (y ∷ ys) || contains_codes ys p

pub mentions_syntax_error : String → Bool
unfolding contains_codes to_lower
mentions_syntax_error m = contains_codes (map to_lower (codes m)) (codes "syntax error,")

pub is_user_error : GoError → Bool
unfolding mentions_syntax_error message
is_user_error (input_error m) = true
is_user_error (input_error_ptr m) = true
is_user_error err = mentions_syntax_error (message err)

pub wrap_error : GoError → GoError
unfolding message
wrap_error (input_error m) = input_error m
wrap_error (recovered_error m) = recovered_error m
wrap_error (timeout_error m) = timeout_error m
wrap_error (internal_error_ptr m) = internal_error_ptr m
wrap_error err = internal_error (message err)

-- What a recovered panic was called with; another value is given by the name of its type.
pub data PanicValue : Type 0 where
  panic_error : GoError → PanicValue
  panic_text : String → PanicValue
  panic_other : String → PanicValue

pub panic_value_to_err : PanicValue → GoError
unfolding message
panic_value_to_err (panic_error e) = plain_error ("recovered panic: " ++ message e)
panic_value_to_err (panic_text s) = plain_error ("recovered panic: " ++ s)
panic_value_to_err (panic_other t) = plain_error ("recovered panic from an error of type " ++ t)

-- A Go function's value and error, where the value is used only if the error is nil.
pub data Result {ℓ} (A : Type ℓ) : Type ℓ where
  ok : A → Result A
  err : GoError → Result A
