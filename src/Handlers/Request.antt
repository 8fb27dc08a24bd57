-- ===== src/Handlers/Request.antt =====
-- The request and the response of an action: the arguments of the URL, the queries that the action
-- publishes, in order, and what it writes. The texts of error messages are left out.
use mquery.Base.{ℕ, Bool, true, false, List, [], ◌∷◌, Option, none, some, if◌then◌else◌}
use mquery.Base.Int.{ℤ}
use mquery.Base.Text.{String, str_eq}
use mquery.Rdb.Query.{Args}
use mquery.Handlers.Parallel.{int_arg}

-- ctx.Request.URL.Query(), the parameters of the path included, with the first value of each name.
abbrev pub Url : Type 0
Url = List (String × String)

-- An argument; `none` is one that is not there.
unfoldable pub arg : String → Url → Option String
arg name [] = none
arg name ((k, v) ∷ rest) = if str_eq k name then some v else arg name rest

abbrev pub or_text : String → Option String → String
or_text dflt none = dflt
or_text dflt (some v) = v

-- ctx.DefaultQuery, and ctx.Query with an empty default.
abbrev pub default_query : String → String → Url → String
default_query name dflt url = or_text dflt (arg name url)

abbrev pub query_of : String → Url → String
query_of name url = default_query name "" url

abbrev pub is_set : String → Url → Bool
is_set name url = str_eq (query_of name url) "1"

-- What is written: an error with its status, or a result.
pub data Write (B : Type 0) : Type 0 where
  error_status : ℕ → Write B
  body : B → Write B

pub record Served (B : Type 0) : Type 0 where
  pub asked : List (String × Args)
  pub writes : List (Write B)
  pub panics : Bool

module _ {B : Type 0} where
  abbrev pub nothing : Served B
  nothing = record { asked = []; writes = []; panics = false }

  abbrev pub panicking : Served B
  panicking = record { asked = []; writes = []; panics = true }

  -- A write, and what the action does after it.
  abbrev pub writing : Write B → Served B → Served B
  writing w s = record s { writes = w ∷ s.writes }

  abbrev pub failing : ℕ → Served B
  failing status = writing (error_status status) nothing

  abbrev pub responding : B → Served B
  responding b = writing (body b) nothing

  abbrev pub asking : String → Args → Served B → Served B
  asking func args s = record s { asked = (func, args) ∷ s.asked }

-- `unireq.GetURLIntArgOrFail` and the tests of the same form: the error response, or what follows.
-- `status` is that of an argument that does not parse.
abbrev pub with_int :
    {B : Type 0} → (String → Option ℤ) → ℕ → String → ℤ → Url → (ℤ → Served B) → Served B
with_int atoi status name dflt url next = elim (int_arg atoi dflt (arg name url)) [
  | none ↦ failing status
  | some n ↦ next n
]
