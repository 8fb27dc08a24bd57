-- ===== src/Worker/NormsCache.antt =====
-- worker/normscache.go: the sizes of text types that a worker has read, by corpus and attribute.
pub mod Laws
use mquery.Base.{Bool, true, false, List, [], ◌∷◌, Option, none, some, if◌then◌else◌}
use mquery.Base.Text.{String, str_eq}
use mquery.Base.Join.{join}
use mquery.Worker.FreqResult.{Norms}

-- `none` is a nil map.
pub record NormsCache : Type 0 where
  pub entries : List (String × Option Norms)

abbrev pub mk_key : String → String → String
mk_key corp sattr = join corp "#" sattr

unfoldable pub find : String → List (String × Option Norms) → Option (Option Norms)
find k [] = none
find k ((j, v) ∷ rest) = if str_eq j k then some v else find k rest

-- An assignment to a key of the map.
unfoldable pub put :
    String → Option Norms → List (String × Option Norms) → List (String × Option Norms)
put k v [] = (k, v) ∷ []
put k v ((j, w) ∷ rest) = if str_eq j k then (k, v) ∷ rest else (j, w) ∷ put k v rest

abbrev norms_of : Option Norms → Norms
norms_of none = []
norms_of (some n) = n

-- The map and whether it was there.
unfoldable pub get : NormsCache → String → String → Norms × Bool
unfolding find
get nc corp sattr = elim (find (mk_key corp sattr) nc.entries) [
  | none ↦ ([], false)
  | some v ↦ (norms_of v, true)
]

abbrev stored : Option (Option Norms) → Option Norms → Option Norms
stored none none = some []
stored _ values = values

unfoldable pub set : NormsCache → String → String → Option Norms → NormsCache
unfolding find put
set nc corp sattr values =
    let key = mk_key corp sattr in
    record { entries = put key (stored (find key nc.entries) values) nc.entries }

abbrev pub new_norms_cache : NormsCache
new_norms_cache = record { entries = [] }
