-- ===== src/Mango/StructAttrs.antt =====
-- mango/mango.go: `GetStructAttrValues` groups the rows that the C function returns, one for each
-- value of a structural attribute.
use mathlib.Core.List.{append_assoc, append-nil}
use mquery.Base.{
  ◌≡◌, refl, sym, ◌∙◌, ap, Bool, true, ◌&&◌, List, [], ◌∷◌, ◌++◌, map, if◌then◌else◌, inl, inr,
  arith, Bool-cases,
}
use mquery.Base.Text.{String, str_eq, str_eq_iff}

pub record StructAttrRow : Type 0 where
  pub struct_name : String
  pub attr_name : String
  pub value : String
  pub truncated : Bool

pub record GoStructAttr : Type 0 where
  pub strct : String
  pub attr : String
  pub values : List String
  pub is_truncated : Bool

abbrev pub new_attr : StructAttrRow → GoStructAttr
new_attr r = record {
  strct = r.struct_name;
  attr = r.attr_name;
  values = r.value ∷ [];
  is_truncated = r.truncated;
}

abbrev pub is_current : GoStructAttr → StructAttrRow → Bool
is_current g r = str_eq g.strct r.struct_name && str_eq g.attr r.attr_name

-- One turn of the loop: `current` points to the last group.
unfoldable pub add_row : List GoStructAttr → StructAttrRow → List GoStructAttr
add_row [] r = new_attr r ∷ []
add_row (g ∷ []) r =
    if is_current g r
    then record g { values = g.values ++ r.value ∷ [] } ∷ []
    else g ∷ new_attr r ∷ []
add_row (g ∷ h ∷ gs) r = g ∷ add_row (h ∷ gs) r

unfoldable pub add_rows : List GoStructAttr → List StructAttrRow → List GoStructAttr
unfolding add_row
add_rows ret [] = ret
add_rows ret (r ∷ rs) = add_rows (add_row ret r) rs

unfoldable pub get_struct_attr_values : List StructAttrRow → List GoStructAttr
unfolding add_rows
get_struct_attr_values rows = add_rows [] rows

-- The structure, attribute and value of a row.
pub record Triple : Type 0 where
  pub strct : String
  pub attr : String
  pub value : String

abbrev pub triple : StructAttrRow → Triple
triple r = record { strct = r.struct_name; attr = r.attr_name; value = r.value }

abbrev pub spread : String → String → List String → List Triple
spread s a [] = []
spread s a (v ∷ vs) = record { strct = s; attr = a; value = v } ∷ spread s a vs

-- The groups written out as rows again.
abbrev pub triples_of : List GoStructAttr → List Triple
triples_of [] = []
triples_of (g ∷ gs) = spread g.strct g.attr g.values ++ triples_of gs

spread-append :
    (s a v : String) (vs : List String)
    → spread s a (vs ++ v ∷ []) ≡ spread s a vs ++ record { strct = s; attr = a; value = v } ∷ []
spread-append s a v [] = refl
spread-append s a v (w ∷ vs) =
    ap (◌∷◌ (record { strct = s; attr = a; value = w })) (spread-append s a v vs)

current_triple :
    (g : GoStructAttr) (r : StructAttrRow)
    → is_current g r ≡ true
    → ◌≡◌ {A = Triple} (record { strct = g.strct; attr = g.attr; value = r.value }) (triple r)
current_triple g r e =
    ground (arith, str_eq_iff g.strct r.struct_name, str_eq_iff g.attr r.attr_name)

triples-add_row :
    (gs : List GoStructAttr) (r : StructAttrRow)
    → triples_of (add_row gs r) ≡ triples_of gs ++ triple r ∷ []
unfolding add_row
triples-add_row [] r = refl
triples-add_row (g ∷ []) r = elim (Bool-cases (is_current g r)) [
  | inl e ↦
      let old = spread g.strct g.attr g.values in
      rw (e, append-nil old, append-nil (spread g.strct g.attr (g.values ++ r.value ∷ [])))
        (spread-append g.strct g.attr r.value g.values
          ∙ ap (λ (t : Triple). old ++ t ∷ []) (current_triple g r e))
  | inr e ↦ rw e (sym (append_assoc (spread g.strct g.attr g.values) [] (triple r ∷ [])))
]
triples-add_row (g ∷ h ∷ gs) r =
    rw (triples-add_row (h ∷ gs) r)
      (sym (append_assoc (spread g.strct g.attr g.values) (triples_of (h ∷ gs)) (triple r ∷ [])))

triples-add_rows :
    (gs : List GoStructAttr) (rs : List StructAttrRow)
    → triples_of (add_rows gs rs) ≡ triples_of gs ++ map triple rs
unfolding add_rows
triples-add_rows gs [] = sym (append-nil (triples_of gs))
triples-add_rows gs (r ∷ rs) =
    triples-add_rows (add_row gs r) rs
    ∙ rw (triples-add_row gs r) (append_assoc (triples_of gs) (triple r ∷ []) (map triple rs))

-- Written out as rows again, the groups are the rows that came in, in their order.
pub triples-get_struct_attr_values :
    (rows : List StructAttrRow) → triples_of (get_struct_attr_values rows) ≡ map triple rows
unfolding get_struct_attr_values
triples-get_struct_attr_values rows = triples-add_rows [] rows
