-- ===== src/Mcp/Segments.antt =====
-- The paths of the requests to the API.
use Prim.Native.String.{◌++◌}
use mquery.Base.{◌≡◌, refl, Bool, true, not, ◌&&◌, List, [], ◌∷◌, arith, inl, inr, Bool-cases}
use mquery.Base.Text.{String, str_eq}
use mquery.Errors.{ok}
use mquery.Mcp.{has_reserved, join_chunks}

-- A text that is one segment of a path.
abbrev pub is_segment : String → Bool
is_segment c = not (str_eq c "") && not (has_reserved c)

unfoldable pub are_segments : List String → Bool
are_segments [] = true
are_segments (c ∷ cs) = is_segment c && are_segments cs

-- A path with a slash before each of some texts.
unfoldable pub extended : String → List String → String
extended path [] = path
extended path (c ∷ cs) = extended (path ++ "/" ++ c) cs

-- The chunks are joined exactly if each is a segment, and then with a slash before each.
pub join_chunks-segments :
    (path : String) (cs : List String) (p : String)
    → join_chunks path cs ≡ ok p
    → (are_segments cs ≡ true) × (p ≡ extended path cs)
unfolding join_chunks are_segments extended
join_chunks-segments path [] p h = (refl, cc)
join_chunks-segments path (c ∷ cs) p h = elim (Bool-cases (str_eq c "")) [
  | inl e ↦ absurd (ground (arith, e, h))
  | inr e ↦ elim (Bool-cases (has_reserved c)) [
    | inl r ↦ absurd (ground (arith, e, r, h))
    | inr r ↦
        let (all, same) = join_chunks-segments (path ++ "/" ++ c) cs p (ground (arith, e, r, h)) in
        (ground (arith, e, r, all), same)
  ]
]
