-- ===== src/Worker/NormsCache/Laws.antt =====
-- What the cache gives back.
use mquery.Base.{
  ◌≡◌, refl, true, List, [], ◌∷◌, Option, none, some, inl, inr, Bool-cases, arith, if◌then◌else◌,
}
use mquery.Base.Text.{String, str_eq, str_eq_iff}
use mquery.Base.Join.{is_free, join_inj}
use mquery.Worker.FreqResult.{Norms}
use mquery.Worker.NormsCache.{NormsCache, mk_key, find, put, get, set, stored}

find-put :
    (k j : String) (v : Option Norms) (m : List (String × Option Norms))
    → find j (put k v m) ≡ (if str_eq k j then some v else find j m)
unfolding find put
find-put k j v [] = refl
find-put k j v ((i, w) ∷ m) =
    ground (arith, str_eq_iff k j, str_eq_iff i k, str_eq_iff i j, find-put k j v m)

stored-some : (o : Option (Option Norms)) (n : Norms) → stored o (some n) ≡ some n
stored-some none n = refl
stored-some (some v) n = refl

-- No corpus path with a `#` in it, so that keys of different pairs differ.
abbrev pub HasNoHash : String → Type 0
HasNoHash corp = is_free b'#' corp ≡ true

-- After a map of norms is set, the cache gives it for its corpus and attribute, and for any other pair
-- what it gave before, if neither path holds a `#`.
pub get-set :
    (nc : NormsCache) (c a d b : String) (n : Norms)
    → HasNoHash c
    → HasNoHash d
    → (get (set nc c a (some n)) c a ≡ (n, true))
      × ((¬ ((c ≡ d) × (a ≡ b))) → get (set nc c a (some n)) d b ≡ get nc d b)
unfolding get set
get-set nc c a d b n hc hd =
    let put_some = λ (k : String). find-put (mk_key c a) k (some n) nc.entries in
    rw (stored-some (find (mk_key c a) nc.entries) n) (
      ground (arith, put_some (mk_key c a), str_eq_iff (mk_key c a) (mk_key c a)),
      λ ne. elim (Bool-cases (str_eq (mk_key c a) (mk_key d b))) [
        | inl e ↦
            absurd (ne (join_inj "#" c a d b hc hd ((str_eq_iff (mk_key c a) (mk_key d b)).0 e)))
        | inr e ↦ ground (arith, put_some (mk_key d b))
      ],
    )
