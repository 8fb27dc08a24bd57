-- ===== src/Rdb/Protocol/Counts.antt =====
-- Every query that was published is waited for or was answered, once.
use mquery.Base.{ℕ, suc, ◌+◌, ◌≤◌, ◌≡◌, refl, true, false, List, [], ◌∷◌, arith, if◌then◌else◌}
use mquery.Base.Text.{String, str_eq, str_eq_iff, contains}
use mquery.Rdb.Protocol.{
  Job, Answer, Net, remove_first, publish_query, publish_query_failed, try_next_query,
  publish_result, drop_query, publish_unnotified, give_up, dropped, unnotified, gave_up, receive,
  time_out, expire, Step, published, publish_failed, taken, finished, received, timed, expired,
  Reach, start, next, channels,
}

unfoldable pub count : String → List String → ℕ
count k [] = 0
count k (c ∷ cs) = let rest = count k cs in if str_eq c k then suc rest else rest

count-remove_first :
    (k c : String) (cs : List String)
    → contains cs c ≡ true
    → count k cs
      ≡ (if str_eq c k then suc (count k (remove_first c cs)) else count k (remove_first c cs))
unfolding count remove_first
count-remove_first k c [] h = cc
count-remove_first k c (x ∷ cs) h =
    ground (arith, count-remove_first k c cs, str_eq_iff x c, str_eq_iff x k, str_eq_iff c k)

abbrev pub answered : {R : Type 0} → List (String × Answer R) → List String
answered [] = []
answered ((c, a) ∷ rest) = c ∷ answered rest

count-absent : (k : String) (cs : List String) → contains cs k ≡ false → count k cs ≡ 0
unfolding count
count-absent k [] h = refl
count-absent k (c ∷ cs) h = ground (arith, count-absent k cs)

module _ {Q R : Type 0} where
  -- Of a channel: the goroutines that wait on it and the answers given are as many as its queries.
  abbrev pub IsAccounted : String → Net Q R → Type 0
  IsAccounted k s = count k s.waiting + count k (answered s.answers) ≡ count k (channels s.issued)

  pub try_next_query-same :
      (s : Net Q R)
      → ((try_next_query s).waiting ≡ s.waiting)
        × ((try_next_query s).answers ≡ s.answers)
        × ((try_next_query s).issued ≡ s.issued)
  unfolding try_next_query
  try_next_query-same s = ground arith

  pub drop_query-same :
      (s : Net Q R)
      → ((drop_query s).waiting ≡ s.waiting)
        × ((drop_query s).answers ≡ s.answers)
        × ((drop_query s).issued ≡ s.issued)
  unfolding drop_query
  drop_query-same s = ground arith

module _ {Q R : Type 0} (runs : Job Q → R → Type 0) where
  Step-IsAccounted :
      (k : String) {s t : Net Q R} → Step runs s t → IsAccounted k s → IsAccounted k t
  unfolding publish_query publish_query_failed publish_result publish_unnotified give_up receive
      time_out expire count
  Step-IsAccounted k {s} (published j f) h = ground arith
  Step-IsAccounted k {s} (publish_failed j) h = h
  Step-IsAccounted k {s} taken h = ground (arith, try_next_query-same s)
  Step-IsAccounted k {s} dropped h = ground (arith, drop_query-same s)
  Step-IsAccounted k {s} (unnotified j before after r e p) h = h
  Step-IsAccounted k {s} (gave_up j before after e) h = h
  Step-IsAccounted k {s} (finished j before after r e p) h = h
  Step-IsAccounted k {s} (received g c w i) h = ground (arith, count-remove_first k c s.waiting w)
  Step-IsAccounted k {s} (timed c w) h = ground (arith, count-remove_first k c s.waiting w)
  Step-IsAccounted k {s} (expired gone kept e) h = h

  Step-issued :
      (k : String) {s t : Net Q R}
      → Step runs s t
      → count k (channels s.issued) ≤ 1
      → count k (channels t.issued) ≤ 1
  unfolding publish_query publish_query_failed publish_result publish_unnotified give_up receive
      time_out expire count
  Step-issued k {s} (published j f) h =
      ground (arith, count-absent k (channels s.issued), str_eq_iff j.channel k)
  Step-issued k {s} (publish_failed j) h = h
  Step-issued k {s} taken h = ground (arith, try_next_query-same s)
  Step-issued k {s} dropped h = ground (arith, drop_query-same s)
  Step-issued k {s} (unnotified j before after r e p) h = h
  Step-issued k {s} (gave_up j before after e) h = h
  Step-issued k {s} (finished j before after r e p) h = h
  Step-issued k {s} (received g c w i) h = h
  Step-issued k {s} (timed c w) h = h
  Step-issued k {s} (expired gone kept e) h = h

  -- In every reachable state each result channel has at most one query, and the goroutines that wait
  -- on it and the answers that were given on it are together as many as its queries: a query that was
  -- published is waited for or was answered, and it is answered at most once.
  pub Reach-answered_once :
      (k : String) {s : Net Q R}
      → Reach runs s
      → (count k s.waiting + count k (answered s.answers) ≡ count k (channels s.issued))
        × (count k (channels s.issued) ≤ 1)
  unfolding count
  Reach-answered_once k start = (refl, omega arith)
  Reach-answered_once k (next r st) =
      let (accounted, once) = Reach-answered_once k r in
      (Step-IsAccounted k st accounted, Step-issued k st once)
