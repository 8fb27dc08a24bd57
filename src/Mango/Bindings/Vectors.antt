-- ===== src/Mango/Bindings/Vectors.antt =====
-- The words of a vector of C in Go.
use mquery.Base.{
  ℕ, zero, suc, ◌+◌, ◌≡◌, refl, sym, ◌∙◌, subst, ap, List, some, length, get_elem?, arith, inl, inr,
  Option-cases,
}
use mquery.Base.Int.{ℤ}
use mquery.Base.Text.{String}
use mquery.Errors.{ok}
use mquery.Worker.FreqResult.{Freqs}
use mquery.Mango.Multiword.{normalize_multiword}
use mquery.Mango.Multiword.Laws.{normalize_multiword_idempotent}
use mquery.Mango.Bindings.{Vector, read_from, str_vector_to_slice, CLibrary, calc_freq_dist}

length-read_from : {A : Type 0} (element : ℕ → A) (i n : ℕ) → length (read_from element i n) ≡ n
unfolding read_from
length-read_from element i zero = refl
length-read_from element i (suc n) = ap suc (length-read_from element (suc i) n)

get_elem?-read_from :
    {A : Type 0} (element : ℕ → A) (start n i : ℕ) (a : A)
    → get_elem? (read_from element start n) i ≡ some a
    → a ≡ element (start + i)
unfolding read_from
get_elem?-read_from element start zero i a h = absurd (ground (arith, h))
get_elem?-read_from element start (suc n) zero a h = ground (arith, h)
get_elem?-read_from element start (suc n) (suc i) a h =
    get_elem?-read_from element (suc start) n i a h ∙ ap element (omega arith)

normal-stays :
    (element : ℕ → String) (i : ℕ) (w : String)
    → w ≡ normalize_multiword (element i)
    → normalize_multiword w ≡ w
normal-stays element i w e =
    subst (λ x. normalize_multiword x ≡ x) (sym e) (normalize_multiword_idempotent (element i))

-- As many texts as a vector holds, each the normal form of the text at its index.
AreNormal : Vector String → List String → Type 0
AreNormal v ws =
    (length ws ≡ v.size)
    × ((i : ℕ) (w : String)
        → get_elem? ws i ≡ some w
        → (w ≡ normalize_multiword (v.element i)) × (normalize_multiword w ≡ w))

str_vector_to_slice-AreNormal : (v : Vector String) → AreNormal v (str_vector_to_slice v)
unfolding str_vector_to_slice AreNormal
str_vector_to_slice-AreNormal v = (
  length-read_from (λ i. normalize_multiword (v.element i)) 0 v.size,
  λ i w h.
      let e = get_elem?-read_from (λ k. normalize_multiword (v.element k)) 0 v.size i w h in
      (
        e ∙ ap (λ k. normalize_multiword (v.element k)) (omega arith),
        normal-stays v.element i w (e ∙ ap (λ k. normalize_multiword (v.element k)) (omega arith)),
      ),
)

-- The call of `freq_dist` that succeeds gives as many words as the vector of C has, and each of them
-- is normal: it is the text of C at its index, without white space at its ends and with blanks for
-- other white space, and to normalize it again changes nothing.
pub calc_freq_dist-words :
    {F : Type 0} (c : CLibrary F) (corpus_id subc_id query fcrit : String) (flimit : ℤ)
    (freqs : Freqs)
    → calc_freq_dist c corpus_id subc_id query fcrit flimit ≡ ok freqs
    → let words = (c.freq_dist corpus_id subc_id query fcrit flimit).words in
      (length freqs.words ≡ words.size)
      × ((i : ℕ) (w : String)
          → get_elem? freqs.words i ≡ some w
          → (w ≡ normalize_multiword (words.element i)) × (normalize_multiword w ≡ w))
unfolding calc_freq_dist AreNormal
calc_freq_dist-words c corpus_id subc_id query fcrit flimit freqs h =
    let words = (c.freq_dist corpus_id subc_id query fcrit flimit).words in
    let same : str_vector_to_slice words ≡ freqs.words =
      elim (Option-cases ((c.freq_dist corpus_id subc_id query fcrit flimit).err)) [
        | inl e ↦ ground (arith, h, e)
        | inr (m, e) ↦ ground (arith, h, e)
      ] in
    subst (AreNormal words) same (str_vector_to_slice-AreNormal words)
