-- ===== src/Handlers/Audio.antt =====
-- corpus/handlers/audio.go: a range of an audio file.
pub mod Ranges
use mquery.Base.{
  ℕ, zero, suc, ◌+◌, ◌-◌, ◌*◌, Bool, true, false, ◌&&◌, List, [], ◌∷◌, ◌++◌, Option, none, some,
  if◌then◌else◌, ltb, leb, ◌==◌, length, take, drop,
}
use mquery.Base.Int.{ℤ, pos, negsuc, ltb_ℤ}
use mquery.Base.Text.{String, str_eq, contains, split}
use mquery.Base.Word.{sign_bit}
use mquery.Errors.{codes, is_prefix}
use mquery.Corpora.Setup.{MqCorpusSetup}
use mquery.Corpora.Lookup.{Found, corp, no_corp, nil_dereference}
use mquery.Handlers.Request.{
  Url, query_of, Served, Write, error_status, writing, failing, responding, panicking,
}

abbrev pub is_digit : ℕ → Bool
is_digit c = leb 48 c && leb c 57

-- \d+ or \d*: the digits at the beginning, and the rest.
unfoldable pub digits : List ℕ → List ℕ × List ℕ
digits [] = ([], [])
digits (c ∷ cs) = let (ds, rest) = digits cs in if is_digit c then (c ∷ ds, rest) else ([], c ∷ cs)

-- The value of digits, most significant first, from a value on.
unfoldable pub value_from : ℕ → List ℕ → ℕ
value_from n [] = n
value_from n (d ∷ ds) = value_from (n * 10 + (d - 48)) ds

-- strconv.Atoi of digits: an int, or an error if it is too large.
abbrev pub int_of_digits : List ℕ → Option ℕ
int_of_digits ds = let n = value_from 0 ds in if ltb n sign_bit then some n else none

abbrev pub range_unit : List ℕ → Option (List ℕ)
range_unit cs =
    if is_prefix (codes "bytes=") cs
    then some (drop 6 cs)
    else if is_prefix (codes "Bytes=") cs
    then some (drop 6 cs)
    else none

-- The right end; -1 if it is missing.
abbrev pub right_end : ℕ → List ℕ → Option (ℤ × ℤ)
right_end left [] = some (pos left, negsuc 0)
right_end left (d ∷ ds) = elim (int_of_digits (d ∷ ds)) [
  | none ↦ none
  | some right ↦ some (pos left, pos right)
]

abbrev pub after_dash : List ℕ → List ℕ × List ℕ → Option (ℤ × ℤ)
after_dash ds (es, (c ∷ cs)) = none
after_dash ds (es, []) = elim (int_of_digits ds) [ none ↦ none | some left ↦ right_end left es ]

abbrev pub left_and_dash : List ℕ × List ℕ → Option (ℤ × ℤ)
left_and_dash ([], rest) = none
left_and_dash ((d ∷ ds), []) = none
left_and_dash ((d ∷ ds), (c ∷ cs)) = if c == 45 then after_dash (d ∷ ds) (digits cs) else none

-- getRange: the expression `^[bB]ytes=(\d+)-(\d*)$`, of which `none` is an error. Without a header the
-- range begins at 0.
unfoldable pub get_range : String → Option (ℤ × ℤ)
unfolding digits value_from
get_range header =
    if str_eq header ""
    then some (pos 0, negsuc 0)
    else elim (range_unit (codes header)) [ none ↦ none | some cs ↦ left_and_dash (digits cs) ]

-- The headers that depend on the file, and the bytes that are written.
pub record AudioResponse : Type 0 where
  pub content_length : ℕ
  pub content_range : Option (ℕ × ℕ)
  pub bytes : List ℕ

unfoldable pub zeros : ℕ → List ℕ
zeros zero = []
zeros (suc n) = 0 ∷ zeros n

-- One Read into a buffer of n bytes from a position; `none` is io.EOF. What is not read stays 0.
unfoldable pub read_buffer : ℕ → List ℕ → Option (List ℕ)
unfolding zeros
read_buffer zero rest = none
read_buffer (suc n) [] = none
read_buffer (suc n) (b ∷ rest) = some (take (suc n) (b ∷ rest) ++ zeros (suc n - length (b ∷ rest)))

abbrev pub sent_range : String → ℕ → Option (ℕ × ℕ)
sent_range header size = if str_eq header "" then none else some (size - 1, size)

-- From the ends of the range on. A buffer of a negative length cannot be made.
unfoldable pub send_range : String → List ℕ → ℕ → ℕ → Served AudioResponse
unfolding read_buffer
send_range header content left right =
    if ltb right left then panicking else elim (read_buffer (right - left) (drop left content)) [
      | none ↦ failing 500
      | some bytes ↦ responding (record {
        content_length = length content;
        content_range = sent_range header (length content);
        bytes = bytes;
      })
    ]

abbrev pub checked_range : String → List ℕ → ℤ × ℤ → Served AudioResponse
checked_range header content (pos left, pos right) =
    if ltb right left then failing 400 else send_range header content left right
checked_range header content (pos left, negsuc n) = send_range header content left (length content)
checked_range header content (negsuc m, right) = panicking

unfoldable pub serve_range : String → List ℕ → Served AudioResponse
unfolding get_range send_range
serve_range header content = elim (get_range header) [
  | none ↦ failing 422
  | some range ↦ checked_range header content range
]

-- `locate` cleans a path of a corpus and a chunk and resolves its links, and `content_of` reads a
-- file; each may fail. `audio_dir` is the configured directory.
module _ (find_corp : String → Found) (locate : Bool → String → String → Option String)
    (content_of : String → Option (List ℕ)) (audio_dir : String) where
  abbrev pub located : String → Option String → Served AudioResponse
  located header none = failing 404
  located header (some path) =
      if is_prefix (codes audio_dir) (codes path)
      then elim (content_of path) [ none ↦ failing 500 | some bytes ↦ serve_range header bytes ]
      else failing 404

  abbrev pub has_slash : String → Bool
  has_slash chunk = elim (split chunk "/") [ a ∷ b ∷ rest ↦ true | _ ↦ false ]

  abbrev pub audio_of : String → String → String → MqCorpusSetup → Served AudioResponse
  audio_of corpus_id header chunk conf =
      if conf.has_public_audio
      then located header (locate (has_slash chunk) corpus_id chunk)
      else failing 500

  -- Without a corpus the action goes on after its error, to a nil configuration.
  abbrev pub audio_found : String → String → String → Found → Served AudioResponse
  audio_found corpus_id header chunk nil_dereference = panicking
  audio_found corpus_id header chunk no_corp = writing (error_status 404) panicking
  audio_found corpus_id header chunk (corp conf) = audio_of corpus_id header chunk conf

  unfoldable pub audio : String → Url → Served AudioResponse
  unfolding serve_range
  audio header url =
      let corpus_id = query_of "corpusId" url in
      audio_found corpus_id header (query_of "chunk" url) (find_corp corpus_id)
