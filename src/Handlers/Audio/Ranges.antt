-- ===== src/Handlers/Audio/Ranges.antt =====
-- Which bytes of a file are sent.
use mathlib.Core.List.{append-nil}
use mquery.Base.{
  ℕ, zero, suc, ◌-◌, ◌≤◌, ◌<◌, ◌≡◌, refl, ◌∙◌, ap, true, false, List, [], ◌∷◌, ◌++◌, some, ltb,
  length, take, drop, take-length, arith,
}
use mquery.Base.Int.{pos, negsuc}
use mquery.Base.Text.{String}
use mquery.Handlers.Request.{Served, responding, panicking}
use mquery.Handlers.Audio.{
  AudioResponse, zeros, read_buffer, sent_range, get_range, checked_range, send_range, serve_range,
}

length-drop : (n : ℕ) (xs : List ℕ) → length (drop n xs) ≡ length xs - n
length-drop zero xs = omega arith
length-drop (suc n) [] = omega arith
length-drop (suc n) (x ∷ xs) = omega (arith, length-drop n xs)

-- A file that is long enough fills the buffer.
read_buffer-take :
    (n : ℕ) (rest : List ℕ) → 0 < n → n ≤ length rest → read_buffer n rest ≡ some (take n rest)
unfolding read_buffer zeros
read_buffer-take zero rest h k = absurd (omega (arith, h))
read_buffer-take (suc n) [] h k = absurd (omega (arith, k))
read_buffer-take (suc n) (b ∷ rest) h k =
    let none_left : suc n - length (b ∷ rest) ≡ 0 = omega (arith, k) in
    ap (λ m. some (take (suc n) (b ∷ rest) ++ zeros m)) none_left
    ∙ ap some (append-nil (take (suc n) (b ∷ rest)))

-- The response with these bytes.
abbrev pub sends : String → List ℕ → List ℕ → Served AudioResponse
sends header content bytes = responding (record {
  content_length = length content;
  content_range = sent_range header (length content);
  bytes = bytes;
})

send_range-take :
    (header : String) (content : List ℕ) (left right : ℕ)
    → left < right
    → right ≤ length content
    → send_range header content left right
      ≡ sends header content (take (right - left) (drop left content))
unfolding send_range
send_range-take header content left right h k =
    let ordered : ltb right left ≡ false = ground (arith, h) in
    let full =
      read_buffer-take (right - left) (drop left content) (omega (arith, h))
        (omega (arith, length-drop left content, k, h)) in
    rw (ordered, send_range) (rw full refl)

checked_range-take :
    (header : String) (content : List ℕ) (left right : ℕ)
    → left < right
    → right ≤ length content
    → checked_range header content (pos left, pos right)
      ≡ sends header content (take (right - left) (drop left content))
checked_range-take header content left right h k =
    let ordered : ltb right left ≡ false = ground (arith, h) in
    rw ordered (send_range-take header content left right h k)

send_range-whole :
    (header : String) (content : List ℕ)
    → 0 < length content
    → send_range header content 0 (length content) ≡ sends header content content
send_range-whole header content h =
    let whole : length content - 0 ≡ length content = omega arith in
    send_range-take header content 0 (length content) h (omega arith)
    ∙ ap (λ n. sends header content (take n content)) whole
    ∙ ap (sends header content) (take-length content)

send_range-beyond :
    (header : String) (content : List ℕ) (left : ℕ)
    → length content < left
    → send_range header content left (length content) ≡ panicking
unfolding send_range
send_range-beyond header content left h =
    let beyond : ltb (length content) left ≡ true = ground (arith, h) in
    rw (beyond, send_range) refl

-- For a range of bytes from `left` to `right` in the file the bytes from `left` up to but not
-- including `right` are sent, although the ends of such a range are inclusive; without a header the
-- whole file is sent, unless it is empty; and a range without a right end that begins after the end
-- of the file makes the action panic.
pub serve_range_lem :
    (content : List ℕ) (left right : ℕ) (header : String)
    → (left < right
        → right ≤ length content
        → get_range header ≡ some (pos left, pos right)
        → serve_range header content
          ≡ sends header content (take (right - left) (drop left content)))
      × (0 < length content → serve_range "" content ≡ sends "" content content)
      × (length content < left
          → get_range header ≡ some (pos left, negsuc 0)
          → serve_range header content ≡ panicking)
unfolding serve_range
serve_range_lem content left right header = (
  λ h k g. rw (g, serve_range) (checked_range-take header content left right h k),
  λ h. send_range-whole "" content h,
  λ h g. rw (g, serve_range) (send_range-beyond header content left h),
)
