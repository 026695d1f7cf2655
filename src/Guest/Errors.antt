-- ===== src/Guest/Errors.antt =====
-- The messages that a guest is shown: addon/src/captive_portal/api/routes/guest_authorization/errors.py
--
-- The cursor of `_strip_html_tags` is the rest of the message from it on. Its `while True` runs on
-- fuel, none where that ends.
use homeassistant_captive_po.Base.{
  ℕ, zero, suc, ◌-◌, ◌≤◌, ◌<◌, ◌≡◌, ◌≢◌, inl, inr, Text, is_empty, lstrip, rstrip, strip, take,
  codes, length, Bool, false, ◌&&◌, ◌||◌, ltb, ◌==◌, Option, none, some, [], ◌∷◌, ◌++◌, refl, arith,
  any_where, length-append, Bool-cases, Option-cases, if◌then◌else◌,
}

-- s.find(c), none for -1.
abbrev pub find : ℕ → Text → Option ℕ
find c [] = none
find c (d ∷ s) =
    let rest = find c s in
    if d == c then some 0 else elim rest [ none ↦ none | some n ↦ some (suc n) ]

-- s[n:]
abbrev pub drop : ℕ → Text → Text
drop zero s = s
drop (suc n) [] = []
drop (suc n) (c ∷ s) = drop n s

abbrev pub before : Text → Option Text → Option Text
before s none = none
before s (some t) = some (s ++ t)

unfoldable pub strip_html_tags_from : ℕ → Text → Option Text
strip_html_tags_from zero rest = none
strip_html_tags_from (suc fuel) rest = elim (find b'<' rest) [
  | none ↦ some rest
  | some start ↦ elim (find b'>' (drop (suc start) rest)) [
    | none ↦ some rest
    | some end ↦
        before (take start rest)
          (strip_html_tags_from fuel (drop (suc end) (drop (suc start) rest)))
  ]
]

unfoldable pub strip_html_tags : Text → Option Text
strip_html_tags message = strip_html_tags_from (suc (length message)) message

abbrev pub default_message : Text
default_message = codes "An error occurred. Please try again."

abbrev pub truncated : Text → Text
truncated message = if ltb 500 (length message) then take 500 message ++ codes "..." else message

abbrev pub or_default : Text → Text
or_default [] = default_message
or_default (c ∷ s) = c ∷ s

abbrev pub stripped_or_default : Option Text → Option Text
stripped_or_default none = none
stripped_or_default (some s) = some (or_default (strip s))

unfoldable pub sanitize_error_message : Option Text → Option Text
unfolding strip_html_tags
sanitize_error_message none = some default_message
sanitize_error_message (some message) =
    if is_empty message
    then some default_message
    else stripped_or_default (strip_html_tags (truncated message))

-- A text that has a `<` with a `>` behind it.
abbrev pub has_tag : Text → Bool
has_tag [] = false
has_tag (c ∷ s) = (c == b'<' && any_where (λ d. d == b'>') s) || has_tag s

find-none : (c : ℕ) (s : Text) → find c s ≡ none → any_where (λ d. d == c) s ≡ false
find-none c [] h = refl
find-none c (d ∷ s) h = ground (arith, h, find-none c s)

-- Up to what is found there is none, and the rest behind it is shorter.
find-take :
    (c : ℕ) (s : Text) (n : ℕ) → find c s ≡ some n → any_where (λ d. d == c) (take n s) ≡ false
find-take c [] n h = absurd (cc)
find-take c (d ∷ s) zero h = refl
find-take c (d ∷ s) (suc n) h = ground (arith, h, find-take c s n)

find_lt : (c : ℕ) (s : Text) (n : ℕ) → find c s ≡ some n → n < length s
find_lt c [] n h = absurd (cc)
find_lt c (d ∷ s) zero h = omega arith
find_lt c (d ∷ s) (suc n) h = ground (arith, h, find_lt c s n)

length-drop : (n : ℕ) (s : Text) → length (drop n s) ≡ length s - n
length-drop zero s = omega arith
length-drop (suc n) [] = omega arith
length-drop (suc n) (c ∷ s) = omega (arith, length-drop n s)

length-take : (n : ℕ) (s : Text) → (length (take n s) ≤ n) × (length (take n s) ≤ length s)
length-take zero s = omega arith
length-take (suc n) [] = omega arith
length-take (suc n) (c ∷ s) = omega (arith, length-take n s)

has_tag_of_none : (s : Text) → any_where (λ d. d == b'>') s ≡ false → has_tag s ≡ false
has_tag_of_none [] h = refl
has_tag_of_none (c ∷ s) h = ground (arith, h, has_tag_of_none s)

has_tag_of_no_start : (s : Text) → any_where (λ d. d == b'<') s ≡ false → has_tag s ≡ false
has_tag_of_no_start [] h = refl
has_tag_of_no_start (c ∷ s) h = ground (arith, h, has_tag_of_no_start s)

-- Ahead of the first `<` no tag starts.
has_tag_of_open :
    (s : Text) (n : ℕ)
    → find b'<' s ≡ some n
    → any_where (λ d. d == b'>') (drop (suc n) s) ≡ false
    → has_tag s ≡ false
has_tag_of_open [] n h k = refl
has_tag_of_open (c ∷ s) zero h k = ground (arith, h, k, has_tag_of_none s)
has_tag_of_open (c ∷ s) (suc n) h k = ground (arith, h, k, has_tag_of_open s n)

has_tag-append :
    (s t : Text)
    → any_where (λ d. d == b'<') s ≡ false
    → has_tag t ≡ false
    → has_tag (s ++ t) ≡ false
has_tag-append [] t h k = k
has_tag-append (c ∷ s) t h k = ground (arith, h, has_tag-append s t)

-- With more fuel than characters the loop ends, with a text that has no tag and is no longer.
strip_html_tags_from_ends :
    (fuel : ℕ) (s : Text)
    → length s < fuel
    → (r : Text) × (strip_html_tags_from fuel s ≡ some r)
      × (has_tag r ≡ false)
      × (length r ≤ length s)
unfolding strip_html_tags_from
strip_html_tags_from_ends zero s h = absurd (omega arith)
strip_html_tags_from_ends (suc fuel) s h = elim (Option-cases (find b'<' s)) [
  | inl e ↦ (
    s,
    rw (e, strip_html_tags_from) refl,
    has_tag_of_no_start s (find-none b'<' s e),
    omega arith,
  )
  | inr (start, e) ↦ elim (Option-cases (find b'>' (drop (suc start) s))) [
    | inl f ↦ (
      s,
      rw (e, strip_html_tags_from, f) refl,
      has_tag_of_open s start e (find-none b'>' (drop (suc start) s) f),
      omega arith,
    )
    | inr (end, f) ↦
        let rest = drop (suc end) (drop (suc start) s) in
        let shorter = length-drop (suc end) (drop (suc start) s) in
        let shorter' = length-drop (suc start) s in
        let at = find_lt b'<' s start e in
        let at' = find_lt b'>' (drop (suc start) s) end f in
        let (r, q, no_tag, le) =
          strip_html_tags_from_ends fuel rest (omega (arith, h, shorter, shorter')) in
        (
          take start s ++ r,
          rw (e, strip_html_tags_from, f, q) refl,
          has_tag-append (take start s) r (find-take b'<' s start e) no_tag,
          omega (
            arith,
            length-append (take start s) r,
            length-take start s,
            le,
            shorter,
            shorter',
            at,
            at',
          ),
        )
  ]
]

has_tag-lstrip : (s : Text) → has_tag s ≡ false → has_tag (lstrip s) ≡ false
unfolding lstrip
has_tag-lstrip [] h = refl
has_tag-lstrip (c ∷ s) h = ground (arith, h, has_tag-lstrip s)

any_where-rstrip :
    (p : ℕ → Bool) (s : Text) → any_where p s ≡ false → any_where p (rstrip s) ≡ false
unfolding rstrip
any_where-rstrip p [] h = refl
any_where-rstrip p (c ∷ s) h = ground (arith, h, any_where-rstrip p s)

has_tag-rstrip : (s : Text) → has_tag s ≡ false → has_tag (rstrip s) ≡ false
unfolding rstrip
has_tag-rstrip [] h = refl
has_tag-rstrip (c ∷ s) h = ground (arith, h, has_tag-rstrip s, any_where-rstrip (λ d. d == b'>') s)

length-lstrip : (s : Text) → length (lstrip s) ≤ length s
unfolding lstrip
length-lstrip [] = omega arith
length-lstrip (c ∷ s) = ground (arith, length-lstrip s)

length-rstrip : (s : Text) → length (rstrip s) ≤ length s
unfolding rstrip
length-rstrip [] = omega arith
length-rstrip (c ∷ s) = ground (arith, length-rstrip s)

or_default-IsShown :
    (s : Text)
    → has_tag s ≡ false
    → length s ≤ 503
    → (has_tag (or_default s) ≡ false) × (or_default s ≢ []) × (length (or_default s) ≤ 503)
or_default-IsShown [] h k = (refl, λ q. ground (arith, q), ground arith)
or_default-IsShown (c ∷ s) h k = (h, λ q. ground (arith, q), k)

length-truncated : (message : Text) → length (truncated message) ≤ 503
length-truncated message = elim (Bool-cases (ltb 500 (length message))) [
  | inl e ↦
      rw e (omega (arith, length-append (take 500 message) (codes "..."), length-take 500 message))
  | inr e ↦ rw e (ground (arith, e))
]

-- Every message, whatever a guest puts into the URL, is shown as a text that is not empty, has at most
-- 503 characters and no `<` with a `>` behind it: the loop that strips the tags ends.
pub sanitize_error_message-IsShown :
    (message : Option Text)
    → (shown : Text) × (sanitize_error_message message ≡ some shown)
      × (has_tag shown ≡ false)
      × (shown ≢ [])
      × (length shown ≤ 503)
unfolding sanitize_error_message strip_html_tags strip
sanitize_error_message-IsShown none =
    (default_message, refl, refl, (λ q. ground (arith, q)), ground arith)
sanitize_error_message-IsShown (some message) = elim (Bool-cases (is_empty message)) [
  | inl e ↦ (
    default_message,
    rw (e, sanitize_error_message) refl,
    refl,
    (λ q. ground (arith, q)),
    ground arith,
  )
  | inr e ↦
      let m = truncated message in
      let (r, q, no_tag, le) = strip_html_tags_from_ends (suc (length m)) m (omega arith) in
      let (clean, full, short) =
        or_default-IsShown (strip r) (has_tag-rstrip (lstrip r) (has_tag-lstrip r no_tag)) (
          omega (arith, length-rstrip (lstrip r), length-lstrip r, le, length-truncated message)) in
      (or_default (strip r), rw (e, sanitize_error_message, q) refl, clean, full, short)
]
