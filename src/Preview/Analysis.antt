-- ===== src/Preview/Analysis.antt =====
-- What the analysis of a text says of it.
use realworld_tutorial.Base.{
  ℕ, ◌+◌, ◌*◌, ◌≤◌, ◌<◌, ◌≡◌, refl, ap, ◌∙◌, true, false, not, inl, inr, Bool-cases, List, [], ◌∷◌,
  ◌++◌, All, arith, if◌then◌else◌, length, Codes, Outcome, ok, err, is_space, drop_leading,
  drop_trailing, trim, slice_to, length-slice_to,
}
use realworld_tutorial.Preview.{
  ArticlePreview, has_text, is_empty, max_excerpt_length, words_per_minute, blank_body, normalize,
  word_count_of, analyze,
}
use realworld_tutorial.Preview.Words.{
  IsWord, words_from, words, words-All, join_words, normalize_lem, split_spaces-join_words,
}

words_from-filled : (c : ℕ) (w s : Codes) → 0 < length (words_from (c ∷ w) s)
words_from-filled c w [] = omega arith
words_from-filled c w (d ∷ s) = elim (Bool-cases (is_space d)) [
  | inl e ↦ rw e (omega arith)
  | inr e ↦ rw e (words_from-filled c (w ++ (d ∷ [])) s)
]

-- A text with a unit that is no white space has a word.
words-filled : (s : Codes) → has_text s ≡ true → 0 < length (words s)
words-filled [] h = cc
words-filled (c ∷ s) h = elim (Bool-cases (is_space c)) [
  | inl e ↦ rw e (words-filled s (rw e at h))
  | inr e ↦ rw e (words_from-filled c [] s)
]

drop_trailing-filled : (s : Codes) → has_text s ≡ true → is_empty (drop_trailing is_space s) ≡ false
drop_trailing-filled [] h = cc
drop_trailing-filled (c ∷ s) h = go (drop_trailing is_space s) (drop_trailing-filled s)
  where
    go :
        (t : Codes)
        → (has_text s ≡ true → is_empty t ≡ false)
        → is_empty
            (elim t as (λ _. Codes) [ [] ↦ if is_space c then [] else c ∷ [] | d ∷ u ↦ c ∷ d ∷ u ])
          ≡ false
    go (d ∷ u) k = refl
    go [] k = elim (Bool-cases (is_space c)) [
      | inl e ↦ let f = k (rw e at h) in absurd (cc)
      | inr e ↦ rw e refl
    ]

has_text-drop_leading : (s : Codes) → has_text (drop_leading is_space s) ≡ has_text s
has_text-drop_leading [] = refl
has_text-drop_leading (c ∷ s) = elim (Bool-cases (is_space c)) [
  | inl e ↦ rw e (has_text-drop_leading s)
  | inr e ↦ rw e (rw e refl)
]

blank : (s : Codes) → has_text s ≡ false → drop_leading is_space s ≡ []
blank [] h = refl
blank (c ∷ s) h = elim (Bool-cases (is_space c)) [
  | inl e ↦ rw e (blank s (rw e at h))
  | inr e ↦ let k = rw e at h in absurd (cc)
]

is_empty-trim : (s : Codes) → is_empty (trim s) ≡ not (has_text s)
is_empty-trim s = elim (Bool-cases (has_text s)) [
  | inl e ↦ rw e (drop_trailing-filled (drop_leading is_space s) (has_text-drop_leading s ∙ e))
  | inr e ↦ rw e (rw (blank s e) refl)
]

counts :
    (ws : List Codes) → All IsWord ws → 0 < length ws → word_count_of (join_words ws) ≡ length ws
unfolding word_count_of
counts [] h p = absurd (omega arith)
counts ([] ∷ ws) (h, hs) p = elim h [ ]
counts ((c ∷ w) ∷ []) h p = ap length (split_spaces-join_words (c ∷ w) [] h)
counts ((c ∷ w) ∷ v ∷ ws) h p = ap length (split_spaces-join_words (c ∷ w) (v ∷ ws) h)

-- What an analysis that ends in a certain way says.
abbrev pub Analyzes : Codes → Outcome ArticlePreview → Type 0
Analyzes body (err e) = (has_text body ≡ false) × (e ≡ blank_body)
Analyzes body (ok p) =
    (has_text body ≡ true)
    × (0 < p.word_count)
    × (p.word_count ≡ length (words body))
    × (p.excerpt ≡ slice_to max_excerpt_length (join_words (words body)))
    × (length p.excerpt ≤ max_excerpt_length)
    × (p.word_count ≤ words_per_minute * p.reading_time_minutes)
    × (words_per_minute * p.reading_time_minutes < p.word_count + words_per_minute)

-- The analysis refuses a text just when it has nothing but white space, so that a text which the
-- request's check for a unit of another kind lets pass is not refused. Otherwise it counts the words,
-- of which there is at least one; the excerpt is the first 160 units, at most, of the words with single
-- spaces between them, and the minutes are the fewest in which so many words are read, 200 in each.
pub analyze_lem : (body : Codes) → Analyzes body (analyze body)
unfolding analyze
analyze_lem body = elim (Bool-cases (has_text body)) [
  | inr e ↦ let f : is_empty (trim body) ≡ true = rw (is_empty-trim body, e) refl in rw f (e, refl)
  | inl e ↦
      let f : is_empty (trim body) ≡ false = rw (is_empty-trim body, e) refl in
      let filled = words-filled body e in
      let n : word_count_of (normalize body) ≡ length (words body) =
        ap word_count_of (normalize_lem body) ∙ counts (words body) (words-All body) filled in
      rw f (
        e,
        omega (arith, n, filled),
        n,
        ap (slice_to max_excerpt_length) (normalize_lem body),
        length-slice_to max_excerpt_length (normalize body),
        omega arith,
        omega arith,
      )
]
