-- ===== src/Preview/Words.antt =====
-- The words of a text: its longest runs of units that are no white space, and that the normalized text
-- is the words with single spaces between them.
use mathlib.Core.List
use realworld_tutorial.Base.{
  ℕ, ◌≡◌, refl, sym, ap, ◌∙◌, Bool, true, false, inl, inr, Bool-cases, List, [], ◌∷◌, ◌++◌, All,
  arith, ◌==◌, if◌then◌else◌, Codes, is_space, drop_leading, drop_trailing,
}
use realworld_tutorial.Preview.{collapse_from, split_spaces, prepend, normalize}

abbrev add_word : Codes → List Codes → List Codes
add_word [] ws = ws
add_word (c ∷ w) ws = (c ∷ w) ∷ ws

-- `current` is the word that the text goes on with.
abbrev pub words_from : Codes → Codes → List Codes
words_from current [] = add_word current []
words_from current (c ∷ s) =
    let rest = words_from (if is_space c then [] else current ++ (c ∷ [])) s in
    if is_space c then add_word current rest else rest

abbrev pub words : Codes → List Codes
words s = words_from [] s

abbrev pub join_words : List Codes → Codes
join_words [] = []
join_words (w ∷ []) = w
join_words (w ∷ v ∷ ws) = w ++ (32 ∷ join_words (v ∷ ws))

-- A word is not empty and has no white space.
abbrev pub IsWord : Codes → Type 0
IsWord [] = ⊥
IsWord (c ∷ w) = (is_space c ≡ false) × All (λ d. is_space d ≡ false) w

-- What is read of a word so far.
abbrev IsPart : Codes → Type 0
IsPart w = All (λ d. is_space d ≡ false) w

IsPart-append_one : (w : Codes) (c : ℕ) → IsPart w → is_space c ≡ false → IsPart (w ++ (c ∷ []))
IsPart-append_one [] c h e = (e, tt)
IsPart-append_one (d ∷ w) c (k, h) e = (k, IsPart-append_one w c h e)

add_word-All : (w : Codes) (ws : List Codes) → IsPart w → All IsWord ws → All IsWord (add_word w ws)
add_word-All [] ws h k = k
add_word-All (c ∷ w) ws h k = (h, k)

words_from-All : (w s : Codes) → IsPart w → All IsWord (words_from w s)
words_from-All w [] h = add_word-All w [] h tt
words_from-All w (c ∷ s) h = elim (Bool-cases (is_space c)) [
  | inl e ↦ rw e (add_word-All w (words_from [] s) h (words_from-All [] s tt))
  | inr e ↦ rw e (words_from-All (w ++ (c ∷ [])) s (IsPart-append_one w c h e))
]

pub words-All : (s : Codes) → All IsWord (words s)
words-All s = words_from-All [] s tt

-- A list of words is joined to the empty text only if it is empty.
join_words-nil : (ws : List Codes) → All IsWord ws → join_words ws ≡ [] → ws ≡ []
join_words-nil [] h e = refl
join_words-nil ([] ∷ ws) (h, hs) e = elim h [ ]
join_words-nil ((c ∷ w) ∷ []) h e = cc
join_words-nil ((c ∷ w) ∷ v ∷ ws) h e = cc

drop_trailing-cons :
    (p : ℕ → Bool) (c : ℕ) (s : Codes)
    → p c ≡ false
    → drop_trailing p (c ∷ s) ≡ c ∷ drop_trailing p s
drop_trailing-cons p c s e = go (drop_trailing p s)
  where
    go :
        (t : Codes)
        → (elim t as (λ _. Codes) [ [] ↦ if p c then [] else c ∷ [] | d ∷ u ↦ c ∷ d ∷ u ]) ≡ c ∷ t
    go [] = rw e refl
    go (d ∷ u) = refl

-- A space between a word and the rest stays unless nothing follows.
joined_by_space :
    (u : Codes) (ws : List Codes) (x : Codes)
    → All IsWord ws
    → join_words ws ≡ drop_trailing is_space x
    → join_words (u ∷ ws) ≡ u ++ drop_trailing is_space (32 ∷ x)
joined_by_space u ws x h e = go ws h (drop_trailing is_space x) e
  where
    go :
        (ws : List Codes)
        → All IsWord ws
        → (t : Codes) → join_words ws ≡ t
        → join_words (u ∷ ws)
          ≡ u ++ (elim t as (λ _. Codes) [
            | [] ↦ if is_space 32 then [] else 32 ∷ []
            | d ∷ v ↦ 32 ∷ d ∷ v
          ])
    go [] h [] e = sym (List.append-nil u)
    go [] h (d ∷ t) e = cc
    go (w ∷ ws) h [] e = let n = join_words-nil (w ∷ ws) h e in absurd (List.nil≢cons (sym n))
    go (w ∷ ws) h (d ∷ t) e = ap (λ z. u ++ (32 ∷ z)) e

-- The text that is read behind a word, and behind white space.
joined :
    (s : Codes)
    → ((c : ℕ) (w : Codes)
        → join_words (words_from (c ∷ w) s)
          ≡ (c ∷ w) ++ drop_trailing is_space (collapse_from false s))
      × (join_words (words_from [] s) ≡ drop_trailing is_space (collapse_from true s))
unfolding collapse_from
joined [] = (λ c w. sym (List.append-nil (c ∷ w)), refl)
joined (d ∷ s) =
    let (within, between) = joined s in
    elim (Bool-cases (is_space d)) [
      | inl e ↦ rw e (
        λ c w.
            joined_by_space (c ∷ w) (words_from [] s) (collapse_from true s)
              (words_from-All [] s tt) between,
        between,
      )
      | inr e ↦ rw e (
        λ c w.
            within c (w ++ (d ∷ []))
            ∙ List.append_assoc (c ∷ w) (d ∷ []) (drop_trailing is_space (collapse_from false s))
            ∙ ap (λ z. (c ∷ w) ++ z)
                (sym (drop_trailing-cons is_space d (collapse_from false s) e)),
        within d [] ∙ sym (drop_trailing-cons is_space d (collapse_from false s) e),
      )
    ]

drop_leading-collapse_from :
    (b : Bool) (s : Codes) → drop_leading is_space (collapse_from b s) ≡ collapse_from true s
unfolding collapse_from
drop_leading-collapse_from b [] = refl
drop_leading-collapse_from b (c ∷ s) = elim (Bool-cases (is_space c)) [
  | inl e ↦ rw e (spaced (drop_leading-collapse_from true s) b)
  | inr e ↦ rw e (rw e refl)
]
  where
    spaced :
        drop_leading is_space (collapse_from true s) ≡ collapse_from true s
        → (b : Bool)
        → drop_leading is_space (if b then collapse_from true s else 32 ∷ collapse_from true s)
          ≡ collapse_from true s
    spaced ih true = ih
    spaced ih false = ih

-- The normalized text is the words, with single spaces between them.
pub normalize_lem : (s : Codes) → normalize s ≡ join_words (words s)
normalize_lem s =
    ap (drop_trailing is_space) (drop_leading-collapse_from false s) ∙ sym ((joined s).1)

split_spaces-word : (c : ℕ) (w : Codes) → IsWord (c ∷ w) → split_spaces (c ∷ w) ≡ ((c ∷ w) ∷ [])
unfolding split_spaces
split_spaces-word c [] (e, h) = let f : (c == 32) ≡ false = ground arith in rw f refl
split_spaces-word c (d ∷ w) (e, h) =
    let f : (c == 32) ≡ false = ground arith in rw f (ap (prepend c) (split_spaces-word d w h))

split_spaces-append :
    (c : ℕ) (w s : Codes)
    → IsWord (c ∷ w)
    → split_spaces ((c ∷ w) ++ (32 ∷ s)) ≡ ((c ∷ w) ∷ split_spaces s)
unfolding split_spaces
split_spaces-append c [] s (e, h) = let f : (c == 32) ≡ false = ground arith in rw f refl
split_spaces-append c (d ∷ w) s (e, h) =
    let f : (c == 32) ≡ false = ground arith in rw f (ap (prepend c) (split_spaces-append d w s h))

-- Splitting the normalized text at the spaces gives the words back.
pub split_spaces-join_words :
    (w : Codes) (ws : List Codes)
    → All IsWord (w ∷ ws)
    → split_spaces (join_words (w ∷ ws)) ≡ (w ∷ ws)
split_spaces-join_words [] ws (h, hs) = elim h [ ]
split_spaces-join_words (c ∷ w) [] (h, hs) = split_spaces-word c w h
split_spaces-join_words (c ∷ w) (v ∷ ws) (h, hs) =
    split_spaces-append c w (join_words (v ∷ ws)) h
    ∙ ap (λ z. (c ∷ w) ∷ z) (split_spaces-join_words v ws hs)
