-- ===== src/Articles/Slug/Shape.antt =====
-- The shape of a slug: words of `[a-z0-9]`, joined by single dashes.
use realworld_tutorial.Base.{
  ℕ, ◌≡◌, refl, ◌⊎◌, inl, Bool, true, false, not, ◌&&◌, [], ◌∷◌, map, keep, arith, Codes, trim,
  drop_leading, drop_trailing, if◌then◌else◌,
}
use realworld_tutorial.Articles.Slug.{
  is_slug_char, is_dash, is_mark, replace_d, dash_runs, strip_dashes, or_fallback, to_base_slug,
}

-- The flag says that the unit before was a dash, or that there is none.
slug_from : Bool → Codes → Bool
slug_from after_dash [] = not after_dash
slug_from after_dash (c ∷ s) =
    let rest = slug_from (not (is_slug_char c)) s in
    if is_slug_char c then rest else (is_dash c && not after_dash && rest)

-- Not empty, no dash at either end, no two dashes in a row, and nothing but `[a-z0-9-]`.
unfoldable pub is_slug : Codes → Bool
unfolding slug_from
is_slug s = slug_from true s

-- The same, where a dash may end the list.
no_double : Bool → Codes → Bool
no_double after_dash [] = true
no_double after_dash (c ∷ s) =
    let rest = no_double (not (is_slug_char c)) s in
    if is_slug_char c then rest else (is_dash c && not after_dash && rest)

dash_runs-no_double : (b : Bool) (s : Codes) → no_double b (dash_runs b s) ≡ true
unfolding dash_runs no_double
dash_runs-no_double b [] = refl
dash_runs-no_double b (c ∷ s) = ground (
  arith,
  dash_runs-no_double (not (is_slug_char c)) s,
  dash_runs-no_double true s,
  dash_runs-no_double false s,
)

no_double-tail :
    (b : Bool) (c : ℕ) (s : Codes)
    → no_double b (c ∷ s) ≡ true
    → no_double (not (is_slug_char c)) s ≡ true
unfolding no_double
no_double-tail b c s h = ground arith

drop_leading-no_double :
    (b : Bool) (s : Codes) → no_double b s ≡ true → no_double true (drop_leading is_dash s) ≡ true
unfolding no_double
drop_leading-no_double b [] h = refl
drop_leading-no_double b (c ∷ s) h = ground (arith, drop_leading-no_double (not (is_slug_char c)) s)

-- One unit more in front of what `drop_trailing` has left.
kept_in_front : ℕ → Codes → Codes
kept_in_front c [] = if is_dash c then [] else c ∷ []
kept_in_front c (d ∷ r) = c ∷ d ∷ r

drop_trailing-cons :
    (c : ℕ) (s : Codes) → drop_trailing is_dash (c ∷ s) ≡ kept_in_front c (drop_trailing is_dash s)
unfolding kept_in_front
drop_trailing-cons c s = go (drop_trailing is_dash s)
  where
    go :
        (r : Codes)
        → ◌≡◌ {A = Codes}
            (elim r [ [] ↦ if is_dash c then [] else c ∷ [] | d ∷ t ↦ c ∷ d ∷ t ])
            (kept_in_front c r)
    go [] = refl
    go (d ∷ t) = refl

kept_in_front-slug_from :
    (b : Bool) (c : ℕ) (s r : Codes)
    → no_double b (c ∷ s) ≡ true
    → ((r ≡ []) ⊎ (slug_from (not (is_slug_char c)) r ≡ true))
    → (kept_in_front c r ≡ []) ⊎ (slug_from b (kept_in_front c r) ≡ true)
unfolding no_double slug_from kept_in_front
kept_in_front-slug_from b c s [] h k = ground arith
kept_in_front-slug_from b c s (d ∷ r) h k = ground arith

drop_trailing-slug_from :
    (b : Bool) (s : Codes)
    → no_double b s ≡ true
    → (drop_trailing is_dash s ≡ []) ⊎ (slug_from b (drop_trailing is_dash s) ≡ true)
drop_trailing-slug_from b [] h = inl refl
drop_trailing-slug_from b (c ∷ s) h = rw drop_trailing-cons (
    kept_in_front-slug_from b c s (drop_trailing is_dash s) h
      (drop_trailing-slug_from (not (is_slug_char c)) s (no_double-tail b c s h)))

or_fallback-is_slug :
    (s : Codes) → ((s ≡ []) ⊎ (slug_from true s ≡ true)) → slug_from true (or_fallback s) ≡ true
unfolding slug_from
or_fallback-is_slug [] h = refl
or_fallback-is_slug (c ∷ s) h = ground arith

-- Whatever the title and whatever Unicode's tables say, the base slug is not empty, has no dash at
-- either end and no two in a row, and otherwise holds only `a` to `z` and `0` to `9`.
pub to_base_slug-is_slug :
    (lower nfd : Codes → Codes) (title : Codes) → is_slug (to_base_slug lower nfd title) ≡ true
unfolding is_slug to_base_slug
to_base_slug-is_slug lower nfd title = or_fallback-is_slug (strip_dashes (dash_runs false plain)) (
    drop_trailing-slug_from true (drop_leading is_dash (dash_runs false plain))
      (drop_leading-no_double false (dash_runs false plain) (dash_runs-no_double false plain)))
  where
    plain : Codes
    plain = keep (λ c. not (is_mark c)) (nfd (map replace_d (lower (trim title))))
