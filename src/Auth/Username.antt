-- ===== src/Auth/Username.antt =====
-- src/auth/account/username-generator.ts and src/auth/auth.config.ts: the user names that accounts of
-- a provider get. `toLowerCase` is a parameter; the clock and the random bytes are arguments.
use realworld_tutorial.Base.{
  ℕ, zero, suc, ◌+◌, ◌-◌, ◌≤◌, max, ◌≡◌, refl, ap, ◌∙◌, inl, inr, Bool, true, false, ◌&&◌, ◌||◌, [],
  ◌∷◌, ◌++◌, arith, leb, ◌==◌, keep, length, if◌then◌else◌, Codes, codes, slice_to, length-slice_to,
  Bool-cases, All,
}
use realworld_tutorial.Base.Decimal.{decimal}

abbrev pub username_min : ℕ
username_min = 3

abbrev pub username_max : ℕ
username_max = 30

-- `[a-z0-9._-]`
abbrev pub is_name_char : ℕ → Bool
is_name_char c =
    (leb b'a' c && leb c b'z') || (leb b'0' c && leb c b'9') || c == b'.' || c == b'_' || c == b'-'

-- `split(separator)[0]`
abbrev pub before : ℕ → Codes → Codes
before separator [] = []
before separator (c ∷ s) = let rest = before separator s in if c == separator then [] else c ∷ rest

abbrev pub pad_short : Codes → Codes
pad_short cleaned =
    if leb username_min (length cleaned)
    then cleaned
    else slice_to username_max (codes "user" ++ cleaned)

unfoldable pub base_username_from_email : (Codes → Codes) → Codes → Codes
base_username_from_email lower email =
    pad_short (slice_to username_max (keep is_name_char (lower (before b'+' (before b'@' email)))))

abbrev pub name_suffix : ℕ → Codes → Codes
name_suffix time random = b'_' ∷ decimal time ++ (b'_' ∷ random)

unfoldable pub generate_username : (Codes → Codes) → Codes → ℕ → Codes → Codes
unfolding base_username_from_email
generate_username lower email time random =
    let suffix = name_suffix time random in
    slice_to username_max (
      slice_to (max 0 (username_max - length suffix)) (base_username_from_email lower email)
      ++ suffix)

slice_to-all : (n : ℕ) (s : Codes) → length s ≤ n → slice_to n s ≡ s
slice_to-all zero [] h = refl
slice_to-all zero (c ∷ s) h = absurd (omega arith)
slice_to-all (suc n) [] h = refl
slice_to-all (suc n) (c ∷ s) h = ap (λ t. c ∷ t) (slice_to-all n s (omega arith))

length-append : (s t : Codes) → length (s ++ t) ≡ length s + length t
length-append [] t = omega arith
length-append (c ∷ s) t = omega (arith, length-append s t)

abbrev pub IsName : Codes → Type 0
IsName s = All (λ c. is_name_char c ≡ true) s

keep-IsName : (s : Codes) → IsName (keep is_name_char s)
keep-IsName [] = tt
keep-IsName (c ∷ s) = elim (Bool-cases (is_name_char c)) [
  | inl e ↦ rw e (e, keep-IsName s)
  | inr e ↦ rw e (keep-IsName s)
]

slice_to-IsName : (n : ℕ) (s : Codes) → IsName s → IsName (slice_to n s)
slice_to-IsName zero s h = tt
slice_to-IsName (suc n) [] h = tt
slice_to-IsName (suc n) (c ∷ s) (p, h) = (p, slice_to-IsName n s h)

-- The name that stands before the suffix has three to thirty units, all of them `a` to `z`, `0` to
-- `9`, `.`, `_` or `-`, whatever the address.
pub base_username_lem :
    (lower : Codes → Codes) (email : Codes)
    → (username_min ≤ length (base_username_from_email lower email))
      × (length (base_username_from_email lower email) ≤ username_max)
      × IsName (base_username_from_email lower email)
unfolding base_username_from_email
base_username_lem lower email =
    padded (slice_to username_max kept) (length-slice_to username_max kept)
      (slice_to-IsName username_max kept (keep-IsName (lower (before b'+' (before b'@' email)))))
  where
    kept : Codes
    kept = keep is_name_char (lower (before b'+' (before b'@' email)))

    padded :
        (s : Codes)
        → length s ≤ username_max
        → IsName s
        → (username_min ≤ length (pad_short s))
          × (length (pad_short s) ≤ username_max)
          × IsName (pad_short s)
    padded s le h = elim (Bool-cases (leb username_min (length s))) [
      | inl e ↦ rw e (ground arith, le, h)
      | inr e ↦ rw e (short e)
    ]
      where
        short :
            leb username_min (length s) ≡ false
            → (username_min ≤ length (slice_to username_max (codes "user" ++ s)))
              × (length (slice_to username_max (codes "user" ++ s)) ≤ username_max)
              × IsName (slice_to username_max (codes "user" ++ s))
        short e' = (
          omega arith,
          length-slice_to username_max (codes "user" ++ s),
          slice_to-IsName username_max (codes "user" ++ s) (refl, (refl, (refl, (refl, h)))),
        )

-- A generated name has at most thirty units, whatever the address, the time and the random part.
pub length-generate_username :
    (lower : Codes → Codes) (email : Codes) (time : ℕ) (random : Codes)
    → length (generate_username lower email time random) ≤ username_max
unfolding generate_username
length-generate_username lower email time random = length-slice_to username_max (
    slice_to (max 0 (username_max - length (name_suffix time random)))
      (base_username_from_email lower email)
    ++ name_suffix time random)

-- As long as the suffix has no more than thirty units, nothing of it is cut off: it stands behind the
-- beginning of the base name.
pub generate_username_lem :
    (lower : Codes → Codes) (email : Codes) (time : ℕ) (random : Codes)
    → length (name_suffix time random) ≤ username_max
    → generate_username lower email time random
      ≡ slice_to
          (username_max - length (name_suffix time random))
          (base_username_from_email lower email)
        ++ name_suffix time random
unfolding generate_username
generate_username_lem lower email time random h =
    slice_to-all username_max (base ++ name_suffix time random) (
      omega (
        arith,
        length-append base (name_suffix time random),
        length-slice_to (max 0 (username_max - length (name_suffix time random)))
            (base_username_from_email lower email),
      ))
    ∙ ap (λ n. slice_to n (base_username_from_email lower email) ++ name_suffix time random)
        (widths (length (name_suffix time random)))
  where
    base : Codes
    base =
        slice_to (max 0 (username_max - length (name_suffix time random)))
          (base_username_from_email lower email)

    widths : (n : ℕ) → max 0 (username_max - n) ≡ username_max - n
    widths n = omega arith
