-- ===== src/Articles/Slug/Candidate.antt =====
-- The candidate for a slug, and the search for its suffix.
use realworld_tutorial.Base.{
  ℕ, zero, suc, ◌+◌, ◌≤◌, ◌<◌, ◌≡◌, refl, sym, subst, ◌≢◌, ◌⊎◌, inl, inr, true, false, some, List,
  [], ◌∷◌, ◌++◌, arith, length, if◌then◌else◌, Codes, codes_eq, codes_eq_iff, includes, Bool-cases,
  ◌==◌,
}
use realworld_tutorial.Base.Decimal.{decimal, decimal_injective}
use realworld_tutorial.Articles.Slug.{with_suffix, next_suffix, pick_candidate}

append-cancel : (p s t : Codes) → (p ++ s) ≡ (p ++ t) → s ≡ t
append-cancel [] s t e = e
append-cancel (c ∷ p) s t e = append-cancel p s t (cc)

with_suffix-injective : (base : Codes) (m n : ℕ) → with_suffix base m ≡ with_suffix base n → m ≡ n
with_suffix-injective base m n e =
    decimal_injective m n (cc (append-cancel base (b'-' ∷ decimal m) (b'-' ∷ decimal n) e))

-- One occurrence of a slug is taken out.
without : Codes → List Codes → List Codes
without s [] = []
without s (t ∷ ts) = let rest = without s ts in if codes_eq t s then ts else t ∷ rest

length-without :
    (s : Codes) (ts : List Codes) → includes ts s ≡ true → suc (length (without s ts)) ≡ length ts
unfolding without
length-without s [] h = cc
length-without s (t ∷ ts) h = ground (arith, length-without s ts)

includes-without :
    (s r : Codes) (ts : List Codes)
    → r ≢ s
    → includes ts r ≡ true
    → includes (without s ts) r ≡ true
unfolding without
includes-without s r [] n h = h
includes-without s r (t ∷ ts) n h =
    ground (arith, codes_eq_iff t s, codes_eq_iff t r, includes-without s r ts n)

-- Distinct members are no more than the list is long.
pigeonhole :
    (f : ℕ → Codes) (k n : ℕ) (ts : List Codes)
    → ((i j : ℕ) → f i ≡ f j → i ≡ j)
    → ((i : ℕ) → n ≤ i → i < n + k → includes ts (f i) ≡ true)
    → k ≤ length ts
pigeonhole f zero n ts inj all = omega arith
pigeonhole f (suc k) n ts inj all = omega (
  arith,
  length-without (f n) ts (all n (omega arith) (omega arith)),
  pigeonhole f k (n + 1) (without (f n) ts) inj (λ i lo hi.
      includes-without (f n) (f i) ts (λ e. absurd (omega (arith, inj i n e)))
        (all i (omega arith) (omega arith))),
)

-- The suffixes below the one that is found are in use, and it is not.
Skipped : List Codes → Codes → ℕ → ℕ → Type 0
Skipped used base from to = (i : ℕ) → from ≤ i → i < to → includes used (with_suffix base i) ≡ true

Skipped-cons :
    (used : List Codes) (base : Codes) (n to : ℕ)
    → includes used (with_suffix base n) ≡ true
    → Skipped used base (n + 1) to
    → Skipped used base n to
unfolding Skipped
Skipped-cons used base n to taken h i lo hi = elim (eq_cases i n) [
  | inl e ↦ subst (λ k. includes used (with_suffix base k) ≡ true) (sym e) taken
  | inr ne ↦ h i (omega (arith, ne)) hi
]
  where
    eq_cases : (a b : ℕ) → (a ≡ b) ⊎ (a ≢ b)
    eq_cases a b = elim (Bool-cases (a == b)) [
      | inl e ↦ inl (ground arith)
      | inr e ↦ inr (λ q. ground arith)
    ]

next_suffix-lem :
    (used : List Codes) (base : Codes) (fuel n : ℕ)
    → ((m : ℕ) × (next_suffix used base fuel n ≡ some m)
        × (n ≤ m)
        × (includes used (with_suffix base m) ≡ false)
        × Skipped used base n m)
      ⊎ Skipped used base n (n + fuel)
unfolding next_suffix Skipped
next_suffix-lem used base zero n = inr (λ i lo hi. absurd (omega arith))
next_suffix-lem used base (suc fuel) n = elim (Bool-cases (includes used (with_suffix base n))) [
  | inr free ↦ inl (n, rw free refl, omega arith, free, λ i lo hi. absurd (omega arith))
  | inl taken ↦ elim (next_suffix-lem used base fuel (n + 1)) [
    | inl (m, e, le, free, below) ↦
        inl (m, rw taken e, omega arith, free, Skipped-cons used base n m taken below)
    | inr all ↦
        inr (Skipped-cons used base n (n + suc fuel) taken (λ i lo hi. all i lo (omega arith)))
  ]
]

-- How a candidate relates to the base and to the slugs in use: it is the base, or the base is in
-- use and it is the base with the least suffix from 2 on that is not.
pub Picked : List Codes → Codes → Codes → Type 0
Picked used base c =
    (c ≡ base)
    ⊎ ((includes used base ≡ true)
        × ((n : ℕ) × (2 ≤ n) × (c ≡ with_suffix base n) × Skipped used base 2 n))

pick-free :
    (used : List Codes) (base : Codes)
    → includes used base ≡ false
    → pick_candidate used base ≡ some base
unfolding pick_candidate
pick-free used base free = rw free refl

pick-taken :
    (used : List Codes) (base : Codes) (m : ℕ)
    → includes used base ≡ true
    → next_suffix used base (suc (length used)) 2 ≡ some m
    → pick_candidate used base ≡ some (with_suffix base m)
unfolding pick_candidate
pick-taken used base m taken e = rw taken (rw e refl)

-- The search for a candidate ends, whatever slugs are in use: the candidate is not one of them, and
-- it is the base, or else the base is in use and the candidate is the base with a suffix from 2 on,
-- all smaller suffixes being in use.
pub pick_candidate_lem :
    (used : List Codes) (base : Codes)
    → (c : Codes) × (pick_candidate used base ≡ some c)
      × (includes used c ≡ false)
      × Picked used base c
unfolding Picked Skipped
pick_candidate_lem used base = elim (Bool-cases (includes used base)) [
  | inr free ↦ (base, pick-free used base free, free, inl refl)
  | inl taken ↦ elim (next_suffix-lem used base (suc (length used)) 2) [
    | inl (m, e, le, free, below) ↦ (
      with_suffix base m,
      pick-taken used base m taken e,
      free,
      inr (taken, (m, le, refl, below)),
    )
    | inr all ↦ absurd (
        omega (
          arith,
          pigeonhole (with_suffix base) (suc (length used)) 2 used (with_suffix-injective base) all,
        ))
  ]
]
