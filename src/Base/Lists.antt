-- ===== src/Base/Lists.antt =====
-- Lists measured by native numbers, and predicates on lists by recursion.
use Prim.Native.Nat.{ℕ, suc, ◌<◌}
use mathlib.Core.Path.{◌≡◌, refl, sym, ap, subst}
use mathlib.Core.Logic.{◌⊎◌, inl, inr}
use mathlib.Core.Bool.{Bool, true, false}
use mathlib.Core.List.{List, [], ◌∷◌, ◌++◌, map, Memᴰ}
use realworld_tutorial.Base.Tests.{if◌then◌else◌, Bool-cases}

module _ {ℓ} {A : Type ℓ} where
  abbrev pub length : List A → ℕ
  length [] = 0
  length (x ∷ xs) = suc (length xs)

  -- `Array.prototype.filter`
  abbrev pub keep : (A → Bool) → List A → List A
  keep p [] = []
  keep p (x ∷ xs) = let rest = keep p xs in if p x then x ∷ rest else rest

  -- `Array.prototype.some`
  abbrev pub some_is : (A → Bool) → List A → Bool
  some_is p [] = false
  some_is p (x ∷ xs) = if p x then true else some_is p xs

  abbrev pub append_one : List A → A → List A
  append_one xs a = xs ++ a ∷ []

module _ {ℓ κ} {A : Type ℓ} (P : A → Type κ) where
  abbrev pub All : List A → Type κ
  All [] = Unit
  All (x ∷ xs) = P x × All xs

module _ {ℓ κ} {A : Type ℓ} (P : A → Type κ) where
  pub All-mem : (xs : List A) (a : A) → All P xs → Memᴰ a xs → P a
  All-mem [] a h m = elim m [ ]
  All-mem (x ∷ xs) a (p, h) (Memᴰ.head e) = subst P (sym e) p
  All-mem (x ∷ xs) a (p, h) (Memᴰ.tail m) = All-mem xs a h m

  pub All-of_mem : (xs : List A) → ((a : A) → Memᴰ a xs → P a) → All P xs
  All-of_mem [] f = tt
  All-of_mem (x ∷ xs) f = (f x (Memᴰ.head refl), All-of_mem xs (λ a m. f a (Memᴰ.tail m)))

  pub All-append : (xs ys : List A) → All P xs → All P ys → All P (xs ++ ys)
  All-append [] ys h k = k
  All-append (x ∷ xs) ys (p, h) k = (p, All-append xs ys h k)

  pub All-append_left : (xs ys : List A) → All P (xs ++ ys) → All P xs
  All-append_left [] ys h = tt
  All-append_left (x ∷ xs) ys (p, h) = (p, All-append_left xs ys h)

  pub All-keep : (t : A → Bool) (xs : List A) → All P xs → All P (keep t xs)
  All-keep t [] h = tt
  All-keep t (x ∷ xs) (p, h) = elim (Bool-cases (t x)) [
    | inl e ↦ rw e (p, All-keep t xs h)
    | inr e ↦ rw e (All-keep t xs h)
  ]

module _ {ℓ κ μ} {A : Type ℓ} (P : A → Type κ) (Q : A → Type μ) where
  pub All-imp : (xs : List A) → ((a : A) → P a → Q a) → All P xs → All Q xs
  All-imp [] f h = tt
  All-imp (x ∷ xs) f (p, h) = (f x p, All-imp xs f h)

module _ {ℓ κ μ} {A : Type ℓ} {B : Type κ} (Q : B → Type μ) where
  pub All-map : (f : A → B) (xs : List A) → All (λ a. Q (f a)) xs → All Q (map f xs)
  All-map f [] h = tt
  All-map f (x ∷ xs) (p, h) = (p, All-map f xs h)

module _ {ℓ κ} {A : Type ℓ} {B : Type κ} where
  pub length-map : (f : A → B) (xs : List A) → length (map f xs) ≡ length xs
  length-map f [] = refl
  length-map f (x ∷ xs) = ap suc (length-map f xs)

module _ {ℓ} {A : Type ℓ} where
  -- The elements that are kept are the elements that pass.
  pub mem-keep : (t : A → Bool) (xs : List A) (a : A) → Memᴰ a xs → t a ≡ true → Memᴰ a (keep t xs)
  mem-keep t [] a m e = elim m [ ]
  mem-keep t (x ∷ xs) a (Memᴰ.head p) e = rw (subst (λ y. t y ≡ true) p e) (Memᴰ.head p)
  mem-keep t (x ∷ xs) a (Memᴰ.tail m) e = elim (Bool-cases (t x)) [
    | inl b ↦ rw b (Memᴰ.tail (mem-keep t xs a m e))
    | inr b ↦ rw b (mem-keep t xs a m e)
  ]

  pub keep-mem :
      (t : A → Bool) (xs : List A) (a : A) → Memᴰ a (keep t xs) → Memᴰ a xs × (t a ≡ true)
  keep-mem t [] a m = elim m [ ]
  keep-mem t (x ∷ xs) a m = elim (Bool-cases (t x)) [
    | inl b ↦ kept b (keep-mem t xs a) (rw b at m)
    | inr b ↦ let (n, e) = keep-mem t xs a (rw b at m) in (Memᴰ.tail n, e)
  ]
    where
      kept :
          t x ≡ true
          → (Memᴰ a (keep t xs) → Memᴰ a xs × (t a ≡ true))
          → Memᴰ a (x ∷ keep t xs)
          → Memᴰ a (x ∷ xs) × (t a ≡ true)
      kept b ih (Memᴰ.head p) = (Memᴰ.head p, rw p b)
      kept b ih (Memᴰ.tail n) = (Memᴰ.tail (ih n).0, (ih n).1)

  pub mem-append_left : (xs ys : List A) (a : A) → Memᴰ a xs → Memᴰ a (xs ++ ys)
  mem-append_left [] ys a m = elim m [ ]
  mem-append_left (x ∷ xs) ys a (Memᴰ.head p) = Memᴰ.head p
  mem-append_left (x ∷ xs) ys a (Memᴰ.tail m) = Memᴰ.tail (mem-append_left xs ys a m)

  pub mem-append_one : (xs : List A) (a : A) → Memᴰ a (append_one xs a)
  mem-append_one [] a = Memᴰ.head refl
  mem-append_one (x ∷ xs) a = Memᴰ.tail (mem-append_one xs a)

  pub mem-append_one_inv : (xs : List A) (a b : A) → Memᴰ b (append_one xs a) → Memᴰ b xs ⊎ (b ≡ a)
  mem-append_one_inv [] a b (Memᴰ.head e) = inr e
  mem-append_one_inv [] a b (Memᴰ.tail m) = elim m [ ]
  mem-append_one_inv (x ∷ xs) a b (Memᴰ.head e) = inl (Memᴰ.head e)
  mem-append_one_inv (x ∷ xs) a b (Memᴰ.tail m) = elim (mem-append_one_inv xs a b m) [
    | inl n ↦ inl (Memᴰ.tail n)
    | inr e ↦ inr e
  ]

  pub keep_pos :
      (t : A → Bool) (xs : List A) → 0 < length (keep t xs) → (a : A) × Memᴰ a xs × (t a ≡ true)
  keep_pos t [] h = elim h [ ]
  keep_pos t (x ∷ xs) h = elim (Bool-cases (t x)) [
    | inl e ↦ (x, Memᴰ.head refl, e)
    | inr e ↦ let (a, m, q) = keep_pos t xs (rw e at h) in (a, Memᴰ.tail m, q)
  ]

module _ {ℓ κ} {A : Type ℓ} {B : Type κ} where
  pub mem-map : (f : A → B) (xs : List A) (a : A) → Memᴰ a xs → Memᴰ (f a) (map f xs)
  mem-map f [] a m = elim m [ ]
  mem-map f (x ∷ xs) a (Memᴰ.head e) = Memᴰ.head (ap f e)
  mem-map f (x ∷ xs) a (Memᴰ.tail m) = Memᴰ.tail (mem-map f xs a m)

  pub map-mem :
      (f : A → B) (xs : List A) (b : B) → Memᴰ b (map f xs) → (a : A) × Memᴰ a xs × (b ≡ f a)
  map-mem f [] b m = elim m [ ]
  map-mem f (x ∷ xs) b (Memᴰ.head e) = (x, Memᴰ.head refl, e)
  map-mem f (x ∷ xs) b (Memᴰ.tail m) = let (a, n, e) = map-mem f xs b m in (a, Memᴰ.tail n, e)

pub some_is-mem {ℓ} :
    {A : Type ℓ} (p : A → Bool) (xs : List A)
    → some_is p xs ≡ true
    → (a : A) × Memᴰ a xs × (p a ≡ true)
some_is-mem p [] h = cc
some_is-mem p (x ∷ xs) h = elim (Bool-cases (p x)) [
  | inl e ↦ (x, Memᴰ.head refl, e)
  | inr e ↦
      let (a, m, q) =
        some_is-mem p xs (subst (λ b. (if b then true else some_is p xs) ≡ true) e h) in
      (a, Memᴰ.tail m, q)
]

pub mem-some_is {ℓ} :
    {A : Type ℓ} (p : A → Bool) (xs : List A) (a : A) → Memᴰ a xs → p a ≡ true → some_is p xs ≡ true
mem-some_is p [] a m h = elim m [ ]
mem-some_is p (x ∷ xs) a (Memᴰ.head e) h = rw (subst (λ z. p z ≡ true) e h)
mem-some_is p (x ∷ xs) a (Memᴰ.tail m) h = elim (Bool-cases (p x)) [
  | inl e ↦ rw e
  | inr e ↦ rw e (mem-some_is p xs a m h)
]
