-- ===== src/Base/Calls.antt =====
-- What a call answers: a value, or an exception that it throws; and calls that change a state.
use Prim.Native.Nat.{ℕ}
use Prim.Native.String.{String}
use mathlib.Core.Path.{◌≡◌, refl, sym, ap}
use mathlib.Core.Logic.{◌⊎◌, inl, inr}
use mathlib.Core.Bool.{Bool, true, false}
use mathlib.Core.List.{List}

-- `error.meta?.target` of a Prisma error: a list of field names, another value by its text, or
-- nothing.
pub data Target : Type 0 where
  fields : List String → Target
  as_text : String → Target
  absent : Target

-- What the code throws. A message that goes through `i18n.t` is named by its key.
pub data Exception : Type 0 where
  http : ℕ → String → Exception
  prisma : String → Target → Exception
  error : String → Exception

pub data Outcome {ℓ} (A : Type ℓ) : Type ℓ where
  ok : A → Outcome A
  err : Exception → Outcome A

-- The state comes back after a throw too: what was written stays written.
abbrev pub M {ℓ κ} : Type ℓ → Type κ → Type (ℓ ⊔ κ)
M S A = S → Outcome A × S

module _ {ℓ κ} {S : Type ℓ} {A : Type κ} where
  abbrev pub pure : A → M S A
  pure a s = (ok a, s)

  abbrev pub throw : Exception → M S A
  throw e s = (err e, s)

  -- A call that reads the state.
  abbrev pub reads : (S → Outcome A) → M S A
  reads f s = (f s, s)

  abbrev pub catch_with : M S A → (Exception → M S A) → M S A
  catch_with m h s = let (r, t) = m s in elim r [ ok a ↦ (ok a, t) | err e ↦ h e t ]

-- A call on the first part of a state; the second part holds a function's local variables.
abbrev pub lift_fst {ℓ κ μ} : {S : Type ℓ} {V : Type κ} {A : Type μ} → M S A → M (S × V) A
lift_fst m u = let (r, t) = m u.0 in (r, (t, u.1))

abbrev pub set_local {ℓ κ} : {S : Type ℓ} {V : Type κ} → V → M (S × V) (Unit {0})
set_local v u = (ok tt, (u.0, v))

infixl 5 ◌>>=◌ ◌>>◌
abbrev pub ◌>>=◌ {ℓ κ μ} : {S : Type ℓ} {A : Type κ} {B : Type μ} → M S A → (A → M S B) → M S B
◌>>=◌ m f s = let (r, t) = m s in elim r [ ok a ↦ f a t | err e ↦ (err e, t) ]

abbrev pub ◌>>◌ {ℓ κ μ} : {S : Type ℓ} {A : Type κ} {B : Type μ} → M S A → M S B → M S B
m >> k = m >>= λ _. k

abbrev pub throw_if {ℓ} : {S : Type ℓ} → Bool → Exception → M S (Unit {0})
throw_if true e s = (err e, s)
throw_if false e s = (ok tt, s)

module _ {ℓ κ μ} {S : Type ℓ} {A : Type κ} {B : Type μ} where
  -- A chain that answers has answered at each link.
  pub >>=-eq-ok :
      (m : M S A) (f : A → M S B) (s : S) {b : B} {u : S}
      → (m >>= f) s ≡ (ok b, u)
      → (a : A) × (t : S) × (m s ≡ (ok a, t)) × (f a t ≡ (ok b, u))
  >>=-eq-ok m f s {b} {u} h = go (m s) refl h
    where
      go :
          (r : Outcome A × S)
          → m s ≡ r
          → ((λ _. r) >>= f) s ≡ (ok b, u)
          → (a : A) × (t : S) × (m s ≡ (ok a, t)) × (f a t ≡ (ok b, u))
      go (ok a, t) e k = (a, t, e, k)
      go (err x, t) e k = cc

module _ {ℓ κ μ} {S : Type ℓ} {A : Type κ} {B : Type μ} where
  -- A chain that throws has thrown at one of its links.
  pub >>=-eq-err :
      (m : M S A) (f : A → M S B) (s : S) {x : Exception} {u : S}
      → (m >>= f) s ≡ (err x, u)
      → (m s ≡ (err x, u)) ⊎ ((a : A) × (t : S) × (m s ≡ (ok a, t)) × (f a t ≡ (err x, u)))
  >>=-eq-err m f s {x} {u} h = go (m s) refl h
    where
      go :
          (r : Outcome A × S)
          → m s ≡ r
          → ((λ _. r) >>= f) s ≡ (err x, u)
          → (m s ≡ (err x, u)) ⊎ ((a : A) × (t : S) × (m s ≡ (ok a, t)) × (f a t ≡ (err x, u)))
      go (ok a, t) e k = inr (a, t, e, k)
      go (err y, t) e k = inl (cc)

pub Outcome-cases {ℓ} :
    {A : Type ℓ} (r : Outcome A) → ((a : A) × (r ≡ ok a)) ⊎ ((e : Exception) × (r ≡ err e))
Outcome-cases (ok a) = inl (a, refl)
Outcome-cases (err e) = inr (e, refl)

module _ {ℓ κ μ ν} {S : Type ℓ} {A : Type κ} {B : Type μ} (P : Outcome B × S → Type ν) where
  -- What holds of a chain: what the first link's exception gives, and what the rest gives.
  pub >>=-cases :
      (m : M S A) (f : A → M S B) (s : S)
      → ((e : Exception) (t : S) → m s ≡ (err e, t) → P (err e, t))
      → ((a : A) (t : S) → m s ≡ (ok a, t) → P (f a t))
      → P ((m >>= f) s)
  >>=-cases m f s h k = go (m s) refl
    where
      go : (r : Outcome A × S) → m s ≡ r → P (((λ (_ : S). r) >>= f) s)
      go (ok a, t) e = k a t e
      go (err x, t) e = h x t e

-- A call on the first part leaves the second part alone.
pub lift_fst-eq {ℓ κ μ} :
    {S : Type ℓ} {V : Type κ} {A : Type μ} (m : M S A) (u : S × V) (r : Outcome A) (v : S × V)
    → lift_fst m u ≡ (r, v)
    → (m u.0 ≡ (r, v.0)) × (v.1 ≡ u.1)
lift_fst-eq m u r v h = (ap (λ x. (x.0, x.1.0)) h, sym (ap (λ x. x.1.1) h))
