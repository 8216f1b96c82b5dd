-- ===== src/Base/Framing.antt =====
-- Calls under which the state moves only along a transitive relation, on every outcome.
use realworld_tutorial.Base.Calls.{Exception, Outcome, ok, err, M, ◌>>=◌, catch_with}

module _ {ℓ κ} {S : Type ℓ} (R : S → S → Type κ) where
  abbrev pub Respects {μ} : {A : Type μ} → M S A → Type (ℓ ⊔ κ)
  Respects m = (s : S) → R s (m s).1

module _ {ℓ κ μ ν} {S : Type ℓ} (R : S → S → Type κ) (trans : (s t u : S) → R s t → R t u → R s u)
    {A : Type μ} {B : Type ν} where
  pub Respects-bind :
      (m : M S A) (f : A → M S B)
      → Respects R m
      → ((a : A) → Respects R (f a))
      → Respects R (m >>= f)
  Respects-bind m f h k s = go (m s).0 (m s).1 (h s)
    where
      go : (r : Outcome A) (t : S) → R s t → R s (((λ (v : S). (r, t)) >>= f) s).1
      go (ok a) t e = trans s t (f a t).1 e (k a t)
      go (err x) t e = e

module _ {ℓ κ μ} {S : Type ℓ} (R : S → S → Type κ) (trans : (s t u : S) → R s t → R t u → R s u)
    {A : Type μ} where
  pub Respects-catch :
      (m : M S A) (h : Exception → M S A)
      → Respects R m
      → ((e : Exception) → Respects R (h e))
      → Respects R (catch_with m h)
  Respects-catch m h p k s = go (m s).0 (m s).1 (p s)
    where
      go : (r : Outcome A) (t : S) → R s t → R s (catch_with (λ (v : S). (r, t)) h s).1
      go (ok a) t e = e
      go (err x) t e = trans s t (h x t).1 e (k x t)
