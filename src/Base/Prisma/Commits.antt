-- ===== src/Base/Prisma/Commits.antt =====
-- What follows from the laws of `$transaction` and of the queries, for any client.
use Prim.Native.Nat.{ℕ}
use Prim.Native.String.{String}
use mathlib.Core.Path.{◌≡◌, sym, ap, ◌∙◌, subst}
use mathlib.Core.Logic.{◌⊎◌, inl, inr}
use realworld_tutorial.Base.Calls.{Exception, http, prisma, error, Outcome, ok, err, M}
use realworld_tutorial.Base.Prisma.{Transactor, Transacts, IsDatabase}

-- The program's own exceptions are none of the database's.
pub http-ne-IsDatabase : {c : ℕ} {m : String} (e : Exception) → e ≡ http c m → IsDatabase e → ⊥
http-ne-IsDatabase (http c m) p d = d
http-ne-IsDatabase (prisma c t) p d = cc
http-ne-IsDatabase (error m) p d = cc

module _ {S : Type 0} {Same : S → S → Type 0} (tx : Transactor S Same) {V A : Type 0}
    (m : M (S × V) A) (s : S) (v : V) where
  open tx use {transact, transact_lem}

  -- A transaction that answers has run its body to the end, and its state is the body's.
  pub transact-eq-ok :
      (a : A) (u : S × V) → transact V A m (s, v) ≡ (ok a, u) → m (s, v) ≡ (ok a, u)
  transact-eq-ok a u e = go (m (s, v)) (transact V A m (s, v)) e (transact_lem V A m s v)
    where
      go : (b r : Outcome A × (S × V)) → r ≡ (ok a, u) → Transacts Same s b r → b ≡ (ok a, u)
      go (ok x, w) (ok y, z) p (inl (q, t)) = cc
      go (ok x, w) (ok y, z) p (inr (x', d, q, t, _)) = cc
      go (ok x, w) (err y, z) p t = cc
      go (err x, w) (ok y, z) p (q, t, _) = cc
      go (err x, w) (err y, z) p (q, t, _) = cc

  -- A transaction that throws has restored the rows; its local variables are the body's, and so is
  -- what it throws, unless the database failed at the commit.
  pub transact-eq-err :
      (x : Exception) (u : S × V)
      → transact V A m (s, v) ≡ (err x, u)
      → Same s u.0 × (u.1 ≡ (m (s, v)).1.1) × (((m (s, v)).0 ≡ err x) ⊎ IsDatabase x)
  transact-eq-err x u e = go (m (s, v)) (transact V A m (s, v)) e (transact_lem V A m s v)
    where
      go :
          (b r : Outcome A × (S × V))
          → r ≡ (err x, u)
          → Transacts Same s b r
          → Same s u.0 × (u.1 ≡ b.1.1) × ((b.0 ≡ err x) ⊎ IsDatabase x)
      go (ok a, w) r p (inl (q, t)) = cc
      go (ok a, w) r p (inr (y, d, q, t, l)) = (
        subst (λ z. Same s z.0) (ap (λ z. z.1) p) t,
        sym (ap (λ z. z.1.1) p) ∙ l,
        inr (subst IsDatabase (cc) d),
      )
      go (err y, w) r p (q, t, l) = (
        subst (λ z. Same s z.0) (ap (λ z. z.1) p) t,
        sym (ap (λ z. z.1.1) p) ∙ l,
        inl (sym q ∙ ap (λ z. z.0) p),
      )
