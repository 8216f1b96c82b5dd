-- ===== src/Auth/Token/Evolution.antt =====
-- How a refresh token's row may change.
use mathlib.Core.List.{Memᴰ}
use realworld_tutorial.Base.{
  ℕ, ◌≤◌, ◌≡◌, refl, sym, ◌∙◌, ◌≢◌, ◌⊎◌, inl, inr, Bool, true, none, List, [], ◌∷◌, map, arith, All,
  All-of_mem, All-mem, All-append, All-map, All-keep, Outcome, ok, err, Respects, Bool-cases,
}
use realworld_tutorial.Base.Prisma.{Delegate, Creates, Updates, UpdatesOne, Deletes, patch}
use realworld_tutorial.Auth.Token.{RefreshTokenRow, clash}

pub record Grows (q r : RefreshTokenRow) : Type 0 where
  pub same_id : r.id ≡ q.id
  pub same_user : r.user_id ≡ q.user_id
  pub same_hash : r.token_hash ≡ q.token_hash
  pub same_expiry : r.expires_at ≡ q.expires_at
  pub keeps_replaced : q.replaced_by_id ≢ none → r.replaced_by_id ≡ q.replaced_by_id
  pub keeps_revoked : q.revoked_at ≢ none → r.revoked_at ≢ none

pub Grows-refl : (q : RefreshTokenRow) → Grows q q
Grows-refl q = record {
  same_id = refl;
  same_user = refl;
  same_hash = refl;
  same_expiry = refl;
  keeps_replaced = λ _. refl;
  keeps_revoked = λ h. h;
}

pub Grows-trans : (p q r : RefreshTokenRow) → Grows p q → Grows q r → Grows p r
Grows-trans p q r g h = record {
  same_id = h.same_id ∙ g.same_id;
  same_user = h.same_user ∙ g.same_user;
  same_hash = h.same_hash ∙ g.same_hash;
  same_expiry = h.same_expiry ∙ g.same_expiry;
  keeps_replaced =
      λ n. h.keeps_replaced (λ e. n (sym (g.keeps_replaced n) ∙ e)) ∙ g.keeps_replaced n;
  keeps_revoked = λ n. h.keeps_revoked (g.keeps_revoked n);
}

-- A row is new, or it has grown out of an old one.
abbrev pub Descends : ℕ → List RefreshTokenRow → RefreshTokenRow → Type 0
Descends next before r = (next ≤ r.id) ⊎ ((q : RefreshTokenRow) × Memᴰ q before × Grows q r)

module _ (db : Delegate RefreshTokenRow clash) where
  open db use {
    Store, rows, next_id, create, update_many, update, delete_many, create_lem, update_many_lem,
    update_lem, delete_many_lem,
  }

  pub record Evolves (s t : Store) : Type 0 where
    pub next : next_id s ≤ next_id t
    pub each : All (Descends (next_id s) (rows s)) (rows t)

  pub Evolves-trans : (s t u : Store) → Evolves s t → Evolves t u → Evolves s u
  Evolves-trans s t u e f = record { next = omega arith; each = All-of_mem _ (rows u) older }
    where
      older : (r : RefreshTokenRow) → Memᴰ r (rows u) → Descends (next_id s) (rows s) r
      older r m = elim (All-mem _ (rows u) r f.each m) [
        | inl new ↦ inl (omega (arith, e.next))
        | inr (q, mq, g) ↦ elim (All-mem _ (rows t) q e.each mq) [
          | inl new ↦ inl (omega (arith, g.same_id))
          | inr (p, mp, h) ↦ inr (p, mp, Grows-trans p q r h g)
        ]
      ]

  -- The rows of `t` are a listing over the rows of `s`.
  from_rows :
      (s t : Store) (after : List RefreshTokenRow)
      → next_id s ≤ next_id t
      → rows t ≡ after
      → All (Descends (next_id s) (rows s)) after
      → Evolves s t
  from_rows s t after n e h = record { next = n; each = rw e h }

  kept : (s : Store) → All (Descends (next_id s) (rows s)) (rows s)
  kept s = All-of_mem _ (rows s) (λ a m. inr (a, m, Grows-refl a))

  pub Evolves-same : (s t : Store) → next_id s ≤ next_id t → rows t ≡ rows s → Evolves s t
  Evolves-same s t n e = from_rows s t (rows s) n e (kept s)

  pub Evolves-refl : (s : Store) → Evolves s s
  Evolves-refl s = Evolves-same s s (omega arith) refl

  patched :
      (p : RefreshTokenRow → Bool) (f : RefreshTokenRow → RefreshTokenRow) (s : Store)
      → ((a : RefreshTokenRow) → p a ≡ true → Grows a (f a))
      → All (Descends (next_id s) (rows s)) (map (patch p f) (rows s))
  patched p f s g =
      All-map _ (patch p f) (rows s) (All-of_mem _ (rows s) (λ a m. inr (a, m, grown a)))
    where
      grown : (a : RefreshTokenRow) → Grows a (patch p f a)
      grown a = elim (Bool-cases (p a)) [ inl e ↦ rw e (g a e) | inr e ↦ rw e (Grows-refl a) ]

  pub update_many-Evolves :
      (p : RefreshTokenRow → Bool) (f : RefreshTokenRow → RefreshTokenRow)
      → ((a : RefreshTokenRow) → p a ≡ true → Grows a (f a))
      → Respects Evolves (update_many p f)
  update_many-Evolves p f g s =
      go (update_many p f s).0 (update_many_lem p f s).0 (update_many_lem p f s).1
    where
      t : Store
      t = (update_many p f s).1

      go : (r : Outcome ℕ) → Updates p f (rows s) r (rows t) → next_id s ≤ next_id t → Evolves s t
      go (ok n) (c, e) k = from_rows s t _ k e (patched p f s g)
      go (err x) (c, e) k = Evolves-same s t k e

  pub update-Evolves :
      (p : RefreshTokenRow → Bool) (f : RefreshTokenRow → RefreshTokenRow)
      → ((a : RefreshTokenRow) → p a ≡ true → Grows a (f a))
      → Respects Evolves (update p f)
  update-Evolves p f g s = go (update p f s).0 (update_lem p f s).0 (update_lem p f s).1
    where
      t : Store
      t = (update p f s).1

      go :
          (r : Outcome RefreshTokenRow)
          → UpdatesOne p f (rows s) r (rows t)
          → next_id s ≤ next_id t
          → Evolves s t
      go (ok n) (q, m, y, c, e) k = from_rows s t _ k e (patched p f s g)
      go (err x) (c, e) k = Evolves-same s t k e

  pub delete_many-Evolves : (p : RefreshTokenRow → Bool) → Respects Evolves (delete_many p)
  delete_many-Evolves p s = go (delete_many p s).0 (delete_many_lem p s).0 (delete_many_lem p s).1
    where
      t : Store
      t = (delete_many p s).1

      go : (r : Outcome ℕ) → Deletes p (rows s) r (rows t) → next_id s ≤ next_id t → Evolves s t
      go (ok n) (c, e) k = from_rows s t _ k e (All-keep _ _ (rows s) (kept s))
      go (err x) (c, e) k = Evolves-same s t k e

  pub create-Evolves :
      (make : ℕ → RefreshTokenRow) → ((i : ℕ) → (make i).id ≡ i) → Respects Evolves (create make)
  create-Evolves make ids s = go (create make s).0 (create_lem make s)
    where
      t : Store
      t = (create make s).1

      go :
          (r : Outcome RefreshTokenRow)
          → Creates clash make (next_id s) (rows s) r (next_id t) (rows t)
          → Evolves s t
      go (ok r) (i, lo, hi, is, e, free) =
          from_rows s t _ (omega arith) e
            (All-append _ (rows s) (r ∷ []) (kept s) (inl (rw is (rw ids lo)), tt))
      go (err x) (d, k, e) = Evolves-same s t k e
