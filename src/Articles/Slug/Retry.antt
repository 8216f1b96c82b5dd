-- ===== src/Articles/Slug/Retry.antt =====
-- The retries around a write with a slug.
use realworld_tutorial.Base.{
  ℕ, zero, suc, ◌≡◌, refl, inl, inr, Bool-cases, true, false, Codes, subst, Exception, Outcome, ok,
  err, M, ◌>>=◌, catch_with,
}
use realworld_tutorial.Articles.Slug.{is_slug_conflict, slug_conflict, execute_from, execute, retry}

module _ {S T : Type 0} (candidate : M S Codes) (write : Codes → M S T) where
  -- The runs of `execute` with a number of attempts left, one constructor for each way an attempt
  -- ends.
  pub data Attempts : ℕ → S → Outcome T → S → Type 0 where
    exhausted : (s : S) → Attempts zero s (err slug_conflict) s
    no_candidate :
        (n : ℕ) (s t : S) (e : Exception) → candidate s ≡ (err e, t) → Attempts (suc n) s (err e) t
    written :
        (n : ℕ) (s t u : S) (slug : Codes) (a : T)
        → candidate s ≡ (ok slug, t)
        → write slug t ≡ (ok a, u)
        → Attempts (suc n) s (ok a) u
    refused :
        (n : ℕ) (s t u : S) (slug : Codes) (e : Exception)
        → candidate s ≡ (ok slug, t)
        → write slug t ≡ (err e, u)
        → is_slug_conflict e ≡ false
        → Attempts (suc n) s (err e) u
    conflicted :
        (n : ℕ) (s t u v : S) (slug : Codes) (e : Exception) (r : Outcome T)
        → candidate s ≡ (ok slug, t)
        → write slug t ≡ (err e, u)
        → is_slug_conflict e ≡ true
        → Attempts n u r v
        → Attempts (suc n) s r v

  wrote-Attempts :
      (n : ℕ) (s t : S) (slug : Codes)
      → candidate s ≡ (ok slug, t)
      → ((u : S)
          → Attempts n u (execute_from candidate write n u).0 (execute_from candidate write n u).1)
      → (r : Outcome T × S) → write slug t ≡ r
      → (let x =
            catch_with (λ (_ : S). r) (retry candidate write (execute_from candidate write n)) t in
          Attempts (suc n) s x.0 x.1)
  wrote-Attempts n s t slug e ih (ok a, u) w = written n s t u slug a e w
  wrote-Attempts n s t slug e ih (err x, u) w = elim (Bool-cases (is_slug_conflict x)) [
    | inl c ↦ rw c (
        conflicted n s t u (execute_from candidate write n u).1 slug x
          (execute_from candidate write n u).0 e w c (ih u))
    | inr c ↦ rw c (refused n s t u slug x e w c)
  ]

  attempt-Attempts :
      (n : ℕ) (s : S)
      → ((u : S)
          → Attempts n u (execute_from candidate write n u).0 (execute_from candidate write n u).1)
      → (r : Outcome Codes × S) → candidate s ≡ r
      → (let x =
            ((λ (_ : S). r) >>= λ slug.
            catch_with (write slug) (retry candidate write (execute_from candidate write n)))
              s in
          Attempts (suc n) s x.0 x.1)
  attempt-Attempts n s ih (ok slug, t) e = wrote-Attempts n s t slug e ih (write slug t) refl
  attempt-Attempts n s ih (err x, t) e = no_candidate n s t x e

  execute_from-Attempts :
      (n : ℕ) (s : S)
      → Attempts n s (execute_from candidate write n s).0 (execute_from candidate write n s).1
  unfolding execute_from
  execute_from-Attempts zero s = exhausted s
  execute_from-Attempts (suc n) s =
      attempt-Attempts n s (execute_from-Attempts n) (candidate s) refl

  -- Each run of `execute` makes at most three attempts, each with a candidate of its own: it answers
  -- what the write answered, passes on what the candidate or a write threw unless that is a slug
  -- conflict, makes another attempt after a slug conflict, and throws the 409 after three.
  pub execute-Attempts :
      (s : S) → Attempts 3 s (execute candidate write s).0 (execute candidate write s).1
  unfolding execute execute_from
  execute-Attempts s = execute_from-Attempts 3 s

  -- What holds at the end of the attempts, if a property of the state survives every candidate and
  -- every write that fails.
  abbrev pub Settled {κ} : (S → Type κ) → Outcome T → S → Type κ
  Settled P (ok a) v = (slug : Codes) × (t : S) × P t × (write slug t ≡ (ok a, v))
  Settled P (err e) v = P v

  pub Attempts-settles :
      (P : S → Type 0)
      → ((s : S) → P s → P (candidate s).1)
      → ((slug : Codes) (t : S) (e : Exception) (u : S) → P t → write slug t ≡ (err e, u) → P u)
      → (n : ℕ) (s : S) (r : Outcome T) (v : S) → Attempts n s r v
      → P s
      → Settled P r v
  Attempts-settles P c w n s r v (exhausted _) h = h
  Attempts-settles P c w n s r v (no_candidate n' _ _ e d) h = subst (λ x. P x.1) d (c s h)
  Attempts-settles P c w n s r v (written n' _ t _ slug a d k) h =
      (slug, t, subst (λ x. P x.1) d (c s h), k)
  Attempts-settles P c w n s r v (refused n' _ t _ slug e d k _) h =
      w slug t e v (subst (λ x. P x.1) d (c s h)) k
  Attempts-settles P c w n s r v (conflicted n' _ t u _ slug e _ d k _ more) h =
      Attempts-settles P c w n' u r v more (w slug t e u (subst (λ x. P x.1) d (c s h)) k)

  pub execute-settles :
      (P : S → Type 0)
      → ((s : S) → P s → P (candidate s).1)
      → ((slug : Codes) (t : S) (e : Exception) (u : S) → P t → write slug t ≡ (err e, u) → P u)
      → (s : S) (r : Outcome T) (v : S) → execute candidate write s ≡ (r, v)
      → P s
      → Settled P r v
  execute-settles P c w s r v e =
      Attempts-settles P c w 3 s r v
        (subst (λ (x : Outcome T × S). Attempts 3 s x.0 x.1) e (execute-Attempts s))
