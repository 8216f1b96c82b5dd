-- ===== src/Auth/Token/Requests.antt =====
-- The answers of `rotate`, `revoke` and the clean-up, request by request.
use mathlib.Core.List.{Memᴰ}
use realworld_tutorial.Base.{
  ℕ, ◌≤◌, ◌<◌, String, ◌≡◌, refl, ap, ◌∙◌, subst, ◌≢◌, inl, inr, false, not, ◌||◌, Option, none,
  some, arith, leb, is_none, Bool-cases, Exception, http, Outcome, ok, err, ◌>>◌, throw, >>=-eq-ok,
  >>=-eq-err, All, All-of_mem, All-imp, All-map, eq_iff, str_eq,
}
use realworld_tutorial.Base.Prisma.{Delegate, Finds, Updates, patch, IsDatabase}
use realworld_tutorial.Base.Prisma.Commits.{http-ne-IsDatabase}
use realworld_tutorial.Auth.Token.{
  RefreshTokenRow, clash, Draws, invalid, revoke_all_for_user, is_live_of, set_revoked,
  find_by_hash, check_stored,
}

module _ (db : Delegate RefreshTokenRow clash) where
  open db use {Store, rows, next_id, find_first, find_first_lem, update_many, update_many_lem}

  -- A row that `findByHash` has found, and the checks have let through.
  pub record IsUsable (token_hash : String) (now : ℕ) (s : Store) (q : RefreshTokenRow)
      : Type 0 where
    pub listed : Memᴰ q (rows s)
    pub hashed : q.token_hash ≡ token_hash
    pub unused : q.replaced_by_id ≡ none
    pub live : q.revoked_at ≡ none
    pub unexpired : now < q.expires_at

  pub find_by_hash-mem :
      (h : String) (s : Store) (q : RefreshTokenRow) (t : Store)
      → find_by_hash db h s ≡ (ok (some q), t)
      → Memᴰ q (rows s) × (q.token_hash ≡ h) × (s ≡ t)
  unfolding find_by_hash
  find_by_hash-mem h s q t e =
      let (m, is) =
        subst (Finds (λ r. str_eq r.token_hash h) (rows s)) (ap (λ x. x.0) e)
          (find_first_lem (λ r. str_eq r.token_hash h) s) in
      (m, (eq_iff q.token_hash h).0 is, ap (λ x. x.1) e)

  pub find_by_hash-none :
      (h : String) (s t : Store)
      → find_by_hash db h s ≡ (ok none, t)
      → All (λ r. r.token_hash ≢ h) (rows s) × (s ≡ t)
  unfolding find_by_hash
  find_by_hash-none h s t e = (
    All-imp _ _ (rows s) (λ r other same. cc ((eq_iff r.token_hash h).1 same, other))
        (subst (Finds (λ r. str_eq r.token_hash h) (rows s)) (ap (λ x. x.0) e)
          (find_first_lem (λ r. str_eq r.token_hash h) s)),
    ap (λ x. x.1) e,
  )

  pub find_by_hash-IsDatabase :
      (h : String) (s : Store) (x : Exception) (t : Store)
      → find_by_hash db h s ≡ (err x, t)
      → IsDatabase x
  unfolding find_by_hash
  find_by_hash-IsDatabase h s x t e =
      subst (Finds (λ r. str_eq r.token_hash h) (rows s)) (ap (λ x. x.0) e)
        (find_first_lem (λ r. str_eq r.token_hash h) s)

  pub check_stored-eq-ok :
      (o : Option RefreshTokenRow) (d : Draws) (s : Store) (q : RefreshTokenRow) (t : Store)
      → check_stored db o d s ≡ (ok q, t)
      → (o ≡ some q)
        × (q.replaced_by_id ≡ none)
        × (q.revoked_at ≡ none)
        × (d.checked_at < q.expires_at)
        × (s ≡ t)
  unfolding check_stored
  check_stored-eq-ok none d s q t e = cc
  check_stored-eq-ok (some r) d s q t e = elim (Bool-cases (is_none r.replaced_by_id)) [
    | inl unused ↦ elim (Bool-cases (not (is_none r.revoked_at) || leb r.expires_at d.checked_at)) [
      | inl refused ↦
          let k : ◌≡◌ {A = Outcome RefreshTokenRow × Store} (err invalid, s) (ok q, t) =
            rw (unused, refused) at e in
          cc
      | inr usable ↦
          let k : ◌≡◌ {A = Outcome RefreshTokenRow × Store} (ok r, s) (ok q, t) =
            rw (unused, usable) at e in
          let same : r ≡ q = cc in
          (
            ap some same,
            subst (λ z. z.replaced_by_id ≡ none) same (ground arith),
            subst (λ z. z.revoked_at ≡ none) same (ground arith),
            subst (λ z. d.checked_at < z.expires_at) same (ground arith),
            ap (λ x. x.1) k,
          )
    ]
    | inr used ↦
        let (n, u, _, last) =
          >>=-eq-ok (revoke_all_for_user db d.revoked_at r.user_id) (λ _. throw invalid) s {b = q}
            {u = t} (rw used at e) in
        cc
  ]

  -- `revokeAllForUser` that answers leaves the user no live token.
  pub revoke_all_for_user_lem :
      (now uid : ℕ) (s : Store) (n : ℕ) (t : Store)
      → revoke_all_for_user db now uid s ≡ (ok n, t)
      → All (λ r. r.user_id ≡ uid → r.revoked_at ≢ none) (rows t)
  unfolding revoke_all_for_user
  revoke_all_for_user_lem now uid s n t e =
      let ((c, after), _) =
        subst
          (λ x.
            Updates (is_live_of uid) (set_revoked now) (rows s) x.0 (rows x.1)
            × (next_id s ≤ next_id x.1))
          e (update_many_lem (is_live_of uid) (set_revoked now) s) in
      rw after (
        All-map _ (patch (is_live_of uid) (set_revoked now)) (rows s)
          (All-of_mem _ (rows s) (λ a m. ended a)))
    where
      ended :
          (a : RefreshTokenRow)
          → (patch (is_live_of uid) (set_revoked now) a).user_id ≡ uid
          → (patch (is_live_of uid) (set_revoked now) a).revoked_at ≢ none
      ended a = ground arith

  revoke_all_for_user-IsDatabase :
      (now uid : ℕ) (s : Store) (x : Exception) (t : Store)
      → revoke_all_for_user db now uid s ≡ (err x, t)
      → IsDatabase x
  unfolding revoke_all_for_user
  revoke_all_for_user-IsDatabase now uid s x t e =
      (subst
        (λ y.
          Updates (is_live_of uid) (set_revoked now) (rows s) y.0 (rows y.1)
          × (next_id s ≤ next_id y.1))
        e (update_many_lem (is_live_of uid) (set_revoked now) s)).0.0

  -- A call that revokes the sessions and then throws `x`: if the program's own exception comes out,
  -- it is `x`, and the sessions are revoked.
  pub revoke_then_throw :
      {A : Type 0} (now uid : ℕ) (x : Exception) (s : Store) (c : ℕ) (m : String) (t : Store)
      → (revoke_all_for_user db now uid >> throw {A = A} x) s ≡ (err (http c m), t)
      → (x ≡ http c m) × All (λ r. r.user_id ≡ uid → r.revoked_at ≢ none) (rows t)
  revoke_then_throw {A} now uid x s c m t e =
      elim (>>=-eq-err (revoke_all_for_user db now uid) (λ _. throw {A = A} x) s e) [
        | inl failed ↦ absurd (
            http-ne-IsDatabase (http c m) refl
              (revoke_all_for_user-IsDatabase now uid s (http c m) t failed))
        | inr (n, u, done, last) ↦ (
          cc,
          revoke_all_for_user_lem now uid s n t (done ∙ ap (λ z. (ok n, z)) (ap (λ z. z.1) last)),
        )
      ]

  -- A replayed token: when the stored row has been replaced before, `rotate` refuses and no session
  -- of its user is left live.
  pub check_stored-reuse :
      (q : RefreshTokenRow) (d : Draws) (s : Store) (c : ℕ) (m : String) (t : Store)
      → q.replaced_by_id ≢ none
      → check_stored db (some q) d s ≡ (err (http c m), t)
      → All (λ r. r.user_id ≡ q.user_id → r.revoked_at ≢ none) (rows t)
  unfolding check_stored
  check_stored-reuse q d s c m t used e =
      let marked : is_none q.replaced_by_id ≡ false = ground arith in
      (revoke_then_throw d.revoked_at q.user_id invalid s c m t (rw marked at e)).1
