-- ===== src/Auth/Token/Logout.antt =====
-- `TokenService.revoke` and the daily clean-up.
use mathlib.Core.List.{Memᴰ}
use realworld_tutorial.Base.{
  ℕ, ◌≤◌, ◌<◌, String, ◌≡◌, refl, sym, ap, ◌∙◌, subst, ◌≢◌, ◌⊎◌, inl, inr, false, not, Option, none,
  some, arith, ltb, ◌==◌, is_none, Bool-cases, Outcome, ok, err, ◌>>◌, pure, >>=-eq-ok, All,
  All-mem, All-imp, All-map, keep, mem-keep, catch_with,
}
use realworld_tutorial.Base.Prisma.{Delegate, UpdatesOne, Deletes, patch}
use realworld_tutorial.Auth.Token.{
  RefreshTokenRow, clash, set_revoked, revoke_by_id, find_by_hash, revoke_found, revoke,
  delete_expired, remove_expired_tokens,
}
use realworld_tutorial.Auth.Token.Requests.{find_by_hash-mem, find_by_hash-none}

module _ (db : Delegate RefreshTokenRow clash) where
  open db use {Store, rows, next_id, update, update_lem, delete_many, delete_many_lem}

  -- The unique key on `tokenHash`.
  abbrev pub IsKeyed : Store → Type 0
  IsKeyed s = All (λ a. All (λ b. a.token_hash ≡ b.token_hash → a ≡ b) (rows s)) (rows s)

  Revoked : String → RefreshTokenRow → Type 0
  Revoked h r = r.token_hash ≡ h → r.revoked_at ≢ none

  revoke_by_id-Revoked :
      (now : ℕ) (q : RefreshTokenRow) (s : Store) (r : RefreshTokenRow) (t : Store)
      → All (λ b. q.token_hash ≡ b.token_hash → q ≡ b) (rows s)
      → revoke_by_id db now q.id s ≡ (ok r, t)
      → All (Revoked q.token_hash) (rows t)
  unfolding revoke_by_id Revoked
  revoke_by_id-Revoked now q s r t only e =
      let ((a, m, p, is, after), _) =
        subst
          (λ x.
            UpdatesOne (λ r. r.id == q.id) (set_revoked now) (rows s) x.0 (rows x.1)
            × (next_id s ≤ next_id x.1))
          e (update_lem (λ r. r.id == q.id) (set_revoked now) s) in
      rw after (
        All-map _ (patch (λ r. r.id == q.id) (set_revoked now)) (rows s)
          (All-imp _ _ (rows s) (λ b. ended b) only))
    where
      ended :
          (b : RefreshTokenRow)
          → (q.token_hash ≡ b.token_hash → q ≡ b)
          → (patch (λ r. r.id == q.id) (set_revoked now) b).token_hash ≡ q.token_hash
          → (patch (λ r. r.id == q.id) (set_revoked now) b).revoked_at ≢ none
      ended b u = elim (Bool-cases (b.id == q.id)) [
        | inl same ↦ rw same (λ _. cc)
        | inr other ↦
            rw other (λ h e'. differ other (ap (λ (z : RefreshTokenRow). z.id) (u (sym h))))
      ]
        where
          differ : (b.id == q.id) ≡ false → q.id ≡ b.id → ⊥
          differ other h = ground arith

  -- A logout that answers leaves no live row with the hash of the presented token, whether the
  -- token was unknown, revoked before or live; the table's unique key on the hash is assumed.
  pub revoke_ends :
      (hash : String → String) (raw : String) (now : ℕ) (s t : Store)
      → IsKeyed s
      → revoke db hash raw now s ≡ (ok tt, t)
      → All (λ r. r.token_hash ≡ hash raw → r.revoked_at ≢ none) (rows t)
  unfolding revoke Revoked
  revoke_ends hash raw now s t keyed e =
      let (o, s1, found, rest) =
        >>=-eq-ok (find_by_hash db (hash raw)) (λ o. revoke_found db o now) s e in
      go o s1 found rest
    where
      stays :
          (b q : RefreshTokenRow)
          → is_none q.revoked_at ≡ false
          → q.token_hash ≡ hash raw
          → (q.token_hash ≡ b.token_hash → q ≡ b)
          → b.token_hash ≡ hash raw
          → b.revoked_at ≢ none
      stays b q dead hashed u h e' =
          let live : q.revoked_at ≡ none =
            ap (λ (z : RefreshTokenRow). z.revoked_at) (u (hashed ∙ sym h)) ∙ e' in
          cc (dead, ap is_none live)

      go :
          (o : Option RefreshTokenRow) (s1 : Store)
          → find_by_hash db (hash raw) s ≡ (ok o, s1)
          → revoke_found db o now s1 ≡ (ok tt, t)
          → All (λ r. r.token_hash ≡ hash raw → r.revoked_at ≢ none) (rows t)
      go none s1 f k =
          let (unknown, same) = find_by_hash-none db (hash raw) s s1 f in
          let last : s1 ≡ t = ap (λ x. x.1) k in
          rw (← last, ← same) (All-imp _ _ (rows s) (λ r other h. absurd (other h)) unknown)
      go (some q) s1 f k =
          let (listed, hashed, same) = find_by_hash-mem db (hash raw) s q s1 f in
          let only = All-mem _ (rows s) q keyed listed in
          elim (Bool-cases (is_none q.revoked_at)) [
            | inl live ↦
                let (r, s2, done, last) =
                  >>=-eq-ok (revoke_by_id db now q.id) (λ _. pure tt) s1 {b = tt} {u = t}
                    (rw live at k) in
                let ended =
                  revoke_by_id-Revoked now q s1 r s2
                    (subst (λ z. All (λ b. q.token_hash ≡ b.token_hash → q ≡ b) (rows z)) same only)
                    done in
                subst (λ h. All (λ z. z.token_hash ≡ h → z.revoked_at ≢ none) (rows t)) hashed
                  (subst (λ z. All (Revoked q.token_hash) (rows z)) (ap (λ x. x.1) last) ended)
            | inr dead ↦
                let k' : ◌≡◌ {A = Outcome (Unit {0}) × Store} (ok tt, s1) (ok tt, t) =
                  rw dead at k in
                let last : s1 ≡ t = ap (λ x. x.1) k' in
                rw (← last, ← same) (All-imp _ _ (rows s) (λ b. stays b q dead hashed) only)
          ]

  -- The clean-up always answers. It has removed exactly the rows that expired before `now`, or, if
  -- the query failed, none; so a row that a rotation would still accept at `now` is kept.
  pub remove_expired_keeps :
      (now : ℕ) (s : Store)
      → ((remove_expired_tokens db now s).0 ≡ ok tt)
        × ((rows (remove_expired_tokens db now s).1
              ≡ keep (λ r. not (ltb r.expires_at now)) (rows s))
            ⊎ (rows (remove_expired_tokens db now s).1 ≡ rows s))
        × ((r : RefreshTokenRow)
            → Memᴰ r (rows s)
            → now < r.expires_at
            → Memᴰ r (rows (remove_expired_tokens db now s).1))
  unfolding remove_expired_tokens delete_expired
  remove_expired_keeps now s =
      go (delete_many (λ r. ltb r.expires_at now) s)
        (delete_many_lem (λ r. ltb r.expires_at now) s).0
    where
      Kept : Store → Type 0
      Kept t = ((rows t ≡ keep (λ r. not (ltb r.expires_at now)) (rows s)) ⊎ (rows t ≡ rows s))

      stays :
          (t : Store)
          → Kept t
          → (r : RefreshTokenRow) → Memᴰ r (rows s)
          → now < r.expires_at
          → Memᴰ r (rows t)
      stays t (inl e) r m late = rw e (mem-keep _ (rows s) r m (ground arith))
      stays t (inr e) r m late = rw e m

      answer : Outcome ℕ × Store → Outcome (Unit {0}) × Store
      answer x = catch_with {0, 0} ((λ (u : Store). x) >> pure tt) (λ e. pure tt) s

      go :
          (x : Outcome ℕ × Store)
          → Deletes (λ r. ltb r.expires_at now) (rows s) x.0 (rows x.1)
          → ((answer x).0 ≡ ok tt)
            × Kept (answer x).1
            × ((r : RefreshTokenRow)
                → Memᴰ r (rows s)
                → now < r.expires_at
                → Memᴰ r (rows (answer x).1))
      go (ok n, t) (_, e) = (refl, inl e, stays t (inl e))
      go (err x, t) (_, e) = (refl, inr e, stays t (inr e))
