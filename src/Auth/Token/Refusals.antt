-- ===== src/Auth/Token/Refusals.antt =====
-- What the answers of `rotate` mean, case by case.
use mathlib.Core.List.{Memᴰ}
use realworld_tutorial.Base.{
  ℕ, ◌+◌, ◌*◌, ◌≤◌, String, ◌≡◌, refl, sym, ap, ◌∙◌, subst, ◌≢◌, ◌⊎◌, inl, inr, Bool, true, false,
  Option, none, some, ltb, Exception, http, Outcome, ok, err, M, ◌>>=◌, pure, lift_fst, >>=-eq-ok,
  >>=-eq-err, All, All-mem,
}
use realworld_tutorial.Base.Prisma.{Delegate, Transactor, Creates, Updates, IsDatabase}
use realworld_tutorial.Base.Prisma.Commits.{transact-eq-err, http-ne-IsDatabase}
use realworld_tutorial.Auth.Token.{
  RefreshTokenRow, TokenPair, clash, Same, Draws, is_unused, set_replaced, create_row, mark_as_used,
  create_token_pair, conclude, exchange_body, settle, find_by_hash, check_stored, exchange, rotate,
  ms_per_day,
}
use realworld_tutorial.Auth.Token.Exchange.{Exchanged, exchange-Exchanged}
use realworld_tutorial.Auth.Token.Requests.{
  IsUsable, find_by_hash-mem, find_by_hash-none, find_by_hash-IsDatabase, check_stored-eq-ok,
  revoke_then_throw, check_stored-reuse,
}

module _ (db : Delegate RefreshTokenRow clash) (hash : String → String) (sign : ℕ → String)
    (ttl_days : ℕ) where
  open db use {
    Store, rows, next_id, create, create_lem, update_many, update_many_lem, find_first,
    find_first_lem,
  }

  create_token_pair-IsDatabase :
      (uid : ℕ) (d : Draws) (s : Store) (x : Exception) (t : Store)
      → create_token_pair db hash sign ttl_days uid d s ≡ (err x, t)
      → IsDatabase x
  unfolding create_token_pair create_row
  create_token_pair-IsDatabase uid d s x t e =
      elim (>>=-eq-err (create_row db uid (hash d.fresh) (d.issued_at + ttl_days * ms_per_day))
        (λ row. pure (record { access_token = sign uid; refresh_token = d.fresh }, row.id)) s e) [
          | inl failed ↦
              (subst (λ y. Creates clash make (next_id s) (rows s) y.0 (next_id y.1) (rows y.1))
                failed (create_lem make s)).0
          | inr (row, u, _, last) ↦ cc
        ]
    where
      make : ℕ → RefreshTokenRow
      make i = record {
        id = i;
        user_id = uid;
        token_hash = hash d.fresh;
        expires_at = d.issued_at + ttl_days * ms_per_day;
        revoked_at = none;
        replaced_by_id = none;
      }

  mark_as_used-IsDatabase :
      (id by : ℕ) (s : Store) (x : Exception) (t : Store)
      → mark_as_used db id by s ≡ (err x, t)
      → IsDatabase x
  unfolding mark_as_used
  mark_as_used-IsDatabase id by s x t e =
      elim (>>=-eq-err (update_many (is_unused id) (set_replaced by)) (λ n. pure (ltb 0 n)) s e) [
        | inl failed ↦
            (subst
              (λ y.
                Updates (is_unused id) (set_replaced by) (rows s) y.0 (rows y.1)
                × (next_id s ≤ next_id y.1))
              failed (update_many_lem (is_unused id) (set_replaced by) s)).0.0
        | inr (n, u, _, last) ↦ cc
      ]

  -- The body throws the program's exception only after it has noted whose sessions to revoke.
  NotesUser : RefreshTokenRow → Exception → Option ℕ → Type 0
  NotesUser q x v = (v ≡ some q.user_id) ⊎ ((v ≡ none) × IsDatabase x)

  conclude-NotesUser :
      (q : RefreshTokenRow) (pair : TokenPair) (marked : Bool) (u w : Store × Option ℕ)
      (x : Exception)
      → conclude db hash sign ttl_days q pair marked u ≡ (err x, w)
      → NotesUser q x w.1
  unfolding NotesUser
  conclude-NotesUser q pair true u w x e = cc
  conclude-NotesUser q pair false u w x e = inl (sym (ap (λ z. z.1.1) e))

  exchange_body-NotesUser :
      (q : RefreshTokenRow) (d : Draws) (s : Store) (x : Exception) (w : Store × Option ℕ)
      → exchange_body db hash sign ttl_days q d (s, none) ≡ (err x, w)
      → NotesUser q x w.1
  unfolding exchange_body NotesUser
  exchange_body-NotesUser q d s x w e =
      elim (>>=-eq-err (lift_fst (create_token_pair db hash sign ttl_days q.user_id d))
        (λ p. do
          marked ← lift_fst (mark_as_used db q.id p.1)
          conclude db hash sign ttl_days q p.0 marked)
        (s, none) e) [
          | inl failed ↦ inr (
            sym (ap (λ z. z.1.1) failed),
            create_token_pair-IsDatabase q.user_id d s x w.0 (ap (λ z. (z.0, z.1.0)) failed),
          )
          | inr (p, u, made, rest) ↦
              elim (>>=-eq-err (lift_fst (mark_as_used db q.id p.1))
                (conclude db hash sign ttl_days q p.0) u rest) [
                  | inl failed ↦ inr (
                    sym (ap (λ z. z.1.1) failed) ∙ sym (ap (λ z. z.1.1) made),
                    mark_as_used-IsDatabase q.id p.1 u.0 x w.0 (ap (λ z. (z.0, z.1.0)) failed),
                  )
                  | inr (marked, u', _, last) ↦ conclude-NotesUser q p.0 marked u' w x last
                ]
        ]

  module _ (tx : Transactor Store (Same db)) where
    noted :
        (q : RefreshTokenRow) (d : Draws) (s : Store) (c : ℕ) (m : String) (x : Exception)
        (u : Store × Option ℕ)
        → x ≡ http c m
        → tx.transact (Option ℕ) TokenPair (exchange_body db hash sign ttl_days q d) (s, none)
          ≡ (err x, u)
        → u.1 ≡ some q.user_id
    unfolding NotesUser
    noted q d s c m x u is f =
        let (_, local, cause) =
          transact-eq-err tx (exchange_body db hash sign ttl_days q d) s none x u f in
        elim cause [
          | inr database ↦ absurd (http-ne-IsDatabase x is database)
          | inl thrown ↦
              elim (exchange_body-NotesUser q d s x body.1 (ap (λ r. (r, body.1)) thrown)) [
                | inl user ↦ local ∙ user
                | inr (_, database) ↦ absurd (http-ne-IsDatabase x is database)
              ]
        ]
      where
        body : Outcome TokenPair × (Store × Option ℕ)
        body = exchange_body db hash sign ttl_days q d (s, none)

    -- Two requests race with one stored token. The one that is refused with the service's own
    -- exception, because its `markAsUsed` found the token taken, leaves the user no live session.
    pub exchange_refusal :
        (q : RefreshTokenRow) (d : Draws) (s : Store) (c : ℕ) (m : String) (t : Store)
        → exchange db hash sign ttl_days tx q d s ≡ (err (http c m), t)
        → All (λ r. r.user_id ≡ q.user_id → r.revoked_at ≢ none) (rows t)
    unfolding exchange NotesUser
    exchange_refusal q d s c m t e = settled run.0 run.1 refl e
      where
        body : M (Store × Option ℕ) TokenPair
        body = exchange_body db hash sign ttl_days q d

        run : Outcome TokenPair × (Store × Option ℕ)
        run = tx.transact (Option ℕ) TokenPair body (s, none)

        settled :
            (r : Outcome TokenPair) (u : Store × Option ℕ)
            → run ≡ (r, u)
            → settle db d r u.1 u.0 ≡ (err (http c m), t)
            → All (λ r. r.user_id ≡ q.user_id → r.revoked_at ≢ none) (rows t)
        settled (ok p) u f k = cc
        settled (err x) (u, none) f k =
            let is : x ≡ http c m = cc in
            let n : none ≡ some q.user_id = noted q d s c m x (u, none) is f in cc
        settled (err x) (u, some uid) f k =
            let (is, ended) = revoke_then_throw db d.revoked_at uid x u c m t k in
            let n : some uid ≡ some q.user_id = noted q d s c m x (u, some uid) is f in
            let same : uid ≡ q.user_id = cc in
            subst (λ i. All (λ r. r.user_id ≡ i → r.revoked_at ≢ none) (rows t)) same ended

    -- A rotation that answers has found a stored token with the hash of the one presented, unused,
    -- not revoked and not expired; it has stored the new token for the same user with the configured
    -- lifetime, marked the old one by it, and left every other row alone.
    pub rotate-Exchanged :
        (raw : String) (d : Draws) (s : Store) (pair : TokenPair) (t : Store)
        → rotate db hash sign ttl_days tx raw d s ≡ (ok pair, t)
        → (q : RefreshTokenRow) × IsUsable db (hash raw) d.checked_at s q
          × Exchanged db hash sign ttl_days q d s pair t
    unfolding rotate
    rotate-Exchanged raw d s pair t e =
        let (o, s1, found, rest) =
          >>=-eq-ok (find_by_hash db (hash raw))
            (λ o. do q ← check_stored db o d; exchange db hash sign ttl_days tx q d) s e in
        let (q, s2, checked, last) =
          >>=-eq-ok (check_stored db o d) (λ q. exchange db hash sign ttl_days tx q d) s1 rest in
        let (is, unused, live, unexpired, same2) = check_stored-eq-ok db o d s1 q s2 checked in
        let (listed, hashed, same1) =
          find_by_hash-mem db (hash raw) s q s1
            (subst (λ z. find_by_hash db (hash raw) s ≡ (ok z, s1)) is found) in
        (
          q,
          record {
            listed = listed;
            hashed = hashed;
            unused = unused;
            live = live;
            unexpired = unexpired;
          },
          subst (λ z. Exchanged db hash sign ttl_days q d z pair t) (sym (same1 ∙ same2))
              (exchange-Exchanged db hash sign ttl_days tx q d s2 pair t last),
        )

    -- A stored token that has been replaced is presented again, and no other row has its hash: the
    -- rotation never answers, and when it is refused with the service's own exception the user has
    -- no live session left.
    pub rotate_reuse :
        (raw : String) (d : Draws) (s : Store) (q : RefreshTokenRow)
        → Memᴰ q (rows s)
        → q.token_hash ≡ hash raw
        → All (λ r. r.token_hash ≡ hash raw → r ≡ q) (rows s)
        → q.replaced_by_id ≢ none
        → ((pair : TokenPair) (t : Store) → rotate db hash sign ttl_days tx raw d s ≢ (ok pair, t))
          × ((c : ℕ) (m : String) (t : Store)
              → rotate db hash sign ttl_days tx raw d s ≡ (err (http c m), t)
              → All (λ r. r.user_id ≡ q.user_id → r.revoked_at ≢ none) (rows t))
    unfolding rotate
    rotate_reuse raw d s q listed hashed only used = (never, ends)
      where
        never :
            (pair : TokenPair) (t : Store) → rotate db hash sign ttl_days tx raw d s ≢ (ok pair, t)
        never pair t e =
            let (r, usable, _) = rotate-Exchanged raw d s pair t e in
            used (
              subst (λ z. z.replaced_by_id ≡ none)
                (All-mem _ (rows s) r only usable.listed usable.hashed) usable.unused)

        from_found :
            (o : Option RefreshTokenRow) (s1 : Store) (c : ℕ) (m : String) (t : Store)
            → find_by_hash db (hash raw) s ≡ (ok o, s1)
            → (check_stored db o d >>= λ r. exchange db hash sign ttl_days tx r d) s1
              ≡ (err (http c m), t)
            → All (λ r. r.user_id ≡ q.user_id → r.revoked_at ≢ none) (rows t)
        from_found none s1 c m t f k =
            absurd (All-mem _ (rows s) q (find_by_hash-none db (hash raw) s s1 f).0 listed hashed)
        from_found (some r) s1 c m t f k =
            let (lr, hr, _) = find_by_hash-mem db (hash raw) s r s1 f in
            let same = All-mem _ (rows s) r only lr hr in
            elim (>>=-eq-err (check_stored db (some r) d)
              (λ r. exchange db hash sign ttl_days tx r d) s1 k) [
                | inl refused ↦
                    check_stored-reuse db q d s1 c m t used (
                      subst (λ z. check_stored db (some z) d s1 ≡ (err (http c m), t)) same refused)
                | inr (z, s2, passed, _) ↦
                    let (is, unused, _, _, _) = check_stored-eq-ok db (some r) d s1 z s2 passed in
                    let found : r ≡ z = cc in
                    absurd (used (subst (λ y. y.replaced_by_id ≡ none) (sym found ∙ same) unused))
              ]

        ends :
            (c : ℕ) (m : String) (t : Store)
            → rotate db hash sign ttl_days tx raw d s ≡ (err (http c m), t)
            → All (λ r. r.user_id ≡ q.user_id → r.revoked_at ≢ none) (rows t)
        ends c m t e =
            elim (>>=-eq-err (find_by_hash db (hash raw))
              (λ o. do r ← check_stored db o d; exchange db hash sign ttl_days tx r d) s e) [
                | inl failed ↦ absurd (
                    http-ne-IsDatabase (http c m) refl
                      (find_by_hash-IsDatabase db (hash raw) s (http c m) t failed))
                | inr (o, s1, found, rest) ↦ from_found o s1 c m t found rest
              ]
