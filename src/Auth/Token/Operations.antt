-- ===== src/Auth/Token/Operations.antt =====
-- The operations of the token service as steps of the table, each of which respects `Evolves`.
use realworld_tutorial.Base.{
  ℕ, ◌+◌, ◌*◌, String, ◌≡◌, refl, subst, inl, inr, Bool, true, false, not, ◌||◌, and_true, Option,
  none, some, arith, leb, ◌==◌, is_none, Bool-cases, Outcome, ok, err, M, ◌>>=◌, ◌>>◌, throw, pure,
  lift_fst, Respects, Respects-bind, Respects-catch, ltb,
}
use realworld_tutorial.Base.Prisma.{Delegate, Transactor}
use realworld_tutorial.Base.Prisma.Commits.{transact-eq-ok, transact-eq-err}
use realworld_tutorial.Auth.Token.{
  RefreshTokenRow, TokenPair, clash, Same, Draws, invalid, create_row, find_by_hash, mark_as_used,
  revoke_by_id, revoke_all_for_user, delete_expired, create_token_pair, issue_tokens, exchange_body,
  settle, conclude, ms_per_day, is_unused, set_replaced, exchange, check_stored, rotate,
  revoke_found, revoke, remove_expired_tokens,
}
use realworld_tutorial.Auth.Token.Evolution.{
  Grows, Evolves, Evolves-trans, Evolves-refl, Evolves-same, update_many-Evolves, update-Evolves,
  delete_many-Evolves, create-Evolves,
}

marked-Grows :
    (n : ℕ) (a : RefreshTokenRow)
    → is_none a.replaced_by_id ≡ true
    → Grows a (record a { replaced_by_id = some n })
marked-Grows n a h = record {
  same_id = refl;
  same_user = refl;
  same_hash = refl;
  same_expiry = refl;
  keeps_replaced = λ k. absurd (ground arith);
  keeps_revoked = λ k. k;
}

revoked-Grows : (now : ℕ) (a : RefreshTokenRow) → Grows a (record a { revoked_at = some now })
revoked-Grows now a = record {
  same_id = refl;
  same_user = refl;
  same_hash = refl;
  same_expiry = refl;
  keeps_replaced = λ k. refl;
  keeps_revoked = λ k. cc;
}

module _ (db : Delegate RefreshTokenRow clash) where
  open db use {Store, update_many}

  bound :
      {A B : Type 0} (m : M Store A) (f : A → M Store B)
      → Respects (Evolves db) m
      → ((a : A) → Respects (Evolves db) (f a))
      → Respects (Evolves db) (m >>= f)
  bound m f = Respects-bind (Evolves db) (Evolves-trans db) m f

  pub mark_as_used-Evolves : (id by : ℕ) → Respects (Evolves db) (mark_as_used db id by)
  unfolding mark_as_used
  mark_as_used-Evolves id by =
      bound (update_many (is_unused id) (set_replaced by)) (λ n. pure (ltb 0 n))
        (update_many-Evolves db (is_unused id) (set_replaced by)
          (λ a h. marked-Grows by a ((and_true (a.id == id) (is_none a.replaced_by_id) h).1)))
        (λ n. Evolves-refl db)

  pub revoke_all_for_user-Evolves :
      (now uid : ℕ) → Respects (Evolves db) (revoke_all_for_user db now uid)
  unfolding revoke_all_for_user
  revoke_all_for_user-Evolves now uid = update_many-Evolves db _ _ (λ a h. revoked-Grows now a)

  revoke_by_id-Evolves : (now id : ℕ) → Respects (Evolves db) (revoke_by_id db now id)
  unfolding revoke_by_id
  revoke_by_id-Evolves now id = update-Evolves db _ _ (λ a h. revoked-Grows now a)

  pub remove_expired-Evolves : (now : ℕ) → Respects (Evolves db) (remove_expired_tokens db now)
  unfolding remove_expired_tokens
  remove_expired-Evolves now =
      Respects-catch (Evolves db) (Evolves-trans db) (delete_expired db now >> pure tt)
        (λ e. pure tt)
        (bound (delete_expired db now) (λ _. pure tt) (deleted now) (λ n. Evolves-refl db))
        (λ e. Evolves-refl db)
    where
      deleted : (at : ℕ) → Respects (Evolves db) (delete_expired db at)
      deleted at = delete_many-Evolves db (λ r. ltb r.expires_at at)

  pub create_row-Evolves :
      (uid : ℕ) (h : String) (exp : ℕ) → Respects (Evolves db) (create_row db uid h exp)
  unfolding create_row
  create_row-Evolves uid h exp = create-Evolves db _ (λ i. refl)

  find-Evolves : (h : String) → Respects (Evolves db) (find_by_hash db h)
  unfolding find_by_hash
  find-Evolves h = Evolves-refl db

  pub check_stored-Evolves :
      (o : Option RefreshTokenRow) (d : Draws) → Respects (Evolves db) (check_stored db o d)
  unfolding check_stored
  check_stored-Evolves none d s = Evolves-refl db s
  check_stored-Evolves (some q) d s = elim (Bool-cases (is_none q.replaced_by_id)) [
    | inl e ↦
        rw e (elim (Bool-cases (not (is_none q.revoked_at) || leb q.expires_at d.checked_at)) [
          | inl refused ↦ rw refused (Evolves-refl db s)
          | inr live ↦ rw live (Evolves-refl db s)
        ])
    | inr e ↦ rw e (
        bound (revoke_all_for_user db d.revoked_at q.user_id) (λ _. throw invalid)
          (revoke_all_for_user-Evolves d.revoked_at q.user_id) (λ n. Evolves-refl db) s)
  ]

  settle-Evolves :
      (d : Draws) (r : Outcome TokenPair) (v : Option ℕ) → Respects (Evolves db) (settle db d r v)
  settle-Evolves d (ok pair) v = Evolves-refl db
  settle-Evolves d (err e) none = Evolves-refl db
  settle-Evolves d (err e) (some uid) =
      bound (revoke_all_for_user db d.revoked_at uid) (λ _. throw e)
        (revoke_all_for_user-Evolves d.revoked_at uid) (λ n. Evolves-refl db)

  revoke_found-Evolves :
      (o : Option RefreshTokenRow) (now : ℕ) → Respects (Evolves db) (revoke_found db o now)
  revoke_found-Evolves none now s = Evolves-refl db s
  revoke_found-Evolves (some q) now s = elim (Bool-cases (is_none q.revoked_at)) [
    | inl e ↦ rw e (
        bound (revoke_by_id db now q.id) (λ _. pure tt) (revoke_by_id-Evolves now q.id)
          (λ n. Evolves-refl db) s)
    | inr e ↦ rw e (Evolves-refl db s)
  ]

  -- The same, for calls beside a local variable.
  abbrev Beside : Store × Option ℕ → Store × Option ℕ → Type 0
  Beside u w = Evolves db u.0 w.0

  module _ (hash : String → String) where
    pub revoke-Evolves : (raw : String) (now : ℕ) → Respects (Evolves db) (revoke db hash raw now)
    unfolding revoke
    revoke-Evolves raw now =
        bound (find_by_hash db (hash raw)) (λ o. revoke_found db o now) (find-Evolves (hash raw))
          (λ o. revoke_found-Evolves o now)

    module _ (sign : ℕ → String) (ttl_days : ℕ) where
      create_token_pair-Evolves :
          (uid : ℕ) (d : Draws)
          → Respects (Evolves db) (create_token_pair db hash sign ttl_days uid d)
      unfolding create_token_pair
      create_token_pair-Evolves uid d =
          bound (create_row db uid (hash d.fresh) (d.issued_at + ttl_days * ms_per_day))
            (λ row. pure (record { access_token = sign uid; refresh_token = d.fresh }, row.id))
            (create_row-Evolves uid (hash d.fresh) (d.issued_at + ttl_days * ms_per_day))
            (λ row. Evolves-refl db)

      pub issue_tokens-Evolves :
          (uid : ℕ) (d : Draws) → Respects (Evolves db) (issue_tokens db hash sign ttl_days uid d)
      unfolding issue_tokens
      issue_tokens-Evolves uid d =
          bound (create_token_pair db hash sign ttl_days uid d) (λ p. pure p.0)
            (create_token_pair-Evolves uid d) (λ pair. Evolves-refl db)

      conclude-Evolves :
          (q : RefreshTokenRow) (p : TokenPair) (b : Bool)
          → Respects Beside (conclude db hash sign ttl_days q p b)
      conclude-Evolves q p true u = Evolves-refl db u.0
      conclude-Evolves q p false u = Evolves-refl db u.0

      exchange_body-Evolves :
          (q : RefreshTokenRow) (d : Draws)
          → Respects Beside (exchange_body db hash sign ttl_days q d)
      unfolding exchange_body
      exchange_body-Evolves q d =
          beside (lift_fst (create_token_pair db hash sign ttl_days q.user_id d))
            (λ p. do
              marked ← lift_fst (mark_as_used db q.id p.1)
              conclude db hash sign ttl_days q p.0 marked)
            (λ u. create_token_pair-Evolves q.user_id d u.0)
            (λ p.
              beside (lift_fst (mark_as_used db q.id p.1)) (conclude db hash sign ttl_days q p.0)
                (λ u. mark_as_used-Evolves q.id p.1 u.0) (conclude-Evolves q p.0))
        where
          beside :
              {A B : Type 0} (m : M (Store × Option ℕ) A) (f : A → M (Store × Option ℕ) B)
              → Respects Beside m
              → ((a : A) → Respects Beside (f a))
              → Respects Beside (m >>= f)
          beside m f = Respects-bind Beside (λ a b c. Evolves-trans db a.0 b.0 c.0) m f

      module _ (tx : Transactor Store (Same db)) where
        pub exchange-Evolves :
            (q : RefreshTokenRow) (d : Draws)
            → Respects (Evolves db) (exchange db hash sign ttl_days tx q d)
        unfolding exchange
        exchange-Evolves q d s =
            Evolves-trans db s (run s).1.0 (settle db d (run s).0 (run s).1.1 (run s).1.0).1
              (after (run s) refl) (settle-Evolves d (run s).0 (run s).1.1 (run s).1.0)
          where
            body : M (Store × Option ℕ) TokenPair
            body = exchange_body db hash sign ttl_days q d

            run : Store → Outcome TokenPair × (Store × Option ℕ)
            run v = tx.transact (Option ℕ) TokenPair body (v, none)

            after : (x : Outcome TokenPair × (Store × Option ℕ)) → run s ≡ x → Evolves db s x.1.0
            after (ok a, u) e =
                subst (λ z. Evolves db s z.1.0) (transact-eq-ok tx body s none a u e)
                  (exchange_body-Evolves q d (s, none))
            after (err x, u) e =
                let (same, _, _) = transact-eq-err tx body s none x u e in
                Evolves-same db s u.0 same.1 same.0

        pub rotate-Evolves :
            (raw : String) (d : Draws)
            → Respects (Evolves db) (rotate db hash sign ttl_days tx raw d)
        unfolding rotate
        rotate-Evolves raw d =
            bound (find_by_hash db (hash raw))
              (λ o. do q ← check_stored db o d; exchange db hash sign ttl_days tx q d)
              (find-Evolves (hash raw))
              (λ o.
                bound (check_stored db o d) (λ q. exchange db hash sign ttl_days tx q d)
                  (check_stored-Evolves o d) (λ q. exchange-Evolves q d))
