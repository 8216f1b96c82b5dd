-- ===== src/Auth/Token/Exchange.antt =====
-- What the transaction of `rotate` has done when it answers, and when it is refused.
use realworld_tutorial.Base.{
  ℕ, ◌+◌, ◌*◌, ◌≤◌, ◌<◌, String, ◌≡◌, refl, sym, ap, ◌∙◌, subst, Bool, true, false, Option, none,
  some, map, ltb, ltb→lt, Outcome, ok, err, ◌>>=◌, throw, pure, lift_fst, >>=-eq-ok, append_one,
  keep, length,
}
use realworld_tutorial.Base.Prisma.{Delegate, Transactor, Creates, Updates, patch}
use realworld_tutorial.Base.Prisma.Commits.{transact-eq-ok}
use realworld_tutorial.Auth.Token.{
  RefreshTokenRow, TokenPair, clash, Same, Draws, create_row, mark_as_used, is_unused, set_replaced,
  revoke_all_for_user, create_token_pair, conclude, exchange_body, settle, exchange, ms_per_day,
}

-- A row that `createTokenPair` has stored.
pub record IsIssued (hash : String → String) (ttl_days uid : ℕ) (d : Draws) (r : RefreshTokenRow)
    : Type 0 where
  pub user : r.user_id ≡ uid
  pub hashed : r.token_hash ≡ hash d.fresh
  pub expiry : r.expires_at ≡ d.issued_at + ttl_days * ms_per_day
  pub live : r.revoked_at ≡ none
  pub unused : r.replaced_by_id ≡ none

module _ (db : Delegate RefreshTokenRow clash) (hash : String → String) (sign : ℕ → String)
    (ttl_days : ℕ) where
  open db use {Store, rows, next_id, create, create_lem, update_many, update_many_lem}

  abbrev pair_of : ℕ → Draws → TokenPair
  pair_of uid d = record { access_token = sign uid; refresh_token = d.fresh }

  -- The table after an exchange: a new row, and the old one marked by it.
  pub record Exchanged (q : RefreshTokenRow) (d : Draws) (s : Store) (pair : TokenPair) (t : Store)
      : Type 0 where
    pub fresh : RefreshTokenRow
    pub issued : IsIssued hash ttl_days q.user_id d fresh
    pub newer : next_id s ≤ fresh.id
    pub listing :
        rows t ≡ map (patch (is_unused q.id) (set_replaced fresh.id)) (append_one (rows s) fresh)
    pub was_unused : 0 < length (keep (is_unused q.id) (append_one (rows s) fresh))
    pub answer : pair ≡ pair_of q.user_id d

  -- `createTokenPair` that answers.
  pub create_token_pair-IsIssued :
      (uid : ℕ) (d : Draws) (s : Store) (p : TokenPair × ℕ) (t : Store)
      → create_token_pair db hash sign ttl_days uid d s ≡ (ok p, t)
      → (r : RefreshTokenRow) × IsIssued hash ttl_days uid d r
        × (next_id s ≤ r.id)
        × (rows t ≡ append_one (rows s) r)
        × (p ≡ (pair_of uid d, r.id))
  unfolding create_token_pair create_row
  create_token_pair-IsIssued uid d s p t e =
      let (row, t', made, rest) =
        >>=-eq-ok (create_row db uid (hash d.fresh) (d.issued_at + ttl_days * ms_per_day))
          (λ row. pure (pair_of uid d, row.id)) s e in
      let (i, lo, hi, is, after, free) =
        subst (λ x. Creates clash make (next_id s) (rows s) x.0 (next_id x.1) (rows x.1)) made
          (create_lem make s) in
      (
        row,
        record {
          user = ap (λ z. z.user_id) is;
          hashed = ap (λ z. z.token_hash) is;
          expiry = ap (λ z. z.expires_at) is;
          live = ap (λ z. z.revoked_at) is;
          unused = ap (λ z. z.replaced_by_id) is;
        },
        rw is lo,
        subst (λ z. rows z ≡ append_one (rows s) row) (cc) after,
        cc,
      )
    where
      make : ℕ → RefreshTokenRow
      make i = record {
        id = i;
        user_id = uid;
        token_hash = hash d.fresh;
        expires_at = d.issued_at + ttl_days * ms_per_day;
        revoked_at = none;
        replaced_by_id = none;
      }

  mark_as_used_count :
      (id by : ℕ) (s : Store) (marked : Bool) (t : Store)
      → mark_as_used db id by s ≡ (ok marked, t)
      → (rows t ≡ map (patch (is_unused id) (set_replaced by)) (rows s))
        × (marked ≡ ltb 0 (length (keep (is_unused id) (rows s))))
  unfolding mark_as_used
  mark_as_used_count id by s marked t e =
      let (n, t', counted, rest) =
        >>=-eq-ok (update_many (is_unused id) (set_replaced by)) (λ n. pure (ltb 0 n)) s e in
      let ((c, after), _) =
        subst
          (λ x.
            Updates (is_unused id) (set_replaced by) (rows s) x.0 (rows x.1)
            × (next_id s ≤ next_id x.1))
          counted (update_many_lem (is_unused id) (set_replaced by) s) in
      (
        subst (λ z. rows z ≡ map (patch (is_unused id) (set_replaced by)) (rows s)) (cc) after,
        subst (λ k. marked ≡ ltb 0 k) c (cc),
      )

  conclude-eq-ok :
      (q : RefreshTokenRow) (pair pair' : TokenPair) (marked : Bool) (u w : Store × Option ℕ)
      → conclude db hash sign ttl_days q pair marked u ≡ (ok pair', w)
      → (marked ≡ true) × (pair ≡ pair') × (u ≡ w)
  conclude-eq-ok q pair pair' true u w e = (refl, cc, cc)
  conclude-eq-ok q pair pair' false u w e = cc

  -- The body of the transaction answers only after it has marked the stored token.
  exchange_body-Exchanged :
      (q : RefreshTokenRow) (d : Draws) (s : Store) (v : Option ℕ) (pair : TokenPair)
      (w : Store × Option ℕ)
      → exchange_body db hash sign ttl_days q d (s, v) ≡ (ok pair, w)
      → Exchanged q d s pair w.0
  unfolding exchange_body
  exchange_body-Exchanged q d s v pair w e =
      let (p, u, made, rest) =
        >>=-eq-ok (lift_fst (create_token_pair db hash sign ttl_days q.user_id d))
          (λ p. do
            marked ← lift_fst (mark_as_used db q.id p.1)
            conclude db hash sign ttl_days q p.0 marked)
          (s, v) e in
      let (marked, u', used, last) =
        >>=-eq-ok (lift_fst (mark_as_used db q.id p.1)) (conclude db hash sign ttl_days q p.0) u
          rest in
      let (is_marked, same_pair, same_state) = conclude-eq-ok q p.0 pair marked u' w last in
      let (r, issued, newer, created, is) =
        create_token_pair-IsIssued q.user_id d s p u.0 (ap (λ x. (x.0, x.1.0)) made) in
      let (after, count) =
        mark_as_used_count q.id p.1 u.0 marked u'.0 (ap (λ x. (x.0, x.1.0)) used) in
      record {
        fresh = r;
        issued = issued;
        newer = newer;
        listing =
            sym (ap (λ z. rows z.0) same_state)
            ∙ after
            ∙ ap (λ k. map (patch (is_unused q.id) (set_replaced k)) (rows u.0)) (ap (λ x. x.1) is)
            ∙ ap (map (patch (is_unused q.id) (set_replaced r.id))) created;
        was_unused =
            subst (λ xs. 0 < length (keep (is_unused q.id) xs)) created
              (ltb→lt 0 (length (keep (is_unused q.id) (rows u.0))) (sym count ∙ is_marked));
        answer = sym same_pair ∙ ap (λ x. x.0) is;
      }

  settle-eq-ok :
      (d : Draws) (r : Outcome TokenPair) (v : Option ℕ) (s : Store) (pair : TokenPair) (t : Store)
      → settle db d r v s ≡ (ok pair, t)
      → (r ≡ ok pair) × (s ≡ t)
  settle-eq-ok d (ok p) v s pair t e = (cc, cc)
  settle-eq-ok d (err x) none s pair t e = cc
  settle-eq-ok d (err x) (some uid) s pair t e =
      let (n, u, _, last) =
        >>=-eq-ok (revoke_all_for_user db d.revoked_at uid) (λ _. throw x) s e in
      cc

  module _ (tx : Transactor Store (Same db)) where
    pub exchange-Exchanged :
        (q : RefreshTokenRow) (d : Draws) (s : Store) (pair : TokenPair) (t : Store)
        → exchange db hash sign ttl_days tx q d s ≡ (ok pair, t)
        → Exchanged q d s pair t
    unfolding exchange
    exchange-Exchanged q d s pair t e =
        let (done, same) = settle-eq-ok d run.0 run.1.1 run.1.0 pair t e in
        subst (Exchanged q d s pair) same (
          exchange_body-Exchanged q d s none pair run.1 (
            transact-eq-ok tx (exchange_body db hash sign ttl_days q d) s none pair run.1
              (ap (λ r. (r, run.1)) done)))
      where
        run : Outcome TokenPair × (Store × Option ℕ)
        run = tx.transact (Option ℕ) TokenPair (exchange_body db hash sign ttl_days q d) (s, none)
