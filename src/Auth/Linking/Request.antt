-- ===== src/Auth/Linking/Request.antt =====
-- `requestLink` of src/auth/account-linking/provider-link.service.ts: a pending link is issued, its
-- mail is queued, and the pending link is taken back if the queue does not accept the mail. The queue
-- is a parameter; its state stands beside the tables. It is given the whole hash where the code gives
-- its first eight characters, of which it names the job.
use realworld_tutorial.Base.{
  ℕ, ◌+◌, String, ◌≡◌, refl, sym, ap, ◌∙◌, subst, ◌⊎◌, Exception, inl, inr, Bool, not, Outcome, ok,
  err, M, pure, throw, catch_with, ◌>>=◌, ◌>>◌, >>=-cases, lift_fst, lift_fst-eq, keep, ◌==◌,
}
use realworld_tutorial.Base.Prisma.{Delegate, Transactor, Deletes}
use realworld_tutorial.Auth.Linking.{
  PendingProviderLinkRow, AuthProviderRow, ProviderIdentifier, IssueInput, IssueResult, issued,
  cooldown, pending_clash, auth_clash, link_ttl_ms, link_unavailable, is_current, Tables, SameRows,
  delete_if_current, issue,
}
use realworld_tutorial.Auth.Linking.Issue.{IssuesCooled, issue_lem}

pub record ProviderLinkRequest : Type 0 where
  pub user_id : ℕ
  pub recipient : String
  pub identity : ProviderIdentifier

pub data RequestResult : Type 0 where
  link_issued : (pending_id : ℕ) → RequestResult
  link_cooldown : (pending_id : ℕ) → RequestResult

pub record LinkJob : Type 0 where
  pub pending_id : ℕ
  pub recipient : String
  pub raw_token : String
  pub expires_at : ℕ

abbrev pub issue_input : (String → String) → ProviderLinkRequest → String → ℕ → IssueInput
issue_input hash req raw_token now = record {
  user_id = req.user_id;
  identity = req.identity;
  token_hash = hash raw_token;
  expires_at = now + link_ttl_ms;
  now = now;
}

abbrev pub link_job : ProviderLinkRequest → String → ℕ → ℕ → LinkJob
link_job req raw_token now id = record {
  pending_id = id;
  recipient = req.recipient;
  raw_token = raw_token;
  expires_at = now + link_ttl_ms;
}

module _ (pdb : Delegate PendingProviderLinkRow pending_clash)
    (adb : Delegate AuthProviderRow auth_clash)
    (tx : Transactor (Tables pdb adb) (SameRows pdb adb)) {Q : Type 0}
    (enqueue : LinkJob → String → M Q (Unit {0})) (hash : String → String) where
  abbrev pub State : Type 0
  State = Tables pdb adb × Q

  abbrev pub on_queue {ℓ} : {A : Type ℓ} → M Q A → M State A
  on_queue m u = let (r, q) = m u.1 in (r, (u.0, q))

  -- The deletion that makes up for a mail that was not queued; what it throws is only logged.
  abbrev pub take_back : ℕ → String → M State (Unit {0})
  take_back id token_hash =
      catch_with (lift_fst (delete_if_current pdb adb id token_hash) >> pure tt) (λ _. pure tt)

  abbrev pub compensate : ℕ → String → M State RequestResult
  compensate id token_hash = take_back id token_hash >> throw link_unavailable

  abbrev pub notify : ProviderLinkRequest → String → ℕ → IssueResult → M State RequestResult
  notify req raw_token now (cooldown id) = pure (link_cooldown id)
  notify req raw_token now (issued id token_hash expires_at) =
      catch_with
        (on_queue (enqueue (link_job req raw_token now id) (hash raw_token))
          >> pure (link_issued id))
        (λ _. compensate id (hash raw_token))

  unfoldable pub request_link : ProviderLinkRequest → String → ℕ → M State RequestResult
  unfolding issue delete_if_current
  request_link req raw_token now = do
    result ← lift_fst (issue pdb adb tx (issue_input hash req raw_token now))
    notify req raw_token now result

  module _ (req : ProviderLinkRequest) (raw_token : String) (now : ℕ) (s : State) where
    abbrev input : IssueInput
    input = issue_input hash req raw_token now

    -- The deletion of the pending link failed.
    abbrev DeletionFails : ℕ → Tables pdb adb → Type 0
    DeletionFails id u =
        (e : Exception) × ((pdb.delete_many (is_current id (hash raw_token)) u.0).0 ≡ err e)

    -- The tables after the pending link was deleted, or left because its deletion failed.
    abbrev TakenBack : ℕ → Tables pdb adb → Tables pdb adb → Type 0
    TakenBack id u t =
        (t.1 ≡ u.1)
        × ((pdb.rows t.0 ≡ keep (λ r. not (is_current id (hash raw_token) r)) (pdb.rows u.0))
            ⊎ (DeletionFails id u × (pdb.rows t.0 ≡ pdb.rows u.0)))

    -- What a request that ends in a certain way has done.
    abbrev pub Requests : Outcome RequestResult × State → Type 0
    Requests (ok (link_issued id), t) =
        IssuesCooled pdb adb tx input s.0 (ok (issued id (hash raw_token) (now + link_ttl_ms)), t.0)
        × (enqueue (link_job req raw_token now id) (hash raw_token) s.1 ≡ (ok tt, t.1))
    Requests (ok (link_cooldown id), t) =
        IssuesCooled pdb adb tx input s.0 (ok (cooldown id), t.0) × (t.1 ≡ s.1)
    Requests (err e, t) =
        (SameRows pdb adb s.0 t.0 × (t.1 ≡ s.1))
        ⊎ ((e ≡ link_unavailable)
            × ((id : ℕ) × (u : Tables pdb adb) × IssuesCooled pdb adb tx input s.0
                  (ok (issued id (hash raw_token) (now + link_ttl_ms)), u)
                × ((x : Exception) × (enqueue (link_job req raw_token now id) (hash raw_token) s.1
                      ≡ (err x, t.1)))
                × TakenBack id u t.0))

    take_back-TakenBack :
        (id : ℕ) (u : Tables pdb adb) (q : Q)
        → TakenBack id u (take_back id (hash raw_token) (u, q)).1.0
          × ((take_back id (hash raw_token) (u, q)).1.1 ≡ q)
          × ((take_back id (hash raw_token) (u, q)).0 ≡ ok tt)
    unfolding delete_if_current
    take_back-TakenBack id u q = go (pdb.delete_many p u.0) refl (pdb.delete_many_lem p u.0).0
      where
        p : PendingProviderLinkRow → Bool
        p = is_current id (hash raw_token)

        run : Outcome ℕ × pdb.Store → Outcome (Unit {0}) × State
        run x =
            catch_with
              (lift_fst ((λ (_ : Tables pdb adb). (x.0, (x.1, u.1))) >>= λ c. pure (c == 1))
                >> pure tt)
              (λ _. pure tt) (u, q)

        go :
            (x : Outcome ℕ × pdb.Store)
            → pdb.delete_many p u.0 ≡ x
            → Deletes p (pdb.rows u.0) x.0 (pdb.rows x.1)
            → TakenBack id u (run x).1.0 × ((run x).1.1 ≡ q) × ((run x).0 ≡ ok tt)
        go (ok n, a) f (c, left) = ((refl, inl left), refl, refl)
        go (err e, a) f (d, left) =
            ((refl, inr ((e, ap (λ (x : Outcome ℕ × pdb.Store). x.0) f), left)), refl, refl)

    compensate-Requests :
        (id : ℕ) (u : Tables pdb adb) (q : Q)
        → IssuesCooled pdb adb tx input s.0 (ok (issued id (hash raw_token) (now + link_ttl_ms)), u)
        → (y : Exception)
        → enqueue (link_job req raw_token now id) (hash raw_token) s.1 ≡ (err y, q)
        → Requests (compensate id (hash raw_token) (u, q))
    compensate-Requests id u q h y refused =
        go (take_back id (hash raw_token) (u, q)) (take_back-TakenBack id u q)
      where
        go :
            (x : Outcome (Unit {0}) × State)
            → TakenBack id u x.1.0 × (x.1.1 ≡ q) × (x.0 ≡ ok tt)
            → Requests (((λ (_ : State). x) >> throw {A = RequestResult} link_unavailable) (u, q))
        go (ok _, t) (k, same, e) =
            inr (refl, (id, u, h, (y, refused ∙ ap (λ z. (err y, z)) (sym same)), k))
        go (err x, t) (k, same, e) = cc

    notify-Requests :
        (k : IssueResult) (u : Tables pdb adb)
        → IssuesCooled pdb adb tx input s.0 (ok k, u)
        → Requests (notify req raw_token now k (u, s.1))
    notify-Requests (cooldown id) u h = (h, refl)
    notify-Requests (issued id token_hash expires_at) u h =
        go (enqueue (link_job req raw_token now id) (hash raw_token) s.1) refl (as_input h)
      where
        as_input :
            IssuesCooled pdb adb tx input s.0 (ok (issued id token_hash expires_at), u)
            → IssuesCooled pdb adb tx input s.0
                (ok (issued id (hash raw_token) (now + link_ttl_ms)), u)
        as_input ((rows, links, hashed, expiry), cooled) = ((rows, links, refl, refl), cooled)

        go :
            (x : Outcome (Unit {0}) × Q)
            → enqueue (link_job req raw_token now id) (hash raw_token) s.1 ≡ x
            → IssuesCooled pdb adb tx input s.0
                (ok (issued id (hash raw_token) (now + link_ttl_ms)), u)
            → Requests (
                catch_with
                  (((λ (v : State). (x.0, (v.0, x.1)))) >> pure (link_issued id))
                  (λ _. compensate id (hash raw_token))
                  (u, s.1))
        go (ok _, q) e k = (k, e)
        go (err y, q) e k = compensate-Requests id u q k y e

    -- A request that reports a pending link has issued it, past the cool-down of those in its way, and
    -- the queue has accepted its mail; one that reports a cool-down has issued and queued nothing; one
    -- that throws has either changed nothing, or it has issued a pending link, the queue has refused
    -- the mail, a 503 is thrown, and the pending link is deleted; it is left only if the database has
    -- answered its deletion with an error.
    pub request_link_lem : Requests (request_link req raw_token now s)
    unfolding request_link
    request_link_lem =
        >>=-cases Requests (lift_fst (issue pdb adb tx input)) (notify req raw_token now) s
          (λ e t h.
            let (ran, stay) = lift_fst-eq (issue pdb adb tx input) s (err e) t h in
            inl (
              subst (IssuesCooled pdb adb tx input s.0) ran (issue_lem pdb adb tx input s.0),
              stay,
            ))
          (λ k t h.
            let (ran, stay) = lift_fst-eq (issue pdb adb tx input) s (ok k) t h in
            subst (λ (q : Q). Requests (notify req raw_token now k (t.0, q))) (sym stay)
              (notify-Requests k t.0
                (subst (IssuesCooled pdb adb tx input s.0) ran (issue_lem pdb adb tx input s.0))))
