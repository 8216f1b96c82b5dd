-- ===== src/Auth/Linking.antt =====
-- src/auth/account-linking, src/auth/account/auth-provider.repository.ts: links of a provider's
-- accounts to users, and the confirmations by mail. A time is a number of milliseconds. SHA-256, the
-- random tokens and the mail queue are parameters; a clock reading is an argument. An account that a
-- query selects through a link is named by its id.
pub mod Issue
pub mod Body
pub mod Confirm
pub mod Request
use realworld_tutorial.Base.{
  ℕ, ◌+◌, ◌*◌, ◌≤◌, String, ◌≡◌, Bool, true, false, not, ◌&&◌, ◌||◌, Option, none, some, List, [],
  ◌∷◌, ltb, leb, ◌==◌, str_eq, if◌then◌else◌, Exception, http, prisma, error, Outcome, ok, err, M,
  pure, throw, throw_if, reads, ◌>>=◌, ◌>>◌, lift_fst, set_local, catch_with,
}
use realworld_tutorial.Base.Prisma.{Delegate, Transactor}

pub record PendingProviderLinkRow : Type 0 where
  pub id : ℕ
  pub user_id : ℕ
  pub provider : String
  pub provider_account_id : String
  pub token_hash : String
  pub expires_at : ℕ
  pub created_at : ℕ

pub record AuthProviderRow : Type 0 where
  pub id : ℕ
  pub provider : String
  pub provider_account_id : String
  pub user_id : ℕ

pub record ProviderIdentifier : Type 0 where
  pub provider : String
  pub provider_account_id : String

pub record IssueInput : Type 0 where
  pub user_id : ℕ
  pub identity : ProviderIdentifier
  pub token_hash : String
  pub expires_at : ℕ
  pub now : ℕ

pub data IssueResult : Type 0 where
  issued : (pending_id : ℕ) (token_hash : String) (expires_at : ℕ) → IssueResult
  cooldown : (pending_id : ℕ) → IssueResult

pub data Confirmation : Type 0 where
  confirmed : Confirmation
  already_confirmed : Confirmation

abbrev pub resend_cooldown_ms : ℕ
resend_cooldown_ms = 60 * 1000

abbrev pub link_ttl_ms : ℕ
link_ttl_ms = 15 * 60 * 1000

abbrev pub invalid_link_token : Exception
invalid_link_token = http 400 "common.error.invalidOrExpiredLinkToken"

abbrev pub provider_link_conflict : Exception
provider_link_conflict = http 409 "common.error.providerLinkConflict"

abbrev pub link_unavailable : Exception
link_unavailable = http 503 "Service unavailable, please try again later"

-- The unique keys of the two tables.
abbrev pub pending_clash : PendingProviderLinkRow → PendingProviderLinkRow → Bool
pending_clash q r =
    str_eq q.token_hash r.token_hash
    || (str_eq q.provider r.provider && str_eq q.provider_account_id r.provider_account_id)
    || (q.user_id == r.user_id && str_eq q.provider r.provider)

abbrev pub auth_clash : AuthProviderRow → AuthProviderRow → Bool
auth_clash q r = str_eq q.provider r.provider && str_eq q.provider_account_id r.provider_account_id

-- The `where` of the queries.
abbrev pub is_same_link : IssueInput → PendingProviderLinkRow → Bool
is_same_link i r =
    (str_eq r.provider i.identity.provider
      && str_eq r.provider_account_id i.identity.provider_account_id)
    || (r.user_id == i.user_id && str_eq r.provider i.identity.provider)

abbrev pub is_valid_token : String → ℕ → PendingProviderLinkRow → Bool
is_valid_token token_hash now r = str_eq r.token_hash token_hash && ltb now r.expires_at

abbrev pub is_claimed : ℕ → String → ℕ → PendingProviderLinkRow → Bool
is_claimed id token_hash now r =
    r.id == id && str_eq r.token_hash token_hash && ltb now r.expires_at

abbrev pub is_current : ℕ → String → PendingProviderLinkRow → Bool
is_current id token_hash r = r.id == id && str_eq r.token_hash token_hash

abbrev pub is_link_of : ProviderIdentifier → AuthProviderRow → Bool
is_link_of identity r =
    str_eq r.provider identity.provider && str_eq r.provider_account_id identity.provider_account_id

-- `orderBy: { createdAt: 'desc' }`, and the first.
abbrev pub later_of :
    PendingProviderLinkRow → Option PendingProviderLinkRow → Option PendingProviderLinkRow
later_of r none = some r
later_of r (some q) = if ltb r.created_at q.created_at then some q else some r

abbrev pub newest : List PendingProviderLinkRow → Option PendingProviderLinkRow
newest [] = none
newest (r ∷ rs) = later_of r (newest rs)

abbrev pub is_unique_violation : Exception → Bool
is_unique_violation (prisma code target) = str_eq code "P2002"
is_unique_violation (http code message) = false
is_unique_violation (error message) = false

abbrev pub new_pending : IssueInput → ℕ → PendingProviderLinkRow
new_pending i id = record {
  id = id;
  user_id = i.user_id;
  provider = i.identity.provider;
  provider_account_id = i.identity.provider_account_id;
  token_hash = i.token_hash;
  expires_at = i.expires_at;
  created_at = i.now;
}

abbrev pub new_link : ℕ → ProviderIdentifier → ℕ → AuthProviderRow
new_link user_id identity id = record {
  id = id;
  provider = identity.provider;
  provider_account_id = identity.provider_account_id;
  user_id = user_id;
}

abbrev pub identity_of : PendingProviderLinkRow → ProviderIdentifier
identity_of p = record { provider = p.provider; provider_account_id = p.provider_account_id }

abbrev pub issued_result : PendingProviderLinkRow → IssueResult
issued_result r = issued r.id r.token_hash r.expires_at

module _ (pdb : Delegate PendingProviderLinkRow pending_clash)
    (adb : Delegate AuthProviderRow auth_clash) where
  abbrev pub Tables : Type 0
  Tables = pdb.Store × adb.Store

  -- After a rollback the rows of both tables are the old ones.
  abbrev pub SameRows : Tables → Tables → Type 0
  SameRows s t = (pdb.rows t.0 ≡ pdb.rows s.0) × (adb.rows t.1 ≡ adb.rows s.1)

  abbrev pub on_links {ℓ} : {A : Type ℓ} → M adb.Store A → M Tables A
  on_links m s = let (r, t) = m s.1 in (r, (s.0, t))

  unfoldable pub find_existing : IssueInput → M Tables (Option PendingProviderLinkRow)
  find_existing i = do rows ← reads (λ s. pdb.find_many (is_same_link i) s.0); pure (newest rows)

  unfoldable pub find_valid : String → ℕ → M Tables (Option PendingProviderLinkRow)
  find_valid token_hash now = reads (λ s. pdb.find_first (is_valid_token token_hash now) s.0)

  unfoldable pub delete_if_current : ℕ → String → M Tables Bool
  delete_if_current id token_hash = do
    count ← lift_fst (pdb.delete_many (is_current id token_hash))
    pure (count == 1)

  unfoldable pub claim : ℕ → String → ℕ → M Tables Bool
  claim id token_hash now = do
    count ← lift_fst (pdb.delete_many (is_claimed id token_hash now))
    pure (count == 1)

  unfoldable pub delete_expired_links : ℕ → M Tables ℕ
  delete_expired_links now =
      lift_fst (pdb.delete_many (λ (r : PendingProviderLinkRow). leb r.expires_at now))

  -- `ExpiredProviderLinkCleanupService.removeExpiredLinks`
  unfoldable pub remove_expired_links : ℕ → M Tables (Unit {0})
  unfolding delete_expired_links
  remove_expired_links now = catch_with (delete_expired_links now >> pure tt) (λ e. pure tt)

  abbrev pub account_of : Option AuthProviderRow → Option ℕ
  account_of none = none
  account_of (some l) = some l.user_id

  unfoldable pub find_account_by_provider : ProviderIdentifier → M Tables (Option ℕ)
  find_account_by_provider identity = do
    link ← reads (λ s. adb.find_first (is_link_of identity) s.1)
    pure (account_of link)

  unfoldable pub create_link : ℕ → ProviderIdentifier → M Tables (Unit {0})
  create_link user_id identity = on_links (adb.create (new_link user_id identity)) >> pure tt

  unfoldable pub replace_pending : IssueInput → M Tables IssueResult
  replace_pending i = do
    _ ← lift_fst (pdb.delete_many (is_same_link i))
    row ← lift_fst (pdb.create (new_pending i))
    pure (issued_result row)

  abbrev pub cooldown_or_throw : Exception → Option PendingProviderLinkRow → M Tables IssueResult
  cooldown_or_throw e none = throw e
  cooldown_or_throw e (some r) = pure (cooldown r.id)

  abbrev pub recover_issue : IssueInput → Exception → M Tables IssueResult
  recover_issue i e =
      if is_unique_violation e then (find_existing i >>= cooldown_or_throw e) else throw e

  -- The body of the transaction in `confirm`; its local variable is `racedIdentity`.
  abbrev pub link_pending :
      PendingProviderLinkRow
      → Bool
      → Option ℕ
      → M (Tables × Option (ℕ × ProviderIdentifier)) Confirmation
  link_pending p claimed (some account) =
      if account == p.user_id then pure already_confirmed else throw provider_link_conflict
  link_pending p claimed none =
      if claimed
      then (set_local (some (p.user_id, identity_of p))
          >> lift_fst (create_link p.user_id (identity_of p))
          >> pure confirmed)
      else throw invalid_link_token

  abbrev pub confirm_pending :
      String
      → ℕ
      → Option PendingProviderLinkRow
      → M (Tables × Option (ℕ × ProviderIdentifier)) Confirmation
  confirm_pending token_hash now none = throw invalid_link_token
  confirm_pending token_hash now (some p) = do
    claimed ← lift_fst (claim p.id token_hash now)
    account ← lift_fst (find_account_by_provider (identity_of p))
    link_pending p claimed account

  unfoldable pub confirm_body :
      String → ℕ → M (Tables × Option (ℕ × ProviderIdentifier)) Confirmation
  unfolding find_valid claim find_account_by_provider create_link
  confirm_body token_hash now = do
    pending ← lift_fst (find_valid token_hash now)
    confirm_pending token_hash now pending

  abbrev pub judge : ℕ → Option ℕ → M Tables Confirmation
  judge user_id none = throw provider_link_conflict
  judge user_id (some account) =
      if account == user_id then pure already_confirmed else throw provider_link_conflict

  -- The `catch` of `confirm`.
  abbrev pub settle_confirm :
      Outcome Confirmation → Option (ℕ × ProviderIdentifier) → M Tables Confirmation
  settle_confirm (ok k) raced = pure k
  settle_confirm (err e) none = throw e
  settle_confirm (err e) (some (user_id, identity)) =
      if is_unique_violation e
      then (find_account_by_provider identity >>= judge user_id)
      else throw e

  module _ (tx : Transactor Tables SameRows) where
    -- `$transaction` where the calling function has no local variable.
    abbrev pub transact_plain : {A : Type 0} → M Tables A → M Tables A
    transact_plain {A} m s = let (r, u) = tx.transact (Unit {0}) A (lift_fst m) (s, tt) in (r, u.0)

    abbrev pub issue_anew : IssueInput → M Tables IssueResult
    issue_anew i = catch_with (transact_plain (replace_pending i)) (recover_issue i)

    -- `elapsedMs < PENDING_LINK_RESEND_COOLDOWN_MS`, over the integers.
    abbrev pub issue_unless_recent :
        IssueInput → Option PendingProviderLinkRow → M Tables IssueResult
    issue_unless_recent i none = issue_anew i
    issue_unless_recent i (some r) =
        if ltb i.now (r.created_at + resend_cooldown_ms) then pure (cooldown r.id) else issue_anew i

    unfoldable pub issue : IssueInput → M Tables IssueResult
    unfolding find_existing replace_pending
    issue i = do existing ← find_existing i; issue_unless_recent i existing

    -- `meanwhile` is what other requests commit between the end of the transaction and the `catch`.
    unfoldable pub confirm :
        (String → String) → (Tables → Tables) → String → ℕ → M Tables Confirmation
    unfolding confirm_body
    confirm hash meanwhile raw_token now s =
        if str_eq raw_token ""
        then (err invalid_link_token, s)
        else (let (r, u) =
              tx.transact (Option (ℕ × ProviderIdentifier)) Confirmation
                (confirm_body (hash raw_token) now) (s, none) in
            settle_confirm r u.1 (meanwhile u.0))
