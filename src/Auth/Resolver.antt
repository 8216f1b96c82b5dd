-- ===== src/Auth/Resolver.antt =====
-- src/auth/account, and `handleOAuthCallback` of src/auth/auth.service.ts: the account that an identity
-- of a provider belongs to. An account that is linked is found, a new address gets a new account, and
-- an address that an account has is sent a mail to confirm the link. An account that a query selects is
-- the user's row. The texts of an identity are compared with those of users through their codes.
pub mod Resolution
pub mod Creation
pub mod Account
pub mod Callback
mod Tests
use realworld_tutorial.Base.{
  ℕ, String, ◌≡◌, Bool, true, false, not, Option, none, some, [], ◌==◌, if◌then◌else◌, Codes, codes,
  codes_eq, Exception, http, error, Outcome, ok, err, M, pure, throw, throw_if, reads, ◌>>=◌, ◌>>◌,
  lift_fst,
}
use realworld_tutorial.Base.Prisma.{Delegate, Transactor}
use realworld_tutorial.Users.{UserRow, user_clash}
use realworld_tutorial.Auth.Token.{RefreshTokenRow, clash, Draws, issue_tokens}
use realworld_tutorial.Auth.Username.{generate_username}
use realworld_tutorial.Auth.Linking.{
  PendingProviderLinkRow, AuthProviderRow, ProviderIdentifier, pending_clash, auth_clash, Tables,
  SameRows, is_link_of, new_link,
}
use realworld_tutorial.Auth.Linking.Request.{
  ProviderLinkRequest, RequestResult, LinkJob, request_link,
}
use realworld_tutorial.Auth.Accounts.{AuthResponse, session_response}

pub record VerifiedIdentity : Type 0 where
  pub identifier : ProviderIdentifier
  pub email : String
  pub email_verified : Bool

pub data AccountResolution : Type 0 where
  account : UserRow → AccountResolution
  confirmation_required : AccountResolution

pub data OauthCallbackResult : Type 0 where
  authenticated : AuthResponse → OauthCallbackResult
  confirmation_pending : OauthCallbackResult

-- What the resolution draws: the clock and the random bytes of a user name, the token of a link and the
-- clock at which it is issued.
pub record Chances : Type 0 where
  pub named_at : ℕ
  pub random : Codes
  pub raw_token : String
  pub linked_at : ℕ

abbrev pub sign_in_first : Exception
sign_in_first = http 409 "Sign in with your password first, then link this provider"

-- Prisma's answer where a row that a foreign key names is missing.
abbrev pub orphaned : Exception
orphaned = error "Inconsistent query result"

abbrev pub passwordless : Codes → Codes → ℕ → UserRow
passwordless email username id = record {
  id = id;
  email = email;
  username = username;
  password = none;
  image = none;
  bio = none;
  followed_by = [];
}

abbrev pub link_request : ℕ → VerifiedIdentity → ProviderLinkRequest
link_request user_id i = record { user_id = user_id; recipient = i.email; identity = i.identifier }

abbrev pub id_of : Option UserRow → Option ℕ
id_of none = none
id_of (some u) = some u.id

module _ (tdb : Delegate RefreshTokenRow clash) (udb : Delegate UserRow user_clash)
    (pdb : Delegate PendingProviderLinkRow pending_clash)
    (adb : Delegate AuthProviderRow auth_clash) (Q : Type 0) where
  -- The tables, and the mail queue.
  pub record Identities : Type 0 where
    pub tokens : tdb.Store
    pub users : udb.Store
    pub tables : Tables pdb adb
    pub queue : Q

  abbrev pub AccountTables : Type 0
  AccountTables = udb.Store × adb.Store

  -- After a rollback the rows of both tables are the old ones.
  abbrev pub SameAccounts : AccountTables → AccountTables → Type 0
  SameAccounts s t = (udb.rows t.0 ≡ udb.rows s.0) × (adb.rows t.1 ≡ adb.rows s.1)

  abbrev pub on_tokens {ℓ} : {A : Type ℓ} → M tdb.Store A → M Identities A
  on_tokens m w = let (r, t) = m w.tokens in (r, record w { tokens = t })

  abbrev pub on_request {ℓ} : {A : Type ℓ} → M (Tables pdb adb × Q) A → M Identities A
  on_request m w = let (r, t) = m (w.tables, w.queue) in (r, record w { tables = t.0; queue = t.1 })

  abbrev pub on_accounts {ℓ} : {A : Type ℓ} → M AccountTables A → M Identities A
  on_accounts m w =
      let (r, t) = m (w.users, w.tables.1) in
      (r, record w { users = t.0; tables = (w.tables.0, t.1) })

  abbrev pub owner_or_throw : Option UserRow → M Identities (Option UserRow)
  owner_or_throw none = throw orphaned
  owner_or_throw (some u) = pure (some u)

  -- `link?.user ?? null`
  abbrev pub linked_user : Option AuthProviderRow → M Identities (Option UserRow)
  linked_user none = pure none
  linked_user (some l) =
      reads (λ w. udb.find_first (λ u. u.id == l.user_id) w.users) >>= owner_or_throw

  unfoldable pub find_linked_account : ProviderIdentifier → M Identities (Option UserRow)
  find_linked_account identifier = do
    link ← reads (λ w. adb.find_first (is_link_of identifier) w.tables.1)
    linked_user link

  unfoldable pub find_id_by_email : Codes → M Identities (Option ℕ)
  find_id_by_email email = do
    user ← reads (λ w. udb.find_first (λ u. codes_eq u.email email) w.users)
    pure (id_of user)

  unfoldable pub create_passwordless : Codes → Codes → M AccountTables UserRow
  create_passwordless email username = lift_fst (udb.create (passwordless email username))

  abbrev pub link_account : ℕ → ProviderIdentifier → M AccountTables (Unit {0})
  link_account user_id identifier s =
      let (r, t) = adb.create (new_link user_id identifier) s.1 in
      ((λ (_ : AccountTables). (r, (s.0, t))) >> pure tt) s

  -- The body of the transaction in `createAccount`.
  unfoldable pub add_account : VerifiedIdentity → Codes → M AccountTables UserRow
  unfolding create_passwordless
  add_account i username = do
    user ← create_passwordless (codes i.email) username
    _ ← link_account user.id i.identifier
    pure user

  module _ (tx : Transactor AccountTables SameAccounts)
      (ltx : Transactor (Tables pdb adb) (SameRows pdb adb))
      (enqueue : LinkJob → String → M Q (Unit {0})) (hash : String → String)
      (lower : Codes → Codes) where
    -- `$transaction`, where the calling function has no local variable.
    abbrev pub transact_accounts : {A : Type 0} → M AccountTables A → M AccountTables A
    transact_accounts {A} m s =
        let (r, u) = tx.transact (Unit {0}) A (lift_fst m) (s, tt) in (r, u.0)

    unfoldable pub create_account : VerifiedIdentity → Chances → M Identities UserRow
    unfolding add_account
    create_account i c = on_accounts (
        transact_accounts
          (add_account i (generate_username lower (codes i.email) c.named_at c.random)))

    unfoldable pub link_to_existing :
        ℕ → VerifiedIdentity → Chances → M Identities AccountResolution
    link_to_existing user_id i c = do
      throw_if (not i.email_verified) sign_in_first
      _ ←
          on_request
            (request_link pdb adb ltx enqueue hash (link_request user_id i) c.raw_token c.linked_at)
      pure confirmation_required

    abbrev pub resolve_by_email :
        VerifiedIdentity → Chances → Option ℕ → M Identities AccountResolution
    resolve_by_email i c none = create_account i c >>= λ u. pure (account u)
    resolve_by_email i c (some user_id) = link_to_existing user_id i c

    abbrev pub resolve_unless_linked :
        VerifiedIdentity → Chances → Option UserRow → M Identities AccountResolution
    resolve_unless_linked i c (some u) = pure (account u)
    resolve_unless_linked i c none = find_id_by_email (codes i.email) >>= resolve_by_email i c

    unfoldable pub resolve : VerifiedIdentity → Chances → M Identities AccountResolution
    unfolding find_linked_account find_id_by_email create_account link_to_existing
    resolve i c = do linked ← find_linked_account i.identifier; resolve_unless_linked i c linked

    module _ (url : Codes → Codes) (sign : ℕ → String) (ttl_days : ℕ) where
      abbrev pub authenticate : Draws → AccountResolution → M Identities OauthCallbackResult
      authenticate d confirmation_required = pure confirmation_pending
      authenticate d (account u) = do
        tokens ← on_tokens (issue_tokens tdb hash sign ttl_days u.id d)
        pure (authenticated (session_response url u tokens))

      unfoldable pub handle_oauth_callback :
          VerifiedIdentity → Chances → Draws → M Identities OauthCallbackResult
      unfolding resolve
      handle_oauth_callback i c d = do resolution ← resolve i c; authenticate d resolution
