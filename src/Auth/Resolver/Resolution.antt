-- ===== src/Auth/Resolver/Resolution.antt =====
-- What a resolution of an identity has done when it ends in a certain way.
use mathlib.Core.List.{Memᴰ}
use realworld_tutorial.Base.{
  ℕ, String, ◌≡◌, refl, ◌⊎◌, true, false, append_one, All, Codes, codes, codes_eq, Outcome, ok, err,
  M,
}
use realworld_tutorial.Base.Prisma.{Delegate, Transactor}
use realworld_tutorial.Users.{UserRow, user_clash}
use realworld_tutorial.Auth.Token.{RefreshTokenRow, clash}
use realworld_tutorial.Auth.Username.{generate_username}
use realworld_tutorial.Auth.Linking.{
  PendingProviderLinkRow, AuthProviderRow, pending_clash, auth_clash, Tables, SameRows, is_link_of,
  new_link,
}
use realworld_tutorial.Auth.Linking.Request.{RequestResult, LinkJob, request_link}
use realworld_tutorial.Auth.Resolver.{
  VerifiedIdentity, AccountResolution, account, confirmation_required, Chances, passwordless,
  link_request, Identities, AccountTables, SameAccounts,
}

module _ (tdb : Delegate RefreshTokenRow clash) (udb : Delegate UserRow user_clash)
    (pdb : Delegate PendingProviderLinkRow pending_clash)
    (adb : Delegate AuthProviderRow auth_clash) (Q : Type 0)
    (tx : Transactor (AccountTables tdb udb pdb adb Q) (SameAccounts tdb udb pdb adb Q))
    (ltx : Transactor (Tables pdb adb) (SameRows pdb adb))
    (enqueue : LinkJob → String → M Q (Unit {0})) (hash : String → String) (lower : Codes → Codes)
    (i : VerifiedIdentity) (c : Chances) (w : Identities tdb udb pdb adb Q) where
  -- The user whom a stored link of the identity names.
  pub record Linked (u : UserRow) : Type 0 where
    pub present : Memᴰ u (udb.rows w.users)
    pub link : AuthProviderRow
    pub listed : Memᴰ link (adb.rows w.tables.1)
    pub of_identity : is_link_of i.identifier link ≡ true
    pub names : link.user_id ≡ u.id

  abbrev pub Unlinked : Type 0
  Unlinked = All (λ l. is_link_of i.identifier l ≡ false) (adb.rows w.tables.1)

  -- A new user without a password and a link to it, behind the old rows, where no user has the address.
  pub record Created (u : UserRow) (v : Identities tdb udb pdb adb Q) : Type 0 where
    pub unaddressed : All (λ q. codes_eq q.email (codes i.email) ≡ false) (udb.rows w.users)
    pub row :
        u
        ≡ passwordless
            (codes i.email)
            (generate_username lower (codes i.email) c.named_at c.random)
            u.id
    pub users : udb.rows v.users ≡ append_one (udb.rows w.users) u
    pub link_id : ℕ
    pub links :
        adb.rows v.tables.1 ≡ append_one (adb.rows w.tables.1) (new_link u.id i.identifier link_id)
    pub same_pending : v.tables.0 ≡ w.tables.0
    pub same_queue : v.queue ≡ w.queue
    pub same_tokens : v.tokens ≡ w.tokens

  -- A verified address of a user, and the request for a confirmation by mail, with how it ended.
  pub record Asked (r : Outcome RequestResult) (v : Identities tdb udb pdb adb Q) : Type 0 where
    pub verified : i.email_verified ≡ true
    pub owner : UserRow
    pub present : Memᴰ owner (udb.rows w.users)
    pub addressed : owner.email ≡ codes i.email
    pub ran :
        request_link pdb adb ltx enqueue hash
          (link_request owner.id i)
          c.raw_token
          c.linked_at
          (w.tables, w.queue)
        ≡ (r, (v.tables, v.queue))
    pub same_users : v.users ≡ w.users
    pub same_tokens : v.tokens ≡ w.tokens

  pub record Untouched (v : Identities tdb udb pdb adb Q) : Type 0 where
    pub users : udb.rows v.users ≡ udb.rows w.users
    pub links : adb.rows v.tables.1 ≡ adb.rows w.tables.1
    pub same_pending : v.tables.0 ≡ w.tables.0
    pub same_queue : v.queue ≡ w.queue
    pub same_tokens : v.tokens ≡ w.tokens

  -- What a resolution that ends in a certain way has done.
  abbrev pub Resolves : Outcome AccountResolution × Identities tdb udb pdb adb Q → Type 0
  Resolves (ok (account u), v) = (Linked u × (v ≡ w)) ⊎ (Unlinked × Created u v)
  Resolves (ok confirmation_required, v) = Unlinked × (r : RequestResult) × Asked (ok r) v
  Resolves (err e, v) = Untouched v ⊎ (Unlinked × Asked (err e) v)

  pub Untouched-refl : Untouched w
  Untouched-refl = record {
    users = refl;
    links = refl;
    same_pending = refl;
    same_queue = refl;
    same_tokens = refl;
  }
