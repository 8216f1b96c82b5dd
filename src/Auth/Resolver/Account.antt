-- ===== src/Auth/Resolver/Account.antt =====
-- The account that an identity is resolved to, on every outcome.
use mathlib.Core.List.{Memᴰ}
use realworld_tutorial.Base.{
  String, ◌≡◌, refl, inl, inr, Bool, true, false, not, Option, none, some, ◌==◌, arith, Codes,
  codes, codes_eq, codes_eq_iff, Outcome, ok, err, M, pure, throw_if, ◌>>=◌, ◌>>◌,
}
use realworld_tutorial.Base.Prisma.{Delegate, Transactor, Finds}
use realworld_tutorial.Users.{UserRow, user_clash}
use realworld_tutorial.Auth.Token.{RefreshTokenRow, clash}
use realworld_tutorial.Auth.Linking.{
  PendingProviderLinkRow, AuthProviderRow, pending_clash, auth_clash, Tables, SameRows, is_link_of,
}
use realworld_tutorial.Auth.Linking.Request.{RequestResult, LinkJob, request_link}
use realworld_tutorial.Auth.Resolver.{
  VerifiedIdentity, AccountResolution, confirmation_required, Chances, sign_in_first, link_request,
  id_of, Identities, AccountTables, SameAccounts, on_request, owner_or_throw, linked_user,
  find_linked_account, find_id_by_email, link_to_existing, resolve_by_email, resolve_unless_linked,
  resolve,
}
use realworld_tutorial.Auth.Resolver.Resolution.{Unlinked, Asked, Resolves, Untouched-refl}
use realworld_tutorial.Auth.Resolver.Creation.{create_account-Resolves}

module _ (tdb : Delegate RefreshTokenRow clash) (udb : Delegate UserRow user_clash)
    (pdb : Delegate PendingProviderLinkRow pending_clash)
    (adb : Delegate AuthProviderRow auth_clash) (Q : Type 0)
    (tx : Transactor (AccountTables tdb udb pdb adb Q) (SameAccounts tdb udb pdb adb Q))
    (ltx : Transactor (Tables pdb adb) (SameRows pdb adb))
    (enqueue : LinkJob → String → M Q (Unit {0})) (hash : String → String) (lower : Codes → Codes)
    (i : VerifiedIdentity) (c : Chances) (w : Identities tdb udb pdb adb Q) where
  pub link_to_existing-Resolves :
      (owner : UserRow)
      → Memᴰ owner (udb.rows w.users)
      → codes_eq owner.email (codes i.email) ≡ true
      → Unlinked tdb udb pdb adb Q tx ltx enqueue hash lower i c w
      → Resolves tdb udb pdb adb Q tx ltx enqueue hash lower i c w
          (link_to_existing tdb udb pdb adb Q tx ltx enqueue hash lower owner.id i c w)
  unfolding link_to_existing
  link_to_existing-Resolves owner m e unlinked = split i.email_verified refl
    where
      after : Tables pdb adb × Q → Identities tdb udb pdb adb Q
      after t = record w { tables = t.0; queue = t.1 }

      asked :
          i.email_verified ≡ true
          → (r : Outcome RequestResult) (t : Tables pdb adb × Q)
          → request_link pdb adb ltx enqueue hash
              (link_request owner.id i)
              c.raw_token
              c.linked_at
              (w.tables, w.queue)
            ≡ (r, t)
          → Asked tdb udb pdb adb Q tx ltx enqueue hash lower i c w r (after t)
      asked b r t ran = record {
        verified = b;
        owner = owner;
        present = m;
        addressed = (codes_eq_iff owner.email (codes i.email)).0 e;
        ran = ran;
        same_users = refl;
        same_tokens = refl;
      }

      go :
          i.email_verified ≡ true
          → (x : Outcome RequestResult × (Tables pdb adb × Q))
          → request_link pdb adb ltx enqueue hash
              (link_request owner.id i)
              c.raw_token
              c.linked_at
              (w.tables, w.queue)
            ≡ x
          → Resolves tdb udb pdb adb Q tx ltx enqueue hash lower i c w (
              ((λ (_ : Identities tdb udb pdb adb Q). (x.0, after x.1))
                  >> pure confirmation_required)
                w)
      go b (ok r, t) ran = (unlinked, r, asked b (ok r) t ran)
      go b (err y, t) ran = inr (unlinked, asked b (err y) t ran)

      split :
          (b : Bool)
          → i.email_verified ≡ b
          → Resolves tdb udb pdb adb Q tx ltx enqueue hash lower i c w (
              (throw_if (not b) sign_in_first >>= λ _.
              on_request tdb udb pdb adb Q (
                request_link pdb adb ltx enqueue hash
                  (link_request owner.id i)
                  c.raw_token
                  c.linked_at)
              >>= λ _. pure confirmation_required)
                w)
      split false b = inl (Untouched-refl tdb udb pdb adb Q tx ltx enqueue hash lower i c w)
      split true b =
          go b
            (request_link pdb adb ltx enqueue hash (link_request owner.id i) c.raw_token c.linked_at
              (w.tables, w.queue))
            refl

  -- An identity that answers with an account has either been linked to it before, and nothing has
  -- changed, or it was not linked and no user has its address, and the account is a new one without a
  -- password, stored together with its link. An answer that asks for a confirmation has found that the
  -- identity is not linked, that the provider has verified its address and that a user has the address,
  -- and stands behind a request for the link to that user. One that throws has stored nothing, unless
  -- it is such a request that has thrown.
  pub resolve_lem :
      Resolves tdb udb pdb adb Q tx ltx enqueue hash lower i c w
        (resolve tdb udb pdb adb Q tx ltx enqueue hash lower i c w)
  unfolding resolve find_linked_account find_id_by_email
  resolve_lem =
      by_link (adb.find_first (is_link_of i.identifier) w.tables.1)
        (adb.find_first_lem (is_link_of i.identifier) w.tables.1)
    where
      rest : Option UserRow → M (Identities tdb udb pdb adb Q) AccountResolution
      rest = resolve_unless_linked tdb udb pdb adb Q tx ltx enqueue hash lower i c

      by_email :
          Unlinked tdb udb pdb adb Q tx ltx enqueue hash lower i c w
          → (x : Outcome (Option UserRow))
          → Finds (λ (u : UserRow). codes_eq u.email (codes i.email)) (udb.rows w.users) x
          → Resolves tdb udb pdb adb Q tx ltx enqueue hash lower i c w (
              ((λ (_ : Identities tdb udb pdb adb Q). (x, w))
                  >>= (λ o. pure (id_of o))
                  >>= resolve_by_email tdb udb pdb adb Q tx ltx enqueue hash lower i c)
                w)
      by_email unlinked (ok none) h =
          create_account-Resolves tdb udb pdb adb Q tx ltx enqueue hash lower i c w h unlinked
      by_email unlinked (ok (some u)) (m, e) = link_to_existing-Resolves u m e unlinked
      by_email unlinked (err e) h =
          inl (Untouched-refl tdb udb pdb adb Q tx ltx enqueue hash lower i c w)

      by_owner :
          (l : AuthProviderRow)
          → Memᴰ l (adb.rows w.tables.1)
          → is_link_of i.identifier l ≡ true
          → (x : Outcome (Option UserRow))
          → Finds (λ (u : UserRow). u.id == l.user_id) (udb.rows w.users) x
          → Resolves tdb udb pdb adb Q tx ltx enqueue hash lower i c w (
              ((λ (_ : Identities tdb udb pdb adb Q). (x, w))
                  >>= owner_or_throw tdb udb pdb adb Q
                  >>= rest)
                w)
      by_owner l m e (ok none) h =
          inl (Untouched-refl tdb udb pdb adb Q tx ltx enqueue hash lower i c w)
      by_owner l m e (ok (some u)) (n, f) = inl (
        record { present = n; link = l; listed = m; of_identity = e; names = ground arith },
        refl,
      )
      by_owner l m e (err x) h =
          inl (Untouched-refl tdb udb pdb adb Q tx ltx enqueue hash lower i c w)

      by_link :
          (x : Outcome (Option AuthProviderRow))
          → Finds (is_link_of i.identifier) (adb.rows w.tables.1) x
          → Resolves tdb udb pdb adb Q tx ltx enqueue hash lower i c w (
              ((λ (_ : Identities tdb udb pdb adb Q). (x, w))
                  >>= linked_user tdb udb pdb adb Q
                  >>= rest)
                w)
      by_link (ok none) h =
          by_email h (udb.find_first (λ u. codes_eq u.email (codes i.email)) w.users)
            (udb.find_first_lem (λ u. codes_eq u.email (codes i.email)) w.users)
      by_link (ok (some l)) (m, e) =
          by_owner l m e (udb.find_first (λ u. u.id == l.user_id) w.users)
            (udb.find_first_lem (λ u. u.id == l.user_id) w.users)
      by_link (err e) h = inl (Untouched-refl tdb udb pdb adb Q tx ltx enqueue hash lower i c w)
