-- ===== src/Auth/Resolver/Creation.antt =====
-- A new account and its link, which one transaction stores.
use realworld_tutorial.Base.{
  ℕ, String, ◌≡◌, refl, sym, ap, ◌∙◌, inl, inr, false, append_one, All, Codes, codes, codes_eq,
  Outcome, ok, err, M, pure, ◌>>=◌, ◌>>◌, subst, lift_fst,
}
use realworld_tutorial.Base.Prisma.{Delegate, Transactor, Transacts, Creates}
use realworld_tutorial.Users.{UserRow, user_clash}
use realworld_tutorial.Auth.Token.{RefreshTokenRow, clash}
use realworld_tutorial.Auth.Username.{generate_username}
use realworld_tutorial.Auth.Linking.{
  PendingProviderLinkRow, AuthProviderRow, pending_clash, auth_clash, Tables, SameRows, new_link,
}
use realworld_tutorial.Auth.Linking.Request.{LinkJob}
use realworld_tutorial.Auth.Resolver.{
  VerifiedIdentity, account, Chances, passwordless, Identities, AccountTables, SameAccounts,
  create_passwordless, link_account, add_account, create_account,
}
use realworld_tutorial.Auth.Resolver.Resolution.{Unlinked, Created, Untouched, Resolves}

module _ (tdb : Delegate RefreshTokenRow clash) (udb : Delegate UserRow user_clash)
    (pdb : Delegate PendingProviderLinkRow pending_clash)
    (adb : Delegate AuthProviderRow auth_clash) (Q : Type 0)
    (tx : Transactor (AccountTables tdb udb pdb adb Q) (SameAccounts tdb udb pdb adb Q))
    (ltx : Transactor (Tables pdb adb) (SameRows pdb adb))
    (enqueue : LinkJob → String → M Q (Unit {0})) (hash : String → String) (lower : Codes → Codes)
    (i : VerifiedIdentity) (c : Chances) (w : Identities tdb udb pdb adb Q) where
  abbrev name : Codes
  name = generate_username lower (codes i.email) c.named_at c.random

  abbrev accounts : AccountTables tdb udb pdb adb Q
  accounts = (w.users, w.tables.1)

  abbrev with_accounts : AccountTables tdb udb pdb adb Q → Identities tdb udb pdb adb Q
  with_accounts t = record w { users = t.0; tables = (w.tables.0, t.1) }

  -- The rows after the body of the transaction has answered.
  abbrev Adds : Outcome UserRow × AccountTables tdb udb pdb adb Q → Type 0
  Adds (ok u, t) =
      (u ≡ passwordless (codes i.email) name u.id)
      × (udb.rows t.0 ≡ append_one (udb.rows w.users) u)
      × ((k : ℕ) × (adb.rows t.1 ≡ append_one (adb.rows w.tables.1) (new_link u.id i.identifier k)))
  Adds (err e, t) = Unit

  add_account-Adds : Adds (add_account tdb udb pdb adb Q i name accounts)
  unfolding add_account create_passwordless
  add_account-Adds =
      created (udb.create (passwordless (codes i.email) name) w.users)
        (udb.create_lem (passwordless (codes i.email) name) w.users)
    where
      linked :
          (u : UserRow) (t : udb.Store)
          → u ≡ passwordless (codes i.email) name u.id
          → udb.rows t ≡ append_one (udb.rows w.users) u
          → (x : Outcome AuthProviderRow × adb.Store)
          → Creates auth_clash
              (new_link u.id i.identifier)
              (adb.next_id w.tables.1)
              (adb.rows w.tables.1)
              x.0
              (adb.next_id x.1)
              (adb.rows x.1)
          → Adds (
              ◌>>=◌ {A = Unit {0}}
                ((λ (_ : AccountTables tdb udb pdb adb Q). (x.0, (t, x.1))) >> pure tt)
                (λ _. pure u)
                accounts)
      linked u t row users (ok l, a) (k, lo, hi, is, links, free) =
          (row, users, (k, links ∙ ap (append_one (adb.rows w.tables.1)) is))
      linked u t row users (err e, a) h = tt

      created :
          (x : Outcome UserRow × udb.Store)
          → Creates user_clash
              (passwordless (codes i.email) name)
              (udb.next_id w.users)
              (udb.rows w.users)
              x.0
              (udb.next_id x.1)
              (udb.rows x.1)
          → Adds (
              ((λ (_ : AccountTables tdb udb pdb adb Q). (x.0, (x.1, w.tables.1))) >>= λ u.
              link_account tdb udb pdb adb Q u.id i.identifier >>= λ _. pure u)
                accounts)
      created (ok u, t) (k, lo, hi, is, users, free) =
          linked u t
            (is ∙ ap (passwordless (codes i.email) name) (sym (ap (λ (r : UserRow). r.id) is)))
            users (adb.create (new_link u.id i.identifier) w.tables.1)
            (adb.create_lem (new_link u.id i.identifier) w.tables.1)
      created (err e, t) h = tt

  untouched :
      (t : AccountTables tdb udb pdb adb Q)
      → SameAccounts tdb udb pdb adb Q accounts t
      → Untouched tdb udb pdb adb Q tx ltx enqueue hash lower i c w (with_accounts t)
  untouched t h = record {
    users = h.0;
    links = h.1;
    same_pending = refl;
    same_queue = refl;
    same_tokens = refl;
  }

  pub create_account-Resolves :
      All (λ q. codes_eq q.email (codes i.email) ≡ false) (udb.rows w.users)
      → Unlinked tdb udb pdb adb Q tx ltx enqueue hash lower i c w
      → Resolves tdb udb pdb adb Q tx ltx enqueue hash lower i c w (
          (create_account tdb udb pdb adb Q tx ltx enqueue hash lower i c >>= λ u. pure (account u))
            w)
  unfolding create_account
  create_account-Resolves none_has unlinked =
      go (body accounts) add_account-Adds
        (tx.transact (Unit {0}) UserRow (lift_fst body) (accounts, tt))
        (tx.transact_lem (Unit {0}) UserRow (lift_fst body) accounts tt)
    where
      body : M (AccountTables tdb udb pdb adb Q) UserRow
      body = add_account tdb udb pdb adb Q i name

      built :
          (u : UserRow) (t : AccountTables tdb udb pdb adb Q)
          → Adds (ok u, t)
          → Created tdb udb pdb adb Q tx ltx enqueue hash lower i c w u (with_accounts t)
      built u t (row, users, (k, links)) = record {
        unaddressed = none_has;
        row = row;
        users = users;
        link_id = k;
        links = links;
        same_pending = refl;
        same_queue = refl;
        same_tokens = refl;
      }

      go :
          (b : Outcome UserRow × AccountTables tdb udb pdb adb Q)
          → Adds b
          → (x : Outcome UserRow × (AccountTables tdb udb pdb adb Q × Unit {0}))
          → Transacts (SameAccounts tdb udb pdb adb Q) accounts (b.0, (b.1, tt)) x
          → Resolves tdb udb pdb adb Q tx ltx enqueue hash lower i c w (
              ((λ (_ : Identities tdb udb pdb adb Q). (x.0, with_accounts x.1.0)) >>= λ u.
              pure (account u))
                w)
      go (ok u, t) h (ok u', (t', _)) (inl (e, f)) =
          let same_user : u ≡ u' = cc in
          inr (
            unlinked,
            subst
                (λ z.
                  Created tdb udb pdb adb Q tx ltx enqueue hash lower i c w u' (with_accounts z))
                (sym (ap (λ x. x.0) f))
                (subst
                  (λ z.
                    Created tdb udb pdb adb Q tx ltx enqueue hash lower i c w z (with_accounts t))
                  same_user (built u t h)),
          )
      go (ok u, t) h (ok u', (t', _)) (inr (e, d, is, same, _)) = cc
      go (ok u, t) h (err y, (t', _)) (inl (e, f)) = cc
      go (ok u, t) h (err y, (t', _)) (inr (e, d, is, same, _)) = inl (untouched t' same)
      go (err x, t) h (ok u', (t', _)) (is, same, _) = cc
      go (err x, t) h (err y, (t', _)) (is, same, _) = inl (untouched t' same)
