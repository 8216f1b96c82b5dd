-- ===== src/Auth/Resolver/Callback.antt =====
-- The callback of a provider: an identity is resolved and, where it has an account, tokens are issued.
use realworld_tutorial.Base.{
  ℕ, String, ◌≡◌, refl, sym, ap, subst, ◌⊎◌, inl, inr, Codes, Outcome, ok, err, M, pure, ◌>>=◌,
  >>=-cases,
}
use realworld_tutorial.Base.Prisma.{Delegate, Transactor}
use realworld_tutorial.Users.{UserRow, user_clash}
use realworld_tutorial.Auth.Token.{RefreshTokenRow, TokenPair, clash, Draws, issue_tokens}
use realworld_tutorial.Auth.Linking.{
  PendingProviderLinkRow, AuthProviderRow, pending_clash, auth_clash, Tables, SameRows,
}
use realworld_tutorial.Auth.Linking.Request.{LinkJob}
use realworld_tutorial.Auth.Accounts.{session_response}
use realworld_tutorial.Auth.Resolver.{
  VerifiedIdentity, AccountResolution, account, confirmation_required, OauthCallbackResult,
  authenticated, confirmation_pending, Chances, Identities, AccountTables, SameAccounts, resolve,
  authenticate, handle_oauth_callback,
}
use realworld_tutorial.Auth.Resolver.Resolution.{Resolves}
use realworld_tutorial.Auth.Resolver.Account.{resolve_lem}

module _ (tdb : Delegate RefreshTokenRow clash) (udb : Delegate UserRow user_clash)
    (pdb : Delegate PendingProviderLinkRow pending_clash)
    (adb : Delegate AuthProviderRow auth_clash) (Q : Type 0)
    (tx : Transactor (AccountTables tdb udb pdb adb Q) (SameAccounts tdb udb pdb adb Q))
    (ltx : Transactor (Tables pdb adb) (SameRows pdb adb))
    (enqueue : LinkJob → String → M Q (Unit {0})) (hash : String → String) (lower : Codes → Codes)
    (url : Codes → Codes) (sign : ℕ → String) (ttl_days : ℕ) (i : VerifiedIdentity) (c : Chances)
    (d : Draws) (w : Identities tdb udb pdb adb Q) where
  -- The resolution has found or made an account, and issuing its tokens has ended in a certain way.
  pub record Issued (u : UserRow) (r : Outcome TokenPair) (v : Identities tdb udb pdb adb Q)
      : Type 0 where
    pub resolved : Identities tdb udb pdb adb Q
    pub resolves :
        Resolves tdb udb pdb adb Q tx ltx enqueue hash lower i c w (ok (account u), resolved)
    pub ran : issue_tokens tdb hash sign ttl_days u.id d w.tokens ≡ (r, v.tokens)
    pub rest : v ≡ record resolved { tokens = v.tokens }

  -- What a callback that ends in a certain way has done.
  abbrev pub CallsBack : Outcome OauthCallbackResult × Identities tdb udb pdb adb Q → Type 0
  CallsBack (ok (authenticated resp), v) =
      (u : UserRow) × Issued u (ok resp.tokens) v × (resp ≡ session_response url u resp.tokens)
  CallsBack (ok confirmation_pending, v) =
      Resolves tdb udb pdb adb Q tx ltx enqueue hash lower i c w (ok confirmation_required, v)
  CallsBack (err e, v) =
      Resolves tdb udb pdb adb Q tx ltx enqueue hash lower i c w (err e, v)
      ⊎ ((u : UserRow) × Issued u (err e) v)

  same_tokens :
      (u : UserRow) (v : Identities tdb udb pdb adb Q)
      → Resolves tdb udb pdb adb Q tx ltx enqueue hash lower i c w (ok (account u), v)
      → v.tokens ≡ w.tokens
  same_tokens u v (inl (linked, same)) = ap (λ (x : Identities tdb udb pdb adb Q). x.tokens) same
  same_tokens u v (inr (unlinked, created)) = created.same_tokens

  authenticate-CallsBack :
      (k : AccountResolution) (v : Identities tdb udb pdb adb Q)
      → Resolves tdb udb pdb adb Q tx ltx enqueue hash lower i c w (ok k, v)
      → CallsBack (authenticate tdb udb pdb adb Q tx ltx enqueue hash lower url sign ttl_days d k v)
  authenticate-CallsBack confirmation_required v h = h
  authenticate-CallsBack (account u) v h =
      go (issue_tokens tdb hash sign ttl_days u.id d v.tokens)
        (ap (issue_tokens tdb hash sign ttl_days u.id d) (sym (same_tokens u v h)))
    where
      go :
          (x : Outcome TokenPair × tdb.Store)
          → issue_tokens tdb hash sign ttl_days u.id d w.tokens ≡ x
          → CallsBack (
              ((λ (_ : Identities tdb udb pdb adb Q). (x.0, record v { tokens = x.1 })) >>= λ p.
              pure (authenticated (session_response url u p)))
                v)
      go (ok p, t) ran = (u, record { resolved = v; resolves = h; ran = ran; rest = refl }, refl)
      go (err e, t) ran = inr (u, record { resolved = v; resolves = h; ran = ran; rest = refl })

  -- A callback that signs somebody in has issued tokens to the account that the identity was linked to
  -- before or, where it was not linked and no user had its address, to a new account without a password
  -- that is stored with its link; it never signs in to an existing account that the identity is not
  -- linked to. One that asks for a confirmation has found that the provider has verified the address
  -- and that a user has it, and has requested the link to that user. One that throws has stored nothing
  -- but what a failed request or a failed issue of tokens leaves.
  pub handle_oauth_callback_lem :
      CallsBack (
        handle_oauth_callback tdb udb pdb adb Q tx ltx enqueue hash lower url sign ttl_days i c d w)
  unfolding handle_oauth_callback
  handle_oauth_callback_lem =
      >>=-cases CallsBack (resolve tdb udb pdb adb Q tx ltx enqueue hash lower i c)
        (authenticate tdb udb pdb adb Q tx ltx enqueue hash lower url sign ttl_days d) w
        (λ e t h. inl (
          subst (Resolves tdb udb pdb adb Q tx ltx enqueue hash lower i c w) h
            (resolve_lem tdb udb pdb adb Q tx ltx enqueue hash lower i c w)))
        (λ k t h. authenticate-CallsBack k t (
          subst (Resolves tdb udb pdb adb Q tx ltx enqueue hash lower i c w) h
            (resolve_lem tdb udb pdb adb Q tx ltx enqueue hash lower i c w)))
