-- ===== src/Auth/Linking/Confirm.antt =====
-- What the confirmation of a pending link does, on every outcome.
use mathlib.Core.List.{Memᴰ}
use realworld_tutorial.Base.{
  ℕ, String, ◌≡◌, refl, sym, ap, ◌∙◌, subst, inl, inr, Option, none, some, arith, ◌==◌, str_eq,
  Bool-cases, Exception, Outcome, ok, err, M, throw, ◌>>=◌, >>=-eq-ok,
}
use realworld_tutorial.Base.Prisma.{Delegate, Transactor}
use realworld_tutorial.Base.Prisma.Commits.{transact-eq-ok, transact-eq-err}
use realworld_tutorial.Auth.Linking.{
  PendingProviderLinkRow, AuthProviderRow, Confirmation, pending_clash, auth_clash, identity_of,
  is_unique_violation, Tables, SameRows, find_account_by_provider, confirm_body, judge,
  settle_confirm, confirm, provider_link_conflict, invalid_link_token,
}
use realworld_tutorial.Auth.Linking.Body.{
  Raced, Confirmable, Linked, AccountIs, find_account-AccountIs, Noted, Body, Body-Noted,
  confirm_body-Body,
}

module _ (pdb : Delegate PendingProviderLinkRow pending_clash)
    (adb : Delegate AuthProviderRow auth_clash) where
  module _ (tx : Transactor (Tables pdb adb) (SameRows pdb adb)) (hash : String → String)
      (meanwhile : Tables pdb adb → Tables pdb adb)
      (keeps : (s : Tables pdb adb) (l : AuthProviderRow)
        → Memᴰ l (adb.rows s.1)
        → Memᴰ l (adb.rows (meanwhile s).1)) where
    meanwhile-Linked :
        (p : PendingProviderLinkRow) (s : Tables pdb adb)
        → Linked pdb adb p s
        → Linked pdb adb p (meanwhile s)
    meanwhile-Linked p s h = record {
      link = h.link;
      present = keeps s h.link h.present;
      identity = h.identity;
      owner = h.owner;
    }

    judge-Linked :
        (p : PendingProviderLinkRow) (o : Option ℕ) (s : Tables pdb adb) (k : Confirmation)
        (t : Tables pdb adb)
        → AccountIs pdb adb (identity_of p) s o
        → judge pdb adb p.user_id o s ≡ (ok k, t)
        → Linked pdb adb p t
    judge-Linked p none s k t h e = cc
    judge-Linked p (some account) s k t (l, m, is, own) e =
        elim (Bool-cases (account == p.user_id)) [
          | inl b ↦
              let same : account ≡ p.user_id = ground arith in
              subst (Linked pdb adb p)
                (ap (λ (x : Outcome Confirmation × Tables pdb adb). x.1) (rw b at e))
                (record { link = l; present = m; identity = is; owner = own ∙ same })
          | inr b ↦ absurd (refused (rw b at e))
        ]
      where
        refused : throw {A = Confirmation} provider_link_conflict s ≡ (ok k, t) → ⊥
        refused q = cc

    settle-Linked :
        (p : PendingProviderLinkRow) (e : Exception) (s : Tables pdb adb) (k : Confirmation)
        (t : Tables pdb adb)
        → settle_confirm pdb adb (err e) (some (p.user_id, identity_of p)) s ≡ (ok k, t)
        → Linked pdb adb p t
    settle-Linked p e s k t h = elim (Bool-cases (is_unique_violation e)) [
      | inl b ↦ found (rw b at h)
      | inr b ↦ absurd (rethrown (rw b at h))
    ]
      where
        found :
            (find_account_by_provider pdb adb (identity_of p) >>= judge pdb adb p.user_id) s
              ≡ (ok k, t)
            → Linked pdb adb p t
        found q =
            let (o, u, f, j) =
              >>=-eq-ok (find_account_by_provider pdb adb (identity_of p)) (judge pdb adb p.user_id)
                s q in
            let (stay, is) = find_account-AccountIs pdb adb (identity_of p) s o u f in
            judge-Linked p o u k t
              (subst (λ z. AccountIs pdb adb (identity_of p) z o) (sym stay) is) j

        rethrown : throw {A = Confirmation} e s ≡ (ok k, t) → ⊥
        rethrown q = cc

    -- A confirmation that answers, whatever other requests do as long as they remove no link: its
    -- token names a pending link that had not expired, and afterwards the identity of that pending
    -- link is linked to the user who had asked for it.
    pub confirm_links :
        (raw_token : String) (now : ℕ) (s : Tables pdb adb) (k : Confirmation) (t : Tables pdb adb)
        → confirm pdb adb tx hash meanwhile raw_token now s ≡ (ok k, t)
        → (p : PendingProviderLinkRow) × Confirmable pdb adb (hash raw_token) now s p
          × Linked pdb adb p t
    unfolding confirm
    confirm_links raw_token now s k t h = elim (Bool-cases (str_eq raw_token "")) [
      | inl b ↦ absurd (empty (rw b at h))
      | inr b ↦ go (tx.transact (Raced pdb adb) Confirmation body (s, none)) refl (rw b at h)
    ]
      where
        body : M (Tables pdb adb × Raced pdb adb) Confirmation
        body = confirm_body pdb adb (hash raw_token) now

        empty : (throw {A = Confirmation} invalid_link_token s) ≡ (ok k, t) → ⊥
        empty q = cc

        raced :
            (e : Exception) (u : Tables pdb adb) (l : Raced pdb adb)
            → Noted pdb adb (hash raw_token) now s l
            → settle_confirm pdb adb (err e) l u ≡ (ok k, t)
            → (p : PendingProviderLinkRow) × Confirmable pdb adb (hash raw_token) now s p
              × Linked pdb adb p t
        raced e u none noted q = cc
        raced e u (some x) (inl n) q = cc
        raced e u (some x) (inr (p, valid, is)) q = (
          p,
          valid,
          settle-Linked p e u k t
              (subst (λ (z : Raced pdb adb). settle_confirm pdb adb (err e) z u ≡ (ok k, t)) is q),
        )

        go :
            (r : Outcome Confirmation × (Tables pdb adb × Raced pdb adb))
            → tx.transact (Raced pdb adb) Confirmation body (s, none) ≡ r
            → settle_confirm pdb adb r.0 r.1.1 (meanwhile r.1.0) ≡ (ok k, t)
            → (p : PendingProviderLinkRow) × Confirmable pdb adb (hash raw_token) now s p
              × Linked pdb adb p t
        go (ok c, (u, l)) e q =
            let ran = transact-eq-ok tx body s none c (u, l) e in
            let (noted, (p, valid, linked)) =
              subst (Body pdb adb (hash raw_token) now s) ran
                (confirm_body-Body pdb adb (hash raw_token) now s) in
            (
              p,
              valid,
              subst (Linked pdb adb p) (ap (λ (y : Outcome Confirmation × Tables pdb adb). y.1) q)
                  (meanwhile-Linked p u linked),
            )
        go (err e, (u, l)) eq q =
            let (same, local, cause) = transact-eq-err tx body s none e (u, l) eq in
            raced e (meanwhile u) l
              (subst (Noted pdb adb (hash raw_token) now s) (sym local) (
                Body-Noted pdb adb (hash raw_token) now s (body (s, none))
                  (confirm_body-Body pdb adb (hash raw_token) now s)))
              q
