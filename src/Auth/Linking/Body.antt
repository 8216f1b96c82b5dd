-- ===== src/Auth/Linking/Body.antt =====
-- The body of the transaction of `confirm`, and what it leaves in its local variable.
use mathlib.Core.List.{Memᴰ}
use realworld_tutorial.Base.{
  ℕ, ◌<◌, String, ◌≡◌, refl, sym, ap, subst, ◌⊎◌, inl, inr, Bool, true, false, and_true, Option,
  none, some, arith, ltb, ltb→lt, ◌==◌, str_eq, eq_iff, Bool-cases, Outcome, ok, err, pure, reads,
  ◌>>=◌, ◌>>◌, >>=-cases, >>=-eq-ok, lift_fst, mem-append_one,
}
use realworld_tutorial.Base.Prisma.{Delegate, Finds, Creates}
use realworld_tutorial.Auth.Linking.{
  PendingProviderLinkRow, AuthProviderRow, ProviderIdentifier, Confirmation, confirmed,
  pending_clash, auth_clash, is_valid_token, is_link_of, new_link, identity_of, Tables, on_links,
  find_valid, claim, find_account_by_provider, create_link, link_pending, confirm_pending,
  confirm_body, account_of,
}

module _ (pdb : Delegate PendingProviderLinkRow pending_clash)
    (adb : Delegate AuthProviderRow auth_clash) where
  abbrev pub Raced : Type 0
  Raced = Option (ℕ × ProviderIdentifier)

  -- A pending link of the state that a token confirms at a time.
  pub record Confirmable (token_hash : String) (now : ℕ) (s : Tables pdb adb)
      (p : PendingProviderLinkRow) : Type 0 where
    pub present : Memᴰ p (pdb.rows s.0)
    pub hashed : p.token_hash ≡ token_hash
    pub unexpired : now < p.expires_at

  -- The identity of a pending link belongs to the user who asked for it.
  pub record Linked (p : PendingProviderLinkRow) (s : Tables pdb adb) : Type 0 where
    pub link : AuthProviderRow
    pub present : Memᴰ link (adb.rows s.1)
    pub identity : is_link_of (identity_of p) link ≡ true
    pub owner : link.user_id ≡ p.user_id

  abbrev pub AccountIs : ProviderIdentifier → Tables pdb adb → Option ℕ → Type 0
  AccountIs i s none = Unit
  AccountIs i s (some account) =
      (l : AuthProviderRow) × Memᴰ l (adb.rows s.1)
      × (is_link_of i l ≡ true)
      × (l.user_id ≡ account)

  account-AccountIs :
      (i : ProviderIdentifier) (s : Tables pdb adb) (o : Option AuthProviderRow)
      → Finds (is_link_of i) (adb.rows s.1) (ok o)
      → AccountIs i s (account_of pdb adb o)
  account-AccountIs i s none h = tt
  account-AccountIs i s (some l) (m, e) = (l, m, e, refl)

  -- The account that a query finds is linked to the identity.
  pub find_account-AccountIs :
      (i : ProviderIdentifier) (s : Tables pdb adb) (o : Option ℕ) (t : Tables pdb adb)
      → find_account_by_provider pdb adb i s ≡ (ok o, t)
      → (t ≡ s) × AccountIs i s o
  unfolding find_account_by_provider
  find_account-AccountIs i s o t h =
      let (found, u, e, k) =
        >>=-eq-ok (reads (λ (x : Tables pdb adb). adb.find_first (is_link_of i) x.1))
          (λ link. pure (account_of pdb adb link)) s h in
      let asked : adb.find_first (is_link_of i) s.1 ≡ ok found = cc in
      let law =
        subst (λ (x : Outcome (Option AuthProviderRow)). Finds (is_link_of i) (adb.rows s.1) x)
          asked (adb.find_first_lem (is_link_of i) s.1) in
      let answer : account_of pdb adb found ≡ o = cc in
      ((cc), subst (AccountIs i s) answer (account-AccountIs i s found law))

  create_link-Linked :
      (p : PendingProviderLinkRow) (s : Tables pdb adb) (t : Tables pdb adb)
      → create_link pdb adb p.user_id (identity_of p) s ≡ (ok tt, t)
      → Linked p t
  unfolding create_link
  create_link-Linked p s t h =
      let (row, u, e, k) =
        >>=-eq-ok (on_links pdb adb (adb.create (new_link p.user_id (identity_of p))))
          (λ _. pure tt) s h in
      let made : adb.create (new_link p.user_id (identity_of p)) s.1 ≡ (ok row, t.1) = cc in
      let (i, lo, hi, is, listing, free) =
        subst
          (λ (x : Outcome AuthProviderRow × adb.Store).
            Creates auth_clash (new_link p.user_id (identity_of p)) (adb.next_id s.1) (adb.rows s.1)
              x.0 (adb.next_id x.1) (adb.rows x.1))
          made (adb.create_lem (new_link p.user_id (identity_of p)) s.1) in
      record {
        link = row;
        present = subst (Memᴰ row) (sym listing) (mem-append_one (adb.rows s.1) row);
        identity = rw is (
            ground (
              arith,
              eq_iff p.provider p.provider,
              eq_iff p.provider_account_id p.provider_account_id,
            ));
        owner = ap (λ (l : AuthProviderRow). l.user_id) is;
      }

  -- The local variable is empty, or it names the user and the identity of a pending link.
  abbrev pub Noted : String → ℕ → Tables pdb adb → Raced → Type 0
  Noted token_hash now s raced =
      (raced ≡ none)
      ⊎ ((p : PendingProviderLinkRow) × Confirmable token_hash now s p
          × (raced ≡ some (p.user_id, identity_of p)))

  -- What the body of the transaction has done: if it answers, the identity is linked.
  abbrev pub Body :
      String → ℕ → Tables pdb adb → Outcome Confirmation × (Tables pdb adb × Raced) → Type 0
  Body token_hash now s (ok k, (t, raced)) =
      Noted token_hash now s raced
      × ((p : PendingProviderLinkRow) × Confirmable token_hash now s p × Linked p t)
  Body token_hash now s (err e, (t, raced)) = Noted token_hash now s raced

  pub Body-Noted :
      (token_hash : String) (now : ℕ) (s : Tables pdb adb)
      (x : Outcome Confirmation × (Tables pdb adb × Raced))
      → Body token_hash now s x
      → Noted token_hash now s x.1.1
  Body-Noted token_hash now s (ok k, u) h = h.0
  Body-Noted token_hash now s (err e, u) h = h

  module _ (token_hash : String) (now : ℕ) (s : Tables pdb adb) (p : PendingProviderLinkRow)
      (valid : Confirmable token_hash now s p) where
    created-Body :
        (t : Tables pdb adb)
        → Body token_hash now s (
            (lift_fst (create_link pdb adb p.user_id (identity_of p)) >> pure confirmed)
              (t, some (p.user_id, identity_of p)))
    created-Body t =
        >>=-cases (Body token_hash now s) (lift_fst (create_link pdb adb p.user_id (identity_of p)))
          (λ _. pure confirmed) (t, some (p.user_id, identity_of p)) (λ e u h. inr (p, valid, (cc)))
          (λ _ u h. (inr (p, valid, (cc)), (p, valid, create_link-Linked p t u.0 (cc))))

    linked-Body :
        (claimed : Bool) (o : Option ℕ) (t : Tables pdb adb)
        → AccountIs (identity_of p) t o
        → Body token_hash now s (link_pending pdb adb p claimed o (t, none))
    linked-Body claimed (some account) t (l, m, e, is) = elim (Bool-cases (account == p.user_id)) [
      | inl b ↦ rw b (
        inl refl,
        (p, valid, record { link = l; present = m; identity = e; owner = ground arith }),
      )
      | inr b ↦ rw b (inl refl)
    ]
    linked-Body true none t h = created-Body t
    linked-Body false none t h = inl refl

    found-Body : Body token_hash now s (confirm_pending pdb adb token_hash now (some p) (s, none))
    found-Body =
        >>=-cases (Body token_hash now s) (lift_fst (claim pdb adb p.id token_hash now))
          (λ claimed. lift_fst (find_account_by_provider pdb adb (identity_of p)) >>= λ account.
            link_pending pdb adb p claimed account)
          (s, none) (λ e t h. inl (cc))
          (λ claimed t h.
            >>=-cases (Body token_hash now s)
              (lift_fst (find_account_by_provider pdb adb (identity_of p)))
              (link_pending pdb adb p claimed) t (λ e u k. inl (cc))
              (λ account u k.
                let found : find_account_by_provider pdb adb (identity_of p) t.0
                    ≡ (ok account, u.0) =
                  cc in
                let (stay, is) = find_account-AccountIs (identity_of p) t.0 account u.0 found in
                let unraced : none ≡ u.1 = cc in
                subst
                  (λ (r : Raced).
                    Body token_hash now s (link_pending pdb adb p claimed account (u.0, r)))
                  unraced
                  (linked-Body claimed account u.0
                    (subst (λ z. AccountIs (identity_of p) z account) (sym stay) is))))

  pub confirm_body-Body :
      (token_hash : String) (now : ℕ) (s : Tables pdb adb)
      → Body token_hash now s (confirm_body pdb adb token_hash now (s, none))
  unfolding confirm_body find_valid
  confirm_body-Body token_hash now s =
      go (pdb.find_first (is_valid_token token_hash now) s.0)
        (pdb.find_first_lem (is_valid_token token_hash now) s.0)
    where
      valid :
          (p : PendingProviderLinkRow)
          → Memᴰ p (pdb.rows s.0)
          → is_valid_token token_hash now p ≡ true
          → Confirmable token_hash now s p
      valid p m e =
          let (h, l) = and_true (str_eq p.token_hash token_hash) (ltb now p.expires_at) e in
          record {
            present = m;
            hashed = (eq_iff p.token_hash token_hash).0 h;
            unexpired = ltb→lt now p.expires_at l;
          }

      go :
          (x : Outcome (Option PendingProviderLinkRow))
          → Finds (is_valid_token token_hash now) (pdb.rows s.0) x
          → Body token_hash now s (
              ((λ (_ : Tables pdb adb × Raced). (x, (s, none)))
                  >>= confirm_pending pdb adb token_hash now)
                (s, none))
      go (err e) h = inl refl
      go (ok none) h = inl refl
      go (ok (some p)) (m, e) = found-Body token_hash now s p (valid p m e)
