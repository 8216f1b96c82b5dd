-- ===== src/Auth/Linking/Issue.antt =====
-- What issuing a pending link does to the tables, on every outcome.
use mathlib.Core.List.{Memᴰ}
use realworld_tutorial.Base.{
  ℕ, ◌+◌, ◌≤◌, ◌≡◌, refl, sym, ap, ◌∙◌, subst, inl, inr, true, not, Option, none, some, List, [],
  ◌∷◌, arith, ltb, Bool-cases, Exception, Outcome, ok, err, pure, reads, catch_with, ◌>>=◌,
  >>=-cases, >>=-eq-ok, lift_fst, lift_fst-eq, append_one, keep,
}
use realworld_tutorial.Base.Prisma.{Delegate, Transactor, FindsMany, Creates, Deletes}
use realworld_tutorial.Base.Prisma.Commits.{transact-eq-ok, transact-eq-err}
use realworld_tutorial.Auth.Linking.{
  PendingProviderLinkRow, AuthProviderRow, IssueInput, IssueResult, issued, cooldown, pending_clash,
  auth_clash, is_same_link, newest, later_of, new_pending, issued_result, is_unique_violation,
  resend_cooldown_ms, Tables, SameRows, find_existing, replace_pending, cooldown_or_throw,
  recover_issue, issue_anew, issue_unless_recent, issue,
}

-- The newest of some rows is one of them, and none of them is younger.
abbrev IsNewest : List PendingProviderLinkRow → Option PendingProviderLinkRow → Type 0
IsNewest rs none = rs ≡ []
IsNewest rs (some r) =
    Memᴰ r rs × ((q : PendingProviderLinkRow) → Memᴰ q rs → q.created_at ≤ r.created_at)

later_of-IsNewest :
    (r : PendingProviderLinkRow) (rs : List PendingProviderLinkRow)
    (o : Option PendingProviderLinkRow)
    → IsNewest rs o
    → IsNewest (r ∷ rs) (later_of r o)
later_of-IsNewest r rs none h = (Memᴰ.head refl, alone)
  where
    alone : (q : PendingProviderLinkRow) → Memᴰ q (r ∷ rs) → q.created_at ≤ r.created_at
    alone q (Memᴰ.head e) = rw e (omega arith)
    alone q (Memᴰ.tail m) = elim (subst (Memᴰ q) h m) [ ]
later_of-IsNewest r rs (some q) (m, le) = elim (Bool-cases (ltb r.created_at q.created_at)) [
  | inl b ↦ rw b (Memᴰ.tail m, older q (ground arith) le)
  | inr b ↦ rw b (Memᴰ.head refl, older r (omega arith) (λ p n. ground (arith, le p n)))
]
  where
    older :
        (x : PendingProviderLinkRow)
        → r.created_at ≤ x.created_at
        → ((p : PendingProviderLinkRow) → Memᴰ p rs → p.created_at ≤ x.created_at)
        → (p : PendingProviderLinkRow) → Memᴰ p (r ∷ rs)
        → p.created_at ≤ x.created_at
    older x k f p (Memᴰ.head e) = rw e k
    older x k f p (Memᴰ.tail n) = f p n

newest-IsNewest : (rs : List PendingProviderLinkRow) → IsNewest rs (newest rs)
newest-IsNewest [] = refl
newest-IsNewest (r ∷ rs) = later_of-IsNewest r rs (newest rs) (newest-IsNewest rs)

module _ (pdb : Delegate PendingProviderLinkRow pending_clash)
    (adb : Delegate AuthProviderRow auth_clash) where
  -- The pending links in the way of a new one are as old as this one, or older.
  abbrev Latest : IssueInput → Tables pdb adb → Option PendingProviderLinkRow → Type 0
  Latest i s none =
      (q : PendingProviderLinkRow) → Memᴰ q (pdb.rows s.0) → is_same_link i q ≡ true → ⊥
  Latest i s (some r) =
      Memᴰ r (pdb.rows s.0)
      × (is_same_link i r ≡ true)
      × ((q : PendingProviderLinkRow)
          → Memᴰ q (pdb.rows s.0)
          → is_same_link i q ≡ true
          → q.created_at ≤ r.created_at)

  found-Latest :
      (i : IssueInput) (s : Tables pdb adb) (rs : List PendingProviderLinkRow)
      (o : Option PendingProviderLinkRow)
      → FindsMany (is_same_link i) (pdb.rows s.0) (ok rs)
      → IsNewest rs o
      → Latest i s o
  found-Latest i s rs none f h = λ q m e. elim (subst (Memᴰ q) h ((f.1 q).1 (m, e))) [ ]
  found-Latest i s rs (some r) f (m, le) =
      (((f.1 r).0 m).0, ((f.1 r).0 m).1, λ q n e. le q ((f.1 q).1 (n, e)))

  find_existing-Latest :
      (i : IssueInput) (s : Tables pdb adb) (o : Option PendingProviderLinkRow) (t : Tables pdb adb)
      → find_existing pdb adb i s ≡ (ok o, t)
      → (t ≡ s) × Latest i s o
  unfolding find_existing
  find_existing-Latest i s o t h =
      let (rs, u, e, k) =
        >>=-eq-ok (reads (λ (x : Tables pdb adb). pdb.find_many (is_same_link i) x.0))
          (λ rs. pure (newest rs)) s h in
      let asked : pdb.find_many (is_same_link i) s.0 ≡ ok rs = cc in
      let answer : newest rs ≡ o = cc in
      (
        (cc),
        subst (Latest i s) answer (
            found-Latest i s rs (newest rs)
              (subst
                (λ (x : Outcome (List PendingProviderLinkRow)).
                  FindsMany (is_same_link i) (pdb.rows s.0) x)
                asked (pdb.find_many_lem (is_same_link i) s.0))
              (newest-IsNewest rs)),
      )

  find_existing-Silent : (i : IssueInput) (s : Tables pdb adb) → (find_existing pdb adb i s).1 ≡ s
  unfolding find_existing
  find_existing-Silent i s =
      >>=-cases (λ x. x.1 ≡ s) (reads (λ (x : Tables pdb adb). pdb.find_many (is_same_link i) x.0))
        (λ rs. pure (newest rs)) s (λ e t h. cc) (λ rs t h. cc)

  SameRows-eq : (s t : Tables pdb adb) → t ≡ s → SameRows pdb adb s t
  SameRows-eq s t e = subst (SameRows pdb adb s) (sym e) (refl, refl)

  SameRows-trans :
      (s t u : Tables pdb adb) → SameRows pdb adb s t → SameRows pdb adb t u → SameRows pdb adb s u
  SameRows-trans s t u (p, q) (p', q') = (p' ∙ p, q' ∙ q)

  -- What a call that ends in a certain way has done.
  abbrev pub Issues : IssueInput → Tables pdb adb → Outcome IssueResult × Tables pdb adb → Type 0
  Issues i s (ok (issued id token_hash expires_at), t) =
      (pdb.rows t.0
        ≡ append_one (keep (λ r. not (is_same_link i r)) (pdb.rows s.0)) (new_pending i id))
      × (t.1 ≡ s.1)
      × (token_hash ≡ i.token_hash)
      × (expires_at ≡ i.expires_at)
  Issues i s (ok (cooldown id), t) =
      SameRows pdb adb s t
      × ((r : PendingProviderLinkRow) × Memᴰ r (pdb.rows s.0)
          × (is_same_link i r ≡ true)
          × (r.id ≡ id))
  Issues i s (err e, t) = SameRows pdb adb s t

  replace_pending-Issues :
      (i : IssueInput) (s : Tables pdb adb) (k : IssueResult) (t : Tables pdb adb)
      → replace_pending pdb adb i s ≡ (ok k, t)
      → Issues i s (ok k, t)
  unfolding replace_pending
  replace_pending-Issues i s k t h =
      let (n, u, e, rest) =
        >>=-eq-ok (lift_fst (pdb.delete_many (is_same_link i)))
          (λ _. lift_fst (pdb.create (new_pending i)) >>= λ row. pure (issued_result row)) s h in
      let (row, v, made, last) =
        >>=-eq-ok (lift_fst (pdb.create (new_pending i))) (λ row. pure (issued_result row)) u
          rest in
      let (deleted, still) = lift_fst-eq (pdb.delete_many (is_same_link i)) s (ok n) u e in
      let (created, same) = lift_fst-eq (pdb.create (new_pending i)) u (ok row) v made in
      let (count, left) =
        subst
          (λ (x : Outcome ℕ × pdb.Store).
            Deletes (is_same_link i) (pdb.rows s.0) x.0 (pdb.rows x.1))
          deleted (pdb.delete_many_lem (is_same_link i) s.0).0 in
      let (j, lo, hi, is, listing, free) =
        subst
          (λ (x : Outcome PendingProviderLinkRow × pdb.Store).
            Creates pending_clash (new_pending i) (pdb.next_id u.0) (pdb.rows u.0) x.0
              (pdb.next_id x.1) (pdb.rows x.1))
          created (pdb.create_lem (new_pending i) u.0) in
      let answer : issued_result row ≡ k = cc in
      let state : v ≡ t = cc in
      let links : v.1 ≡ s.1 = same ∙ still in
      let numbered : j ≡ row.id = sym (ap (λ (r : PendingProviderLinkRow). r.id) is) in
      subst (λ z. Issues i s (ok k, z)) state
        (subst (λ (z : IssueResult). Issues i s (ok z, v)) answer
          (
            listing
                ∙ ap (λ rs. append_one rs row) left
                ∙ ap (append_one (keep (λ r. not (is_same_link i r)) (pdb.rows s.0)))
                    (is ∙ ap (new_pending i) numbered),
            links,
            ap (λ (r : PendingProviderLinkRow). r.token_hash) is,
            ap (λ (r : PendingProviderLinkRow). r.expires_at) is,
          ))

  module _ (tx : Transactor (Tables pdb adb) (SameRows pdb adb)) (i : IssueInput)
      (s : Tables pdb adb) where
    recover_issue-Issues :
        (e : Exception) (t : Tables pdb adb)
        → SameRows pdb adb s t
        → Issues i s (recover_issue pdb adb i e t)
    recover_issue-Issues e t same = elim (Bool-cases (is_unique_violation e)) [
      | inr b ↦ rw b same
      | inl b ↦ rw b (
          >>=-cases (Issues i s) (find_existing pdb adb i) (cooldown_or_throw pdb adb e) t
            (λ x u h. SameRows-trans s t u same (SameRows-eq t u (moved x u h)))
            (λ o u h.
              let (stay, latest) = find_existing-Latest i t o u h in
              after o u (SameRows-trans s t u same (SameRows-eq t u stay)) latest))
    ]
      where
        moved :
            (x : Exception) (u : Tables pdb adb) → find_existing pdb adb i t ≡ (err x, u) → u ≡ t
        moved x u h =
            subst (λ (y : Outcome (Option PendingProviderLinkRow) × Tables pdb adb). y.1 ≡ t) h
              (find_existing-Silent i t)

        after :
            (o : Option PendingProviderLinkRow) (u : Tables pdb adb)
            → SameRows pdb adb s u
            → Latest i t o
            → Issues i s (cooldown_or_throw pdb adb e o u)
        after none u h l = h
        after (some r) u h (m, is, _) = (h, (r, subst (Memᴰ r) same.0 m, is, refl))

    issue_anew-Issues : Issues i s (issue_anew pdb adb tx i s)
    issue_anew-Issues =
        go (tx.transact (Unit {0}) IssueResult (lift_fst (replace_pending pdb adb i)) (s, tt)) refl
      where
        go :
            (x : Outcome IssueResult × (Tables pdb adb × Unit {0}))
            → tx.transact (Unit {0}) IssueResult (lift_fst (replace_pending pdb adb i)) (s, tt) ≡ x
            → Issues i s
                (catch_with (λ (_ : Tables pdb adb). (x.0, x.1.0)) (recover_issue pdb adb i) s)
        go (ok k, (t, _)) e =
            let ran = transact-eq-ok tx (lift_fst (replace_pending pdb adb i)) s tt k (t, tt) e in
            replace_pending-Issues i s k t (cc)
        go (err x, (t, _)) e =
            let (same, local, cause) =
              transact-eq-err tx (lift_fst (replace_pending pdb adb i)) s tt x (t, tt) e in
            recover_issue-Issues x t same

    -- What a call has done, and that it issues nothing while one of the links in the way is recent.
    abbrev pub IssuesCooled : Outcome IssueResult × Tables pdb adb → Type 0
    IssuesCooled (ok (issued id token_hash expires_at), t) =
        Issues i s (ok (issued id token_hash expires_at), t)
        × ((q : PendingProviderLinkRow)
            → Memᴰ q (pdb.rows s.0)
            → is_same_link i q ≡ true
            → q.created_at + resend_cooldown_ms ≤ i.now)
    IssuesCooled (ok (cooldown id), t) = Issues i s (ok (cooldown id), t)
    IssuesCooled (err e, t) = Issues i s (err e, t)

    cooled :
        (x : Outcome IssueResult × Tables pdb adb)
        → ((q : PendingProviderLinkRow)
            → Memᴰ q (pdb.rows s.0)
            → is_same_link i q ≡ true
            → q.created_at + resend_cooldown_ms ≤ i.now)
        → Issues i s x
        → IssuesCooled x
    cooled (ok (issued id token_hash expires_at), t) f h = (h, f)
    cooled (ok (cooldown id), t) f h = h
    cooled (err e, t) f h = h

    unless_recent :
        (o : Option PendingProviderLinkRow)
        → Latest i s o
        → IssuesCooled (issue_unless_recent pdb adb tx i o s)
    unless_recent none l =
        cooled (issue_anew pdb adb tx i s) (λ q m e. absurd (l q m e)) issue_anew-Issues
    unless_recent (some r) (m, is, le) =
        elim (Bool-cases (ltb i.now (r.created_at + resend_cooldown_ms))) [
          | inl b ↦ rw b ((refl, refl), (r, m, is, refl))
          | inr b ↦ rw b (
              cooled (issue_anew pdb adb tx i s) (λ q n e. ground (arith, le q n e))
                issue_anew-Issues)
        ]

    -- A call that issues has removed the pending links for the same account of the provider or for
    -- the same user and provider, all of them at least a minute old, and has added the new one; a
    -- call that answers with a cool-down has found one of them and changed no row; a call that throws
    -- has changed no row. The links to accounts are as they were.
    pub issue_lem : IssuesCooled (issue pdb adb tx i s)
    unfolding issue
    issue_lem =
        >>=-cases IssuesCooled (find_existing pdb adb i) (issue_unless_recent pdb adb tx i) s
          (λ e t h. SameRows-eq s t (
            subst (λ (y : Outcome (Option PendingProviderLinkRow) × Tables pdb adb). y.1 ≡ s) h
              (find_existing-Silent i s)))
          (λ o t h.
            let (stay, latest) = find_existing-Latest i s o t h in
            subst (λ z. IssuesCooled (issue_unless_recent pdb adb tx i o z)) (sym stay)
              (unless_recent o latest))
