-- ===== src/Articles/Owner.antt =====
-- Who may change an article, and what a change to an article leaves alone.
use mathlib.Core.List.{Memᴰ}
use realworld_tutorial.Base.{
  ℕ, ◌≡◌, refl, ap, ◌∙◌, subst, inl, inr, true, Option, none, some, Codes, codes_eq, codes_eq_iff,
  Outcome, ok, >>=-eq-ok, ◌==◌, arith, Bool-cases, throw, pure,
}
use realworld_tutorial.Base.Prisma.{Delegate, Finds}
use realworld_tutorial.Users.{UserRow, user_clash}
use realworld_tutorial.Articles.Repository.{ArticleRow, slug_clash, World, find_identity_by_slug}
use realworld_tutorial.Articles.Service.{require_owned_article, owned, article_forbidden}
use realworld_tutorial.Articles.Frames.{Silent, Silent-bind}

module _ (adb : Delegate ArticleRow slug_clash) (udb : Delegate UserRow user_clash) where
  -- The row that a request may change: the slug names it and it is the user's.
  pub record Owned (user_id : ℕ) (slug : Codes) (w : World adb udb) (r : ArticleRow) : Type 0 where
    pub present : Memᴰ r (adb.rows w.articles)
    pub named : r.slug ≡ slug
    pub mine : r.author_id ≡ user_id

  owned-ok :
      (user_id : ℕ) (o : Option ArticleRow) (w : World adb udb) (r : ArticleRow) (v : World adb udb)
      → owned adb udb user_id o w ≡ (ok r, v)
      → (o ≡ some r) × (v ≡ w) × (r.author_id ≡ user_id)
  owned-ok user_id none w r v h = cc
  owned-ok user_id (some q) w r v h = elim (Bool-cases (q.author_id == user_id)) [
    | inl b ↦ mine b (rw b at h)
    | inr b ↦ absurd (not_mine (rw b at h))
  ]
    where
      mine :
          (q.author_id == user_id) ≡ true
          → pure q w ≡ (ok r, v)
          → (some q ≡ some r) × (v ≡ w) × (r.author_id ≡ user_id)
      mine b h' =
          let same : q ≡ r = cc in (cc, cc, subst (λ x. x.author_id ≡ user_id) same (ground arith))

      not_mine : throw {A = ArticleRow} article_forbidden w ≡ (ok r, v) → ⊥
      not_mine h' = cc

  owned-Silent : (user_id : ℕ) (o : Option ArticleRow) → Silent adb udb (owned adb udb user_id o)
  owned-Silent user_id none w = refl
  owned-Silent user_id (some q) w = elim (Bool-cases (q.author_id == user_id)) [
    | inl b ↦ rw b refl
    | inr b ↦ rw b refl
  ]

  pub require_owned_article-Silent :
      (user_id : ℕ) (slug : Codes) → Silent adb udb (require_owned_article adb udb user_id slug)
  unfolding require_owned_article find_identity_by_slug
  require_owned_article-Silent user_id slug =
      Silent-bind adb udb (find_identity_by_slug adb udb slug) (owned adb udb user_id) (λ w. refl)
        (owned-Silent user_id)

  pub require_owned_article-Owned :
      (user_id : ℕ) (slug : Codes) (w : World adb udb) (r : ArticleRow) (v : World adb udb)
      → require_owned_article adb udb user_id slug w ≡ (ok r, v)
      → Owned user_id slug w r × (v ≡ w)
  unfolding require_owned_article find_identity_by_slug
  require_owned_article-Owned user_id slug w r v h =
      let (found, u, e, k) =
        >>=-eq-ok (find_identity_by_slug adb udb slug) (owned adb udb user_id) w h in
      let asked : adb.find_first (λ q. codes_eq q.slug slug) w.articles ≡ ok found = cc in
      let unmoved : u ≡ w = cc in
      let (is, stay, mine) = owned-ok user_id found u r v k in
      let (m, n) =
        subst
          (λ (x : Outcome (Option ArticleRow)).
            Finds (λ q. codes_eq q.slug slug) (adb.rows w.articles) x)
          (asked ∙ ap ok is) (adb.find_first_lem (λ q. codes_eq q.slug slug) w.articles) in
      (record { present = m; named = (codes_eq_iff r.slug slug).0 n; mine = mine }, stay ∙ unmoved)
