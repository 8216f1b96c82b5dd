-- ===== src/Articles/Spares.antt =====
-- What a user's requests do to the articles of others.
use mathlib.Core.List.{Memᴰ}
use realworld_tutorial.Base.{
  ℕ, ◌≡◌, refl, sym, ap, ◌∙◌, subst, ◌≢◌, inl, inr, false, not, List, Codes, Outcome, ok, err, ◌==◌,
  arith, map, mem-keep, mem-map, Bool-cases,
}
use realworld_tutorial.Base.Prisma.{Delegate, patch}
use realworld_tutorial.Users.{UserRow, user_clash}
use realworld_tutorial.Articles.Tags.{UpdateArticleDto}
use realworld_tutorial.Articles.Repository.{ArticleRow, slug_clash, World, set_article}
use realworld_tutorial.Articles.Service.{remove, update, update_data, ArticleResponse}
use realworld_tutorial.Articles.Owner.{Owned}
use realworld_tutorial.Articles.Removal.{Removes, remove_lem}
use realworld_tutorial.Articles.Update.{Changes, update_lem}

-- Ids are a key.
abbrev pub IsKeyed : List ArticleRow → Type 0
IsKeyed rows = (q r : ArticleRow) → Memᴰ q rows → Memᴰ r rows → q.id ≡ r.id → q ≡ r

module _ (adb : Delegate ArticleRow slug_clash) (udb : Delegate UserRow user_clash) where
  other_id :
      (user_id : ℕ) (slug : Codes) (w : World adb udb) (r q : ArticleRow)
      → IsKeyed (adb.rows w.articles)
      → Owned adb udb user_id slug w r
      → Memᴰ q (adb.rows w.articles)
      → q.author_id ≢ user_id
      → (q.id == r.id) ≡ false
  other_id user_id slug w r q keyed own m n = elim (Bool-cases (q.id == r.id)) [
    | inr b ↦ b
    | inl b ↦
        let same : q.id ≡ r.id = ground arith in
        absurd (n (ap (λ (x : ArticleRow). x.author_id) (keyed q r m own.present same) ∙ own.mine))
  ]

  -- An article of another user is as it was after a removal, however it ends, if ids are a key.
  pub remove_spares :
      (user_id : ℕ) (slug : Codes) (w : World adb udb) (q : ArticleRow)
      → IsKeyed (adb.rows w.articles)
      → Memᴰ q (adb.rows w.articles)
      → q.author_id ≢ user_id
      → Memᴰ q (adb.rows (remove adb udb user_id slug w).1.articles)
  remove_spares user_id slug w q keyed m n =
      go (remove adb udb user_id slug w).0 (remove adb udb user_id slug w).1
        (remove_lem adb udb user_id slug w)
    where
      go :
          (x : Outcome (Unit {0})) (v : World adb udb)
          → Removes adb udb user_id slug w x v
          → Memᴰ q (adb.rows v.articles)
      go (ok _) v (r, own, listing, _) = subst (Memᴰ q) (sym listing) (
          mem-keep (λ p. not (p.id == r.id)) (adb.rows w.articles) q m
            (ap not (other_id user_id slug w r q keyed own m n)))
      go (err e) v h = subst (Memᴰ q) (sym h.same_rows) m

  module _ (lower nfd : Codes → Codes) (sort : List Codes → List Codes) (url : Codes → Codes) where
    -- An article of another user is as it was after an update, however it ends, if ids are a key.
    pub update_spares :
        (now user_id : ℕ) (slug : Codes) (dto : UpdateArticleDto) (w : World adb udb)
        (q : ArticleRow)
        → IsKeyed (adb.rows w.articles)
        → Memᴰ q (adb.rows w.articles)
        → q.author_id ≢ user_id
        → Memᴰ q (adb.rows (update adb udb lower nfd sort url now user_id slug dto w).1.articles)
    update_spares now user_id slug dto w q keyed m n =
        go (update adb udb lower nfd sort url now user_id slug dto w).0
          (update adb udb lower nfd sort url now user_id slug dto w).1
          (update_lem adb udb lower nfd sort url now user_id slug dto w)
      where
        unpatched :
            (r : ArticleRow) (f : ArticleRow → ArticleRow)
            → (q.id == r.id) ≡ false
            → patch (λ p. p.id == r.id) f q ≡ q
        unpatched r f e = rw e refl

        go :
            (x : Outcome ArticleResponse) (v : World adb udb)
            → Changes adb udb lower nfd sort url now user_id slug dto w x v
            → Memᴰ q (adb.rows v.articles)
        go (ok resp) v (r, x, own, some_field, (new_slug, listing, _, _), _) =
            let set_it = set_article now (record (update_data lower dto) { slug = new_slug }) in
            subst (Memᴰ q) (sym listing) (
              subst (λ p. Memᴰ p (map (patch (λ p. p.id == r.id) set_it) (adb.rows w.articles)))
                (unpatched r set_it (other_id user_id slug w r q keyed own m n))
                (mem-map (patch (λ p. p.id == r.id) set_it) (adb.rows w.articles) q m))
        go (err e) v h = subst (Memᴰ q) (sym h.same_rows) m
