-- ===== src/Articles/Removal.antt =====
-- What `remove` of the articles does to the tables, on every outcome.
use realworld_tutorial.Base.{
  ℕ, ◌≡◌, refl, sym, subst, not, Codes, Outcome, ok, err, ◌>>=◌, ◌==◌, keep, pure,
}
use realworld_tutorial.Base.Prisma.{Delegate, DeletesOne}
use realworld_tutorial.Users.{UserRow, user_clash}
use realworld_tutorial.Articles.Repository.{ArticleRow, slug_clash, World, delete_article}
use realworld_tutorial.Articles.Service.{require_owned_article, remove}
use realworld_tutorial.Articles.Frames.{Unwritten, Unwritten-eq}
use realworld_tutorial.Articles.Owner.{
  Owned, require_owned_article-Owned, require_owned_article-Silent,
}

module _ (adb : Delegate ArticleRow slug_clash) (udb : Delegate UserRow user_clash) where
  -- What a removal that ends in a certain way has done.
  abbrev pub Removes : ℕ → Codes → World adb udb → Outcome (Unit {0}) → World adb udb → Type 0
  Removes user_id slug w (ok _) v =
      (r : ArticleRow) × Owned adb udb user_id slug w r
      × (adb.rows v.articles ≡ keep (λ q. not (q.id == r.id)) (adb.rows w.articles))
      × (v.users ≡ w.users)
  Removes user_id slug w (err e) v = Unwritten adb udb w v

  delete-Removes :
      (user_id : ℕ) (slug : Codes) (w : World adb udb) (r : ArticleRow)
      → Owned adb udb user_id slug w r
      → (x : Outcome ArticleRow) (a : adb.Store)
      → DeletesOne (λ q. q.id == r.id) (adb.rows w.articles) x (adb.rows a)
      → (let y = ((λ (_ : World adb udb). (x, record w { articles = a })) >>= λ _. pure tt) w in
          Removes user_id slug w y.0 y.1)
  delete-Removes user_id slug w r own (ok q) a (m, e, is) = (r, own, is, refl)
  delete-Removes user_id slug w r own (err e) a (d, is) = record {
    same_rows = is;
    same_users = refl;
    same_events = refl;
  }

  -- A removal that answers has deleted the row that the slug names, which was the user's, and no row
  -- with another id; a removal that throws has changed nothing.
  pub remove_lem :
      (user_id : ℕ) (slug : Codes) (w : World adb udb)
      → Removes user_id slug w (remove adb udb user_id slug w).0 (remove adb udb user_id slug w).1
  unfolding remove delete_article
  remove_lem user_id slug w = go (require_owned_article adb udb user_id slug w) refl
    where
      go :
          (x : Outcome ArticleRow × World adb udb)
          → require_owned_article adb udb user_id slug w ≡ x
          → (let y = ((λ (_ : World adb udb). x) >>= λ r. delete_article adb udb r.id) w in
              Removes user_id slug w y.0 y.1)
      go (err e, v) h = Unwritten-eq adb udb w v (
          subst (λ (x : Outcome ArticleRow × World adb udb). x.1 ≡ w) h
            (require_owned_article-Silent adb udb user_id slug w))
      go (ok r, v) h =
          let (own, stay) = require_owned_article-Owned adb udb user_id slug w r v h in
          subst (λ u. (let y = delete_article adb udb r.id u in Removes user_id slug w y.0 y.1))
            (sym stay)
            (delete-Removes user_id slug w r own (adb.delete (λ q. q.id == r.id) w.articles).0
              (adb.delete (λ q. q.id == r.id) w.articles).1
              (adb.delete_lem (λ q. q.id == r.id) w.articles).0)
