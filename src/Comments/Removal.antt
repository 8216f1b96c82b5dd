-- ===== src/Comments/Removal.antt =====
-- Whose comments a user can remove, and what a removal leaves alone.
use mathlib.Core.List.{Memᴰ}
use realworld_tutorial.Base.{
  ℕ, ◌≡◌, refl, sym, ap, subst, ◌⊎◌, inl, inr, false, All-mem, Exception, not, ◌&&◌, and_true,
  Option, none, some, arith, ◌==◌, keep, Bool-cases, Codes, codes_eq, codes_eq_iff, Outcome, ok,
  err, pure, ◌>>=◌, ◌>>◌,
}
use realworld_tutorial.Base.Prisma.{Delegate, Finds, DeletesOne, IsDatabase}
use realworld_tutorial.Users.{UserRow, user_clash}
use realworld_tutorial.Articles.Repository.{ArticleRow, slug_clash, find_identity_by_slug}
use realworld_tutorial.Articles.Service.{article_not_found}
use realworld_tutorial.Comments.{
  CommentRow, comment_clash, Thread, found_article, require_article, find_comment_identity,
  delete_comment, remove_found, remove_comment,
}

module _ (adb : Delegate ArticleRow slug_clash) (udb : Delegate UserRow user_clash)
    (cdb : Delegate CommentRow comment_clash) where
  -- The article that a slug names.
  pub record Article (slug : Codes) (s : Thread adb udb cdb) (a : ArticleRow) : Type 0 where
    pub present : Memᴰ a (adb.rows s.0.articles)
    pub named : a.slug ≡ slug

  -- Why no article was found: the database failed, or no article has the slug.
  abbrev pub Missing : Codes → Thread adb udb cdb → Exception → Type 0
  Missing slug s e =
      IsDatabase e ⊎ ((e ≡ article_not_found) × ((a : ArticleRow) → Article slug s a → ⊥))

  abbrev pub Required :
      Codes → Thread adb udb cdb → Outcome ArticleRow × Thread adb udb cdb → Type 0
  Required slug s (ok a, t) = (t ≡ s) × Article slug s a
  Required slug s (err e, t) = (t ≡ s) × Missing slug s e

  pub require_article-Required :
      (slug : Codes) (s : Thread adb udb cdb) → Required slug s (require_article adb udb cdb slug s)
  unfolding require_article find_identity_by_slug
  require_article-Required slug s =
      go (adb.find_first (λ r. codes_eq r.slug slug) s.0.articles)
        (adb.find_first_lem (λ r. codes_eq r.slug slug) s.0.articles)
    where
      missing : (a : ArticleRow) → Article slug s a → codes_eq a.slug slug ≡ false → ⊥
      missing a on e = let f = (codes_eq_iff a.slug slug).1 on.named in absurd (cc)

      go :
          (x : Outcome (Option ArticleRow))
          → Finds (λ r. codes_eq r.slug slug) (adb.rows s.0.articles) x
          → Required slug s (((λ (_ : Thread adb udb cdb). (x, s)) >>= found_article adb udb cdb) s)
      go (err e) h = (refl, inl h)
      go (ok none) h = (
        refl,
        inr (
          refl,
          λ a on.
              missing a on (
                All-mem (λ r. codes_eq r.slug slug ≡ false) (adb.rows s.0.articles) a h on.present),
        ),
      )
      go (ok (some a)) (m, e) =
          (refl, record { present = m; named = (codes_eq_iff a.slug slug).0 e })

  module _ (user_id : ℕ) (slug : Codes) (comment_id : ℕ) (s : Thread adb udb cdb) where
    -- The comment that a request may remove: it is on the article that the slug names, and it is the
    -- user's.
    pub record Removable (c : CommentRow) : Type 0 where
      pub article : ArticleRow
      pub on_article : Article slug s article
      pub present : Memᴰ c (cdb.rows s.1)
      pub requested : c.id ≡ comment_id
      pub same_article : c.article_id ≡ article.id
      pub mine : c.author_id ≡ user_id

    -- What a removal that ends in a certain way has done.
    abbrev pub RemovesComment : Outcome (Unit {0}) × Thread adb udb cdb → Type 0
    RemovesComment (ok _, t) =
        (c : CommentRow) × Removable c
        × (cdb.rows t.1 ≡ keep (λ d. not (d.id == c.id)) (cdb.rows s.1))
        × (t.0 ≡ s.0)
    RemovesComment (err e, t) = (cdb.rows t.1 ≡ cdb.rows s.1) × (t.0 ≡ s.0)

    deleted : (c : CommentRow) → Removable c → RemovesComment (delete_comment adb udb cdb c.id s)
    unfolding delete_comment
    deleted c may =
        go (cdb.delete (λ d. d.id == c.id) s.1) ((cdb.delete_lem (λ d. d.id == c.id) s.1).0)
      where
        go :
            (x : Outcome CommentRow × cdb.Store)
            → DeletesOne (λ d. d.id == c.id) (cdb.rows s.1) x.0 (cdb.rows x.1)
            → (let y = ((λ (_ : cdb.Store). x) >> pure tt) s.1 in RemovesComment (y.0, (s.0, y.1)))
        go (ok d, t) (m, e, left) = (c, may, left, refl)
        go (err e, t) (d, left) = (left, refl)

    judged :
        (a : ArticleRow)
        → Article slug s a
        → (x : Outcome (Option CommentRow))
        → Finds (λ c. c.id == comment_id && c.article_id == a.id) (cdb.rows s.1) x
        → RemovesComment
            (((λ (_ : Thread adb udb cdb). (x, s)) >>= remove_found adb udb cdb user_id) s)
    judged a on (err e) h = (refl, refl)
    judged a on (ok none) h = (refl, refl)
    judged a on (ok (some c)) (m, e) = elim (Bool-cases (c.author_id == user_id)) [
      | inr b ↦ rw b (refl, refl)
      | inl b ↦
          let (is, there) = and_true (c.id == comment_id) (c.article_id == a.id) e in
          rw b (
            deleted c (record {
              article = a;
              on_article = on;
              present = m;
              requested = ground arith;
              same_article = ground arith;
              mine = ground arith;
            }))
    ]

    -- A removal that answers has deleted a comment of the user's own, the one with the given id on the
    -- article that the slug names, and no comment with another id; a removal that throws has deleted
    -- nothing. The articles and the users are as they were.
    pub remove_comment_lem : RemovesComment (remove_comment adb udb cdb user_id slug comment_id s)
    unfolding remove_comment find_comment_identity
    remove_comment_lem = go (require_article adb udb cdb slug s) (require_article-Required slug s)
      where
        rest : ArticleRow → Thread adb udb cdb → Outcome (Unit {0}) × Thread adb udb cdb
        rest a =
            find_comment_identity adb udb cdb comment_id a.id >>= remove_found adb udb cdb user_id

        go :
            (x : Outcome ArticleRow × Thread adb udb cdb)
            → Required slug s x
            → RemovesComment (((λ (_ : Thread adb udb cdb). x) >>= rest) s)
        go (err e, t) (h, why) = (
          ap (λ (z : Thread adb udb cdb). cdb.rows z.1) h,
          ap (λ (z : Thread adb udb cdb). z.0) h,
        )
        go (ok a, t) (h, on) =
            subst (λ z. RemovesComment (rest a z)) (sym h)
              (judged a on (cdb.find_first (λ c. c.id == comment_id && c.article_id == a.id) s.1)
                (cdb.find_first_lem (λ c. c.id == comment_id && c.article_id == a.id) s.1))
