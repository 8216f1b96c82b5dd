-- ===== src/Comments/Creation.antt =====
-- What adding a comment does.
use realworld_tutorial.Base.{
  ℕ, ◌≡◌, refl, sym, ap, ◌∙◌, subst, Option, none, some, append_one, ◌==◌, Codes, Outcome, ok, err,
  M, pure, ◌>>=◌,
}
use realworld_tutorial.Base.Prisma.{Delegate, Creates}
use realworld_tutorial.Users.{UserRow, user_clash}
use realworld_tutorial.Articles.Repository.{ArticleRow, slug_clash, author_record}
use realworld_tutorial.Articles.Frames.{IsAuthor, found-IsAuthor}
use realworld_tutorial.Comments.{
  CommentRow, CommentResponse, comment_clash, comment_response, new_comment, Thread,
  with_comment_author, commit_comment, finish_comment, create_comment, add_comment, require_article,
}
use realworld_tutorial.Comments.Removal.{Article, Required, require_article-Required}

module _ (adb : Delegate ArticleRow slug_clash) (udb : Delegate UserRow user_clash)
    (cdb : Delegate CommentRow comment_clash) (url : Codes → Codes) (now user_id : ℕ)
    (slug body : Codes) (s : Thread adb udb cdb) where
  -- What adding a comment has done when it ends in a certain way.
  abbrev pub AddsComment : Outcome CommentResponse × Thread adb udb cdb → Type 0
  AddsComment (ok resp, t) =
      (a : ArticleRow) × (c : CommentRow) × (u : UserRow) × Article adb udb cdb slug s a
      × IsAuthor adb udb user_id u s.0.users
      × (c ≡ new_comment now a.id user_id body c.id)
      × (cdb.rows t.1 ≡ append_one (cdb.rows s.1) c)
      × (t.0 ≡ s.0)
      × (resp ≡ comment_response url (record { row = c; author = author_record none u }))
  AddsComment (err e, t) = (cdb.rows t.1 ≡ cdb.rows s.1) × (t.0 ≡ s.0)

  created :
      (a : ArticleRow)
      → Article adb udb cdb slug s a
      → (x : Outcome CommentRow × cdb.Store)
      → Creates comment_clash
          (new_comment now a.id user_id body)
          (cdb.next_id s.1)
          (cdb.rows s.1)
          x.0
          (cdb.next_id x.1)
          (cdb.rows x.1)
      → AddsComment (
          ((λ (_ : Thread adb udb cdb). finish_comment adb udb cdb s x) >>= λ c.
          pure (comment_response url c))
            s)
  unfolding new_comment
  created a on (err e, t) (d, le, left) = (left, refl)
  created a on (ok c, t) (i, lo, hi, is, listing, free) =
      joined (udb.find_first (λ u. u.id == c.author_id) s.0.users) refl
    where
      joined :
          (j : Outcome (Option UserRow))
          → udb.find_first (λ u. u.id == c.author_id) s.0.users ≡ j
          → AddsComment (
              ((λ (_ : Thread adb udb cdb).
                    commit_comment adb udb cdb s t (with_comment_author adb udb cdb none c j))
                  >>= λ c. pure (comment_response url c))
                s)
      joined (err e) f = (refl, refl)
      joined (ok none) f = (refl, refl)
      joined (ok (some u)) f =
          let numbered : c.id ≡ i = ap (λ (r : CommentRow). r.id) is in
          (
            a,
            c,
            u,
            on,
            subst (λ id. IsAuthor adb udb id u s.0.users) (ap (λ (r : CommentRow). r.author_id) is)
                (found-IsAuthor adb udb c.author_id u s.0.users f),
            is ∙ ap (new_comment now a.id user_id body) (sym numbered),
            listing,
            refl,
            refl,
          )

  -- A comment that is added stands behind the others, on the article that the slug names, under the
  -- user's id and with the given text, and the answer describes it, with the user as its author; a call that throws has added
  -- nothing. The articles and the users are as they were.
  pub add_comment_lem : AddsComment (add_comment adb udb cdb url now user_id slug body s)
  unfolding add_comment create_comment
  add_comment_lem =
      go (require_article adb udb cdb slug s) (require_article-Required adb udb cdb slug s)
    where
      rest : ArticleRow → M (Thread adb udb cdb) CommentResponse
      rest a =
          create_comment adb udb cdb now a.id user_id body >>= λ c. pure (comment_response url c)

      go :
          (x : Outcome ArticleRow × Thread adb udb cdb)
          → Required adb udb cdb slug s x
          → AddsComment (((λ (_ : Thread adb udb cdb). x) >>= rest) s)
      go (err e, t) (h, why) =
          (ap (λ (z : Thread adb udb cdb). cdb.rows z.1) h, ap (λ (z : Thread adb udb cdb). z.0) h)
      go (ok a, t) (h, on) =
          subst (λ z. AddsComment (rest a z)) (sym h)
            (created a on (cdb.create (new_comment now a.id user_id body) s.1)
              (cdb.create_lem (new_comment now a.id user_id body) s.1))
