-- ===== src/Comments/Listing.antt =====
-- `list` of src/comments/comments.service.ts, with `listByArticleId` of comments.repository.ts.
use mathlib.Core.List.{Memᴰ}
use realworld_tutorial.Base.{
  ℕ, ◌≤◌, ◌<◌, ◌≡◌, refl, sym, subst, ◌⊎◌, inl, Bool, true, false, ◌&&◌, ◌||◌, Option, none, some,
  List, map, arith, ltb, leb, ◌==◌, Codes, Outcome, ok, err, M, pure, reads, ◌>>=◌, collect, Each,
  EachOk, RelatedOk, collect-Each, Each-map,
}
use realworld_tutorial.Base.Prisma.{Delegate, Finds, FindsMany, IsDatabase}
use realworld_tutorial.Base.Prisma.Ordering.{order_by, IsListing, order_by-IsListing}
use realworld_tutorial.Users.{UserRow, user_clash}
use realworld_tutorial.Articles.Repository.{ArticleRow, slug_clash, author_record}
use realworld_tutorial.Comments.{
  CommentRow, CommentRecord, CommentResponse, comment_clash, comment_response, Thread,
  with_comment_author, require_article,
}
use realworld_tutorial.Comments.Removal.{Article, Missing, Required, require_article-Required}

-- `[{ createdAt: 'desc' }, { id: 'desc' }]`
abbrev pub is_later : CommentRow → CommentRow → Bool
is_later b c = ltb c.created_at b.created_at || (c.created_at == b.created_at && leb c.id b.id)

abbrev pub IsLater : CommentRow → CommentRow → Type 0
IsLater b c = (c.created_at < b.created_at) ⊎ ((c.created_at ≡ b.created_at) × (c.id ≤ b.id))

is_later-IsLater : (b c : CommentRow) → is_later b c ≡ true → IsLater b c
is_later-IsLater b c e = ground arith

not-IsLater : (b c : CommentRow) → is_later b c ≡ false → IsLater c b
not-IsLater b c e = ground arith

IsLater-trans : (b c d : CommentRow) → IsLater b c → IsLater c d → IsLater b d
IsLater-trans b c d h k = omega arith

module _ (adb : Delegate ArticleRow slug_clash) (udb : Delegate UserRow user_clash)
    (cdb : Delegate CommentRow comment_clash) where
  abbrev pub select_comments :
      Option ℕ → List CommentRow → Thread adb udb cdb → Outcome (List CommentRecord)
  select_comments viewer rows s =
      collect
        (λ (c : CommentRow).
          with_comment_author adb udb cdb viewer c
            (udb.find_first (λ u. u.id == c.author_id) s.0.users))
        rows

  unfoldable pub list_by_article_id : ℕ → Option ℕ → M (Thread adb udb cdb) (List CommentRecord)
  unfolding order_by
  list_by_article_id article_id viewer = do
    found ← reads (λ s. cdb.find_many (λ c. c.article_id == article_id) s.1)
    reads (select_comments viewer (order_by is_later found))

  unfoldable pub list_comments :
      (Codes → Codes) → Codes → Option ℕ → M (Thread adb udb cdb) (List CommentResponse)
  list_comments url slug viewer = do
    article ← require_article adb udb cdb slug
    comments ← list_by_article_id article.id viewer
    pure (map (comment_response url) comments)

  module _ (url : Codes → Codes) (viewer : Option ℕ) (s : Thread adb udb cdb) where
    abbrev pub IsCommentAnswer : CommentRow → CommentResponse → Type 0
    IsCommentAnswer c x =
        (u : UserRow) × Memᴰ u (udb.rows s.0.users)
        × (u.id ≡ c.author_id)
        × (x ≡ comment_response url (record { row = c; author = author_record viewer u }))

    -- What a listing that ends in a certain way has answered.
    abbrev pub ListsComments : Codes → Outcome (List CommentResponse) × Thread adb udb cdb → Type 0
    ListsComments slug (ok out, t) =
        (a : ArticleRow) × (listing : List CommentRow) × (t ≡ s)
        × Article adb udb cdb slug s a
        × IsListing (λ (c : CommentRow). c.article_id == a.id) IsLater (cdb.rows s.1) listing
        × Each IsCommentAnswer listing out
    ListsComments slug (err e, t) = (t ≡ s) × Missing adb udb cdb slug s e

    selects :
        (c : CommentRow)
        → RelatedOk
            (λ d x. IsCommentAnswer d (comment_response url x))
            IsDatabase
            c
            (with_comment_author adb udb cdb viewer c
              (udb.find_first (λ u. u.id == c.author_id) s.0.users))
    selects c =
        go (udb.find_first (λ u. u.id == c.author_id) s.0.users)
          (udb.find_first_lem (λ u. u.id == c.author_id) s.0.users)
      where
        go :
            (x : Outcome (Option UserRow))
            → Finds (λ (u : UserRow). u.id == c.author_id) (udb.rows s.0.users) x
            → RelatedOk
                (λ d x. IsCommentAnswer d (comment_response url x))
                IsDatabase
                c
                (with_comment_author adb udb cdb viewer c x)
        go (ok (some u)) (m, e) = (u, m, ground arith, refl)
        go (ok none) f = tt
        go (err y) d = d

    listed :
        (slug : Codes) (a : ArticleRow)
        → Article adb udb cdb slug s a
        → ListsComments slug
            ((list_by_article_id a.id viewer >>= λ cs. pure (map (comment_response url) cs)) s)
    unfolding list_by_article_id
    listed slug a on =
        go (cdb.find_many (λ c. c.article_id == a.id) s.1)
          (cdb.find_many_lem (λ c. c.article_id == a.id) s.1)
      where
        answered :
            (rows : List CommentRow)
            → FindsMany (λ (c : CommentRow). c.article_id == a.id) (cdb.rows s.1) (ok rows)
            → (x : Outcome (List CommentRecord))
            → EachOk
                (λ d x. IsCommentAnswer d (comment_response url x))
                IsDatabase
                (order_by is_later rows)
                x
            → ListsComments slug (
                ((λ (_ : Thread adb udb cdb). (x, s)) >>= λ cs.
                pure (map (comment_response url) cs))
                  s)
        answered rows f (ok xs) h = (
          a,
          order_by is_later rows,
          refl,
          on,
          order_by-IsListing (λ (c : CommentRow). c.article_id == a.id) IsLater (cdb.rows s.1)
              is_later is_later-IsLater not-IsLater IsLater-trans rows f,
          Each-map IsCommentAnswer (comment_response url) (order_by is_later rows) xs h,
        )
        answered rows f (err e) d = (refl, inl d)

        go :
            (x : Outcome (List CommentRow))
            → FindsMany (λ (c : CommentRow). c.article_id == a.id) (cdb.rows s.1) x
            → ListsComments slug (
                (((λ (_ : Thread adb udb cdb). (x, s)) >>= λ found.
                reads (select_comments viewer (order_by is_later found)))
                    >>= λ cs. pure (map (comment_response url) cs))
                  s)
        go (err e) d = (refl, inl d)
        go (ok rows) f = answered rows f (select_comments viewer (order_by is_later rows) s) (
            collect-Each (λ d x. IsCommentAnswer d (comment_response url x)) IsDatabase
              (λ (c : CommentRow).
                with_comment_author adb udb cdb viewer c
                  (udb.find_first (λ u. u.id == c.author_id) s.0.users))
              (order_by is_later rows) selects)

    -- A listing that answers describes the comments on the article that the slug names, each of them
    -- once for each time that the table has it, the newest first and the greater id first among those
    -- of one time; each answer is that of its comment with its author. A listing throws where the database
    -- fails, and the 404 where no article has the slug. No listing changes anything.
    pub list_comments_lem : (slug : Codes) → ListsComments slug (list_comments url slug viewer s)
    unfolding list_comments
    list_comments_lem slug =
        go (require_article adb udb cdb slug s) (require_article-Required adb udb cdb slug s)
      where
        rest : ArticleRow → M (Thread adb udb cdb) (List CommentResponse)
        rest a = list_by_article_id a.id viewer >>= λ cs. pure (map (comment_response url) cs)

        go :
            (x : Outcome ArticleRow × Thread adb udb cdb)
            → Required adb udb cdb slug s x
            → ListsComments slug (((λ (_ : Thread adb udb cdb). x) >>= rest) s)
        go (err e, t) h = h
        go (ok a, t) (h, on) = subst (λ z. ListsComments slug (rest a z)) (sym h) (listed slug a on)
