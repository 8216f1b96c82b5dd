-- ===== src/Comments.antt =====
-- src/comments: the comments on an article, over the tables of the articles and the users and a table
-- of their own. The times of a write are arguments; the URL of a stored object is a parameter.
pub mod Creation
pub mod Removal
pub mod Listing
mod Tests
use realworld_tutorial.Base.{
  ℕ, ◌≡◌, Bool, true, false, not, ◌&&◌, Option, none, some, List, ltb, length, ◌==◌, if◌then◌else◌,
  Codes, Exception, http, Outcome, ok, err, M, pure, throw, reads, ◌>>=◌, ◌>>◌, lift_fst,
}
use realworld_tutorial.Base.Prisma.{Delegate}
use realworld_tutorial.Users.{UserRow, user_clash}
use realworld_tutorial.Articles.Tags.{map_option}
use realworld_tutorial.Articles.Repository.{
  ArticleRow, slug_clash, World, AuthorRecord, author_record, find_identity_by_slug, inconsistent,
}
use realworld_tutorial.Articles.Service.{article_not_found}

pub record CommentRow : Type 0 where
  pub id : ℕ
  pub created_at : ℕ
  pub updated_at : ℕ
  pub body : Codes
  pub article_id : ℕ
  pub author_id : ℕ

-- The table has no unique key beside its id.
abbrev pub comment_clash : CommentRow → CommentRow → Bool
comment_clash q r = false

pub record CommentRecord : Type 0 where
  pub row : CommentRow
  pub author : AuthorRecord

pub record CommentResponse : Type 0 where
  pub id : ℕ
  pub created_at : ℕ
  pub updated_at : ℕ
  pub body : Codes
  pub author_username : Codes
  pub author_bio : Option Codes
  pub author_image : Option Codes
  pub author_following : Bool

-- `CommentResponseMapper.toResponse`
unfoldable pub comment_response : (Codes → Codes) → CommentRecord → CommentResponse
comment_response url c = record {
  id = c.row.id;
  created_at = c.row.created_at;
  updated_at = c.row.updated_at;
  body = c.row.body;
  author_username = c.author.username;
  author_bio = c.author.bio;
  author_image = map_option url c.author.image;
  author_following = ltb 0 (length c.author.followed_by);
}

abbrev pub comment_not_found : Exception
comment_not_found = http 404 "common.error.commentNotFound"

abbrev pub comment_forbidden : Exception
comment_forbidden = http 403 "common.error.commentForbidden"

-- The `data` of `create`.
unfoldable pub new_comment : ℕ → ℕ → ℕ → Codes → ℕ → CommentRow
new_comment now article_id author_id body id = record {
  id = id;
  created_at = now;
  updated_at = now;
  body = body;
  article_id = article_id;
  author_id = author_id;
}

module _ (adb : Delegate ArticleRow slug_clash) (udb : Delegate UserRow user_clash)
    (cdb : Delegate CommentRow comment_clash) where
  abbrev pub Thread : Type 0
  Thread = World adb udb × cdb.Store

  abbrev pub found_article : Option ArticleRow → M Thread ArticleRow
  found_article none = throw article_not_found
  found_article (some a) = pure a

  unfoldable pub require_article : Codes → M Thread ArticleRow
  unfolding find_identity_by_slug
  require_article slug = do
    found ← lift_fst (find_identity_by_slug adb udb slug)
    found_article found

  unfoldable pub find_comment_identity : ℕ → ℕ → M Thread (Option CommentRow)
  find_comment_identity id article_id =
      reads (λ s. cdb.find_first (λ c. c.id == id && c.article_id == article_id) s.1)

  unfoldable pub delete_comment : ℕ → M Thread (Unit {0})
  delete_comment id s = let (r, t) = (cdb.delete (λ c. c.id == id) >> pure tt) s.1 in (r, (s.0, t))

  -- `buildCommentSelect`
  abbrev pub with_comment_author :
      Option ℕ → CommentRow → Outcome (Option UserRow) → Outcome CommentRecord
  with_comment_author viewer c (ok (some u)) =
      ok (record { row = c; author = author_record viewer u })
  with_comment_author viewer c (ok none) = err inconsistent
  with_comment_author viewer c (err e) = err e

  -- The write and its select are one statement: a select that fails takes the write back.
  abbrev pub commit_comment :
      Thread → cdb.Store → Outcome CommentRecord → Outcome CommentRecord × Thread
  commit_comment s t (ok x) = (ok x, (s.0, t))
  commit_comment s t (err e) = (err e, s)

  abbrev pub finish_comment :
      Thread → Outcome CommentRow × cdb.Store → Outcome CommentRecord × Thread
  finish_comment s (err e, t) = (err e, (s.0, t))
  finish_comment s (ok c, t) =
      commit_comment s t
        (with_comment_author none c (udb.find_first (λ u. u.id == c.author_id) s.0.users))

  unfoldable pub create_comment : ℕ → ℕ → ℕ → Codes → M Thread CommentRecord
  create_comment now article_id author_id body s =
      finish_comment s (cdb.create (new_comment now article_id author_id body) s.1)

  abbrev pub remove_found : ℕ → Option CommentRow → M Thread (Unit {0})
  remove_found user_id none = throw comment_not_found
  remove_found user_id (some c) =
      if not (c.author_id == user_id) then throw comment_forbidden else delete_comment c.id

  unfoldable pub remove_comment : ℕ → Codes → ℕ → M Thread (Unit {0})
  unfolding require_article find_comment_identity delete_comment
  remove_comment user_id slug comment_id = do
    article ← require_article slug
    comment ← find_comment_identity comment_id article.id
    remove_found user_id comment

  unfoldable pub add_comment : (Codes → Codes) → ℕ → ℕ → Codes → Codes → M Thread CommentResponse
  unfolding require_article create_comment comment_response
  add_comment url now user_id slug body = do
    article ← require_article slug
    comment ← create_comment now article.id user_id body
    pure (comment_response url comment)
