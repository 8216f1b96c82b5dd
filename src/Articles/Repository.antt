-- ===== src/Articles/Repository.antt =====
-- src/articles/articles.repository.ts, article-select.ts, articles.constants.ts: the rows of the
-- articles and their queries. The relations `tagList` and `favoritedBy` are lists of the row: the
-- tags' names and the users' ids. The order of the tags in an answer is the database's collation, a
-- parameter. A query that selects relations reads the author in the users' table; a write whose
-- select fails is rolled back.
use realworld_tutorial.Base.{
  if◌then◌else◌, ℕ, Bool, true, not, ◌&&◌, ◌||◌, Option, none, some, List, [], ◌∷◌, ◌++◌, map, ◌==◌,
  keep, length, Codes, codes_eq, starts_with, Exception, error, Outcome, ok, err, M, pure, reads,
  ◌>>=◌, ◌>>◌,
}
use realworld_tutorial.Base.Prisma.{Delegate}
use realworld_tutorial.Users.{UserRow, user_clash}
use realworld_tutorial.Articles.Tags.{set_from, is_defined, any_true}

pub record ArticleRow : Type 0 where
  pub id : ℕ
  pub slug : Codes
  pub title : Codes
  pub description : Codes
  pub body : Codes
  pub created_at : ℕ
  pub updated_at : ℕ
  pub tag_list : List Codes
  pub author_id : ℕ
  pub favorited_by : List ℕ

abbrev pub slug_clash : ArticleRow → ArticleRow → Bool
slug_clash q r = codes_eq q.slug r.slug

pub record AuthorRecord : Type 0 where
  pub username : Codes
  pub bio : Option Codes
  pub image : Option Codes
  pub followed_by : List ℕ

pub record ArticleRecord : Type 0 where
  pub row : ArticleRow
  pub tag_names : List Codes
  pub author : AuthorRecord
  pub favorited_by_viewer : List ℕ
  pub favorites : ℕ

pub record CreateArticleData : Type 0 where
  pub slug : Codes
  pub title : Codes
  pub description : Codes
  pub body : Codes
  pub author_id : ℕ
  pub tags : List Codes

pub record UpdateArticleData : Type 0 where
  pub slug : Option Codes
  pub title : Option Codes
  pub description : Option Codes
  pub body : Option Codes
  pub tags : Option (List Codes)

-- The events of the articles, less the time that each of them carries.
pub data ArticleEvent : Type 0 where
  article_created :
      (article_id : ℕ) (slug title : Codes) (author_id : ℕ) (author_username : Codes) → ArticleEvent
  article_favorited :
      (article_id : ℕ) (slug title : Codes) (author_id user_id : ℕ) (username : Codes)
      → ArticleEvent

-- The `where` of a relation that a viewer filters; nobody is in it for a reader without a session.
abbrev pub seen_by : Option ℕ → List ℕ → List ℕ
seen_by none ids = []
seen_by (some viewer) ids = keep (λ i. i == viewer) ids

abbrev pub author_record : Option ℕ → UserRow → AuthorRecord
author_record viewer u = record {
  username = u.username;
  bio = u.bio;
  image = u.image;
  followed_by = seen_by viewer u.followed_by;
}

-- `buildArticleSelect`
unfoldable pub article_record :
    (List Codes → List Codes) → Option ℕ → ArticleRow → UserRow → ArticleRecord
article_record sort viewer r u = record {
  row = r;
  tag_names = sort r.tag_list;
  author = author_record viewer u;
  favorited_by_viewer = seen_by viewer r.favorited_by;
  favorites = length r.favorited_by;
}

-- A field that `data` leaves out keeps its value.
abbrev pub or_else {ℓ} : {A : Type ℓ} → Option A → A → A
or_else none a = a
or_else (some b) a = b

abbrev pub replace_tags : Option (List Codes) → List Codes → List Codes
replace_tags none old = old
replace_tags (some tags) old = set_from [] tags

-- Prisma sets `@updatedAt` when a column of the row is written.
abbrev pub writes_column : UpdateArticleData → Bool
writes_column data' = any_true (
    is_defined data'.slug
    ∷ is_defined data'.title
    ∷ is_defined data'.description
    ∷ is_defined data'.body
    ∷ [])

unfoldable pub set_article : ℕ → UpdateArticleData → ArticleRow → ArticleRow
set_article now data' r = record r {
  slug = or_else data'.slug r.slug;
  title = or_else data'.title r.title;
  description = or_else data'.description r.description;
  body = or_else data'.body r.body;
  updated_at = if writes_column data' then now else r.updated_at;
  tag_list = replace_tags data'.tags r.tag_list;
}

unfoldable pub new_article : ℕ → CreateArticleData → ℕ → ArticleRow
new_article now data' id = record {
  id = id;
  slug = data'.slug;
  title = data'.title;
  description = data'.description;
  body = data'.body;
  created_at = now;
  updated_at = now;
  tag_list = set_from [] data'.tags;
  author_id = data'.author_id;
  favorited_by = [];
}

abbrev pub not_excluded : Option ℕ → ℕ → Bool
not_excluded none id = true
not_excluded (some excluded) id = not (id == excluded)

unfoldable pub has_base : Codes → Option ℕ → ArticleRow → Bool
has_base base exclude r =
    (codes_eq r.slug base || starts_with (base ++ (b'-' ∷ [])) r.slug) && not_excluded exclude r.id

-- A required relation without its row.
abbrev pub inconsistent : Exception
inconsistent = error "Inconsistent query result"

module _ (adb : Delegate ArticleRow slug_clash) (udb : Delegate UserRow user_clash) where
  -- The tables, and the events that the producer has been given.
  pub record World : Type 0 where
    pub articles : adb.Store
    pub users : udb.Store
    pub events : List ArticleEvent

  abbrev pub on_articles {ℓ} : {A : Type ℓ} → M adb.Store A → M World A
  on_articles m w = let (r, a) = m w.articles in (r, record w { articles = a })

  module _ (sort : List Codes → List Codes) where
    abbrev pub with_author :
        Option ℕ → ArticleRow → Outcome (Option UserRow) → Outcome ArticleRecord
    with_author viewer r (ok (some u)) = ok (article_record sort viewer r u)
    with_author viewer r (ok none) = err inconsistent
    with_author viewer r (err e) = err e

    abbrev pub join_author : Option ℕ → ArticleRow → World → Outcome ArticleRecord
    join_author viewer r w =
        with_author viewer r (udb.find_first (λ u. u.id == r.author_id) w.users)

    abbrev pub commit : World → adb.Store → Outcome ArticleRecord → Outcome ArticleRecord × World
    commit w a (ok x) = (ok x, record w { articles = a })
    commit w a (err e) = (err e, w)

    abbrev pub finish_write :
        Option ℕ → World → Outcome ArticleRow × adb.Store → Outcome ArticleRecord × World
    finish_write viewer w (err e, a) = (err e, record w { articles = a })
    finish_write viewer w (ok r, a) = commit w a (join_author viewer r w)

    abbrev pub write_select : Option ℕ → M adb.Store ArticleRow → M World ArticleRecord
    write_select viewer m w = finish_write viewer w (m w.articles)

    abbrev pub join_found : Option ℕ → Option ArticleRow → M World (Option ArticleRecord)
    join_found viewer none = pure none
    join_found viewer (some r) = do x ← reads (join_author viewer r); pure (some x)

    unfoldable pub find_by_slug : Codes → Option ℕ → M World (Option ArticleRecord)
    find_by_slug slug viewer = do
      found ← reads (λ w. adb.find_first (λ r. codes_eq r.slug slug) w.articles)
      join_found viewer found

    -- `create` and `update` of `ArticlesRepository`
    unfoldable pub create_article : ℕ → CreateArticleData → M World ArticleRecord
    create_article now data' = write_select none (adb.create (new_article now data'))

    unfoldable pub update_article : ℕ → ℕ → UpdateArticleData → Option ℕ → M World ArticleRecord
    update_article now id data' viewer =
        write_select viewer (adb.update (λ r. r.id == id) (set_article now data'))

  unfoldable pub find_identity_by_slug : Codes → M World (Option ArticleRow)
  find_identity_by_slug slug = reads (λ w. adb.find_first (λ r. codes_eq r.slug slug) w.articles)

  unfoldable pub find_slugs_by_base : Codes → Option ℕ → M World (List Codes)
  find_slugs_by_base base exclude = do
    rows ← reads (λ w. adb.find_many (has_base base exclude) w.articles)
    pure (map (λ (r : ArticleRow). r.slug) rows)

  unfoldable pub delete_article : ℕ → M World (Unit {0})
  delete_article id = on_articles (adb.delete (λ r. r.id == id)) >> pure tt
