-- ===== src/Articles/Listing.antt =====
-- The listings of src/articles/articles.service.ts and articles.repository.ts: the articles that a filter
-- lets pass, and those of the authors whom a user follows. `count` and `findMany` of a page read one
-- state, and so do the queries of the articles and the authors.
pub mod Filter
pub mod Pages
use realworld_tutorial.Base.{
  ℕ, Bool, true, ◌&&◌, Option, none, some, List, [], ◌∷◌, map, leb, ◌==◌, some_is, Codes, codes_eq,
  includes, Outcome, M, collect, pure, reads, ◌>>=◌,
}
use realworld_tutorial.Base.Prisma.{Delegate}
use realworld_tutorial.Base.Prisma.Ordering.{order_by}
use realworld_tutorial.Users.{UserRow, user_clash}
use realworld_tutorial.Api.Pagination.{Paginated, paginate, or_default, default_page, default_limit}
use realworld_tutorial.Articles.Tags.{ListArticlesQuery, build_article_filter}
use realworld_tutorial.Articles.Repository.{
  ArticleRow, slug_clash, ArticleRecord, World, join_author,
}
use realworld_tutorial.Articles.Service.{ArticleResponse, to_response}

-- The conditions of `buildListWhere`. An absent one is left out.
abbrev pub has_tag : Option Codes → ArticleRow → Bool
has_tag none r = true
has_tag (some tag) r = includes r.tag_list tag

abbrev pub has_author : List UserRow → Option Codes → ArticleRow → Bool
has_author users none r = true
has_author users (some username) r =
    some_is (λ (u : UserRow). u.id == r.author_id && codes_eq u.username username) users

abbrev pub has_fan : List UserRow → Option Codes → ArticleRow → Bool
has_fan users none r = true
has_fan users (some username) r =
    some_is
      (λ (u : UserRow). codes_eq u.username username && some_is (λ i. i == u.id) r.favorited_by)
      users

abbrev pub list_where : ListArticlesQuery → List UserRow → ArticleRow → Bool
list_where filter users r =
    has_tag filter.tag r && has_author users filter.author r && has_fan users filter.favorited r

-- The `where` of `listFeedPaginated`.
abbrev pub feed_where : ℕ → List UserRow → ArticleRow → Bool
feed_where user_id users r =
    some_is (λ (u : UserRow). u.id == r.author_id && some_is (λ i. i == user_id) u.followed_by)
      users

-- `articleListOrderBy`
abbrev pub is_newer : ArticleRow → ArticleRow → Bool
is_newer q r = leb r.created_at q.created_at

module _ (adb : Delegate ArticleRow slug_clash) (udb : Delegate UserRow user_clash)
    (sort : List Codes → List Codes) where
  abbrev pub join_all : Option ℕ → List ArticleRow → World adb udb → Outcome (List ArticleRecord)
  join_all viewer rs w = collect (λ r. join_author adb udb sort viewer r w) rs

  abbrev pub select_page :
      Option ℕ → ℕ → ℕ → List ArticleRow → M (World adb udb) (Paginated ArticleRecord)
  select_page viewer page limit found = do
    let result = paginate (order_by is_newer found) (some page) (some limit)
    records ← reads (join_all viewer result.data')
    pure (record { data' = records; meta = result.meta })

  -- `paginate` of the articles with a `where`, in the order of the listings.
  unfoldable pub list_paginated :
      (List UserRow → ArticleRow → Bool)
      → Option ℕ
      → ℕ
      → ℕ
      → M (World adb udb) (Paginated ArticleRecord)
  unfolding paginate order_by
  list_paginated where_clause viewer page limit = do
    found ← reads (λ w. adb.find_many (where_clause (udb.rows w.users)) w.articles)
    select_page viewer page limit found

  module _ (url : Codes → Codes) where
    abbrev pub to_response_list : Paginated ArticleRecord → Paginated ArticleResponse
    to_response_list p = record { data' = map (to_response url) p.data'; meta = p.meta }

    unfoldable pub list :
        (Codes → Codes)
        → ListArticlesQuery
        → Option ℕ
        → Option ℕ
        → Option ℕ
        → M (World adb udb) (Paginated ArticleResponse)
    list lower query page limit viewer = do
      result ←
          list_paginated (list_where (build_article_filter lower query)) viewer
            (or_default page default_page) (or_default limit default_limit)
      pure (to_response_list result)

    unfoldable pub feed : ℕ → Option ℕ → Option ℕ → M (World adb udb) (Paginated ArticleResponse)
    feed user_id page limit = do
      result ←
          list_paginated (feed_where user_id) (some user_id) (or_default page default_page)
            (or_default limit default_limit)
      pure (to_response_list result)
