-- ===== src/Articles/Listing/Pages.antt =====
-- What the pages of the listings hold.
use mathlib.Core.List.{Memᴰ}
use realworld_tutorial.Base.{
  ℕ, ◌≤◌, ◌≡◌, refl, ◌↔◌, Bool, true, false, Option, none, some, List, arith, ◌==◌, length, Codes,
  Outcome, ok, err, pure, Each, EachOk, RelatedOk, collect-Each, Each-map, ◌>>=◌,
}
use realworld_tutorial.Base.Prisma.{Delegate, Finds, FindsMany, IsDatabase}
use realworld_tutorial.Base.Prisma.Ordering.{order_by, IsListing, order_by-IsListing}
use realworld_tutorial.Users.{UserRow, user_clash}
use realworld_tutorial.Api.Pagination.{
  Paginated, paginate, build_pagination_meta, pagination_skip, take, drop, or_default, default_page,
  default_limit,
}
use realworld_tutorial.Articles.Tags.{ListArticlesQuery, build_article_filter}
use realworld_tutorial.Articles.Repository.{
  ArticleRow, slug_clash, ArticleRecord, World, article_record, join_author, with_author,
}
use realworld_tutorial.Articles.Service.{ArticleResponse, to_response}
use realworld_tutorial.Articles.Listing.{
  list_where, feed_where, is_newer, join_all, select_page, list_paginated, to_response_list, list,
  feed,
}
use realworld_tutorial.Articles.Listing.Filter.{PassesFilter, IsFed, list_where_iff, feed_where_iff}

abbrev pub IsNewer : ArticleRow → ArticleRow → Type 0
IsNewer q r = r.created_at ≤ q.created_at

older : (q r : ArticleRow) → is_newer q r ≡ true → IsNewer q r
older q r e = ground arith

newer : (q r : ArticleRow) → is_newer q r ≡ false → IsNewer r q
newer q r e = ground arith

older_trans : (p q r : ArticleRow) → IsNewer p q → IsNewer q r → IsNewer p r
older_trans p q r h k = omega arith

module _ (adb : Delegate ArticleRow slug_clash) (udb : Delegate UserRow user_clash)
    (sort : List Codes → List Codes) (url : Codes → Codes) (w : World adb udb) where
  -- The answer for a row, which is joined with the row of its author.
  abbrev pub IsAnswer : Option ℕ → ArticleRow → ArticleResponse → Type 0
  IsAnswer viewer r x =
      (u : UserRow) × Memᴰ u (udb.rows w.users)
      × (u.id ≡ r.author_id)
      × (x ≡ to_response url (article_record sort viewer r u))

  -- A page of the articles with a property.
  pub record IsPage (P : List UserRow → ArticleRow → Type 0)
      (where_clause : List UserRow → ArticleRow → Bool) (viewer : Option ℕ) (page limit : ℕ)
      (out : Paginated ArticleResponse) : Type 0 where
    pub listing : List ArticleRow
    pub lists : IsListing (where_clause (udb.rows w.users)) IsNewer (adb.rows w.articles) listing
    pub means :
        (r : ArticleRow) → (where_clause (udb.rows w.users) r ≡ true) ↔ P (udb.rows w.users) r
    pub answers :
        Each (IsAnswer viewer) (take limit (drop (pagination_skip page limit) listing)) out.data'
    pub meta : out.meta ≡ build_pagination_meta (length listing) page limit

  abbrev pub ListsPage :
      (List UserRow → ArticleRow → Type 0)
      → (List UserRow → ArticleRow → Bool)
      → Option ℕ
      → ℕ
      → ℕ
      → Outcome (Paginated ArticleResponse) × World adb udb
      → Type 0
  ListsPage P where_clause viewer page limit (ok out, v) =
      (v ≡ w) × IsPage P where_clause viewer page limit out
  ListsPage P where_clause viewer page limit (err e, v) = IsDatabase e × (v ≡ w)

  join_author-RelatedOk :
      (viewer : Option ℕ) (r : ArticleRow)
      → RelatedOk
          (λ q x. IsAnswer viewer q (to_response url x))
          IsDatabase
          r
          (join_author adb udb sort viewer r w)
  join_author-RelatedOk viewer r =
      go (udb.find_first (λ u. u.id == r.author_id) w.users)
        (udb.find_first_lem (λ u. u.id == r.author_id) w.users)
    where
      go :
          (x : Outcome (Option UserRow))
          → Finds (λ (u : UserRow). u.id == r.author_id) (udb.rows w.users) x
          → RelatedOk
              (λ q x. IsAnswer viewer q (to_response url x))
              IsDatabase
              r
              (with_author adb udb sort viewer r x)
      go (ok (some u)) (m, e) = (u, m, ground arith, refl)
      go (ok none) f = tt
      go (err y) d = d

  list_paginated-ListsPage :
      (P : List UserRow → ArticleRow → Type 0) (where_clause : List UserRow → ArticleRow → Bool)
      → ((users : List UserRow) (r : ArticleRow) → (where_clause users r ≡ true) ↔ P users r)
      → (viewer : Option ℕ) (page limit : ℕ)
      → ListsPage P where_clause viewer page limit (
          (list_paginated adb udb sort where_clause viewer page limit >>= λ result.
          pure (to_response_list adb udb sort url result))
            w)
  unfolding list_paginated paginate
  list_paginated-ListsPage P where_clause means viewer page limit =
      found (adb.find_many (where_clause (udb.rows w.users)) w.articles)
        (adb.find_many_lem (where_clause (udb.rows w.users)) w.articles)
    where
      joined :
          (rows : List ArticleRow)
          → FindsMany (where_clause (udb.rows w.users)) (adb.rows w.articles) (ok rows)
          → (x : Outcome (List ArticleRecord))
          → EachOk
              (λ q x. IsAnswer viewer q (to_response url x))
              IsDatabase
              (take limit (drop (pagination_skip page limit) (order_by is_newer rows)))
              x
          → ListsPage P where_clause viewer page limit (
              (((λ (_ : World adb udb). (x, w)) >>= λ records. pure (record {
                data' = records;
                meta = build_pagination_meta (length (order_by is_newer rows)) page limit;
              }))
                  >>= λ result. pure (to_response_list adb udb sort url result))
                w)
      joined rows f (ok xs) h = (
        refl,
        record {
          listing = order_by is_newer rows;
          lists =
              order_by-IsListing (where_clause (udb.rows w.users)) IsNewer (adb.rows w.articles)
                is_newer older newer older_trans rows f;
          means = means (udb.rows w.users);
          answers =
              Each-map (IsAnswer viewer) (to_response url)
                (take limit (drop (pagination_skip page limit) (order_by is_newer rows))) xs h;
          meta = refl;
        },
      )
      joined rows f (err e) d = (d, refl)

      found :
          (x : Outcome (List ArticleRow))
          → FindsMany (where_clause (udb.rows w.users)) (adb.rows w.articles) x
          → ListsPage P where_clause viewer page limit (
              (((λ (_ : World adb udb). (x, w)) >>= select_page adb udb sort viewer page limit)
                  >>= λ result. pure (to_response_list adb udb sort url result))
                w)
      found (err e) d = (d, refl)
      found (ok rows) f =
          joined rows f
            (join_all adb udb sort viewer
              (take limit (drop (pagination_skip page limit) (order_by is_newer rows))) w)
            (collect-Each (λ q x. IsAnswer viewer q (to_response url x)) IsDatabase
              (λ r. join_author adb udb sort viewer r w)
              (take limit (drop (pagination_skip page limit) (order_by is_newer rows)))
              (join_author-RelatedOk viewer))

  -- A page of the listing holds, in their order, the answers for the rows of that page of all the
  -- articles that meet each condition of the query, and of the feed for those of all the articles whose
  -- authors the user follows: each such article as often as the table has it, the newest first. The meta
  -- data count all of them, and the page is the first and the limit ten where the query names none. Neither
  -- call changes anything, and what it throws is a failure of the database.
  pub list_feed_lem :
      (lower : Codes → Codes) (query : ListArticlesQuery) (page limit : Option ℕ)
      → ((viewer : Option ℕ)
          → ListsPage
              (PassesFilter (build_article_filter lower query))
              (list_where (build_article_filter lower query))
              viewer
              (or_default page default_page)
              (or_default limit default_limit)
              (list adb udb sort url lower query page limit viewer w))
        × ((user_id : ℕ)
            → ListsPage
                (IsFed user_id)
                (feed_where user_id)
                (some user_id)
                (or_default page default_page)
                (or_default limit default_limit)
                (feed adb udb sort url user_id page limit w))
  unfolding list feed
  list_feed_lem lower query page limit = (
    λ viewer.
        list_paginated-ListsPage (PassesFilter (build_article_filter lower query))
          (list_where (build_article_filter lower query))
          (list_where_iff (build_article_filter lower query)) viewer (or_default page default_page)
          (or_default limit default_limit),
    λ user_id.
        list_paginated-ListsPage (IsFed user_id) (feed_where user_id) (feed_where_iff user_id)
          (some user_id) (or_default page default_page) (or_default limit default_limit),
  )
