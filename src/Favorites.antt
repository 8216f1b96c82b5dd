-- ===== src/Favorites.antt =====
-- src/favorites: marking articles as favorites, over the articles' state. `Promise.all` starts the write
-- and the reading of the user side by side, and neither sees what the other does: here the write comes
-- first. Writing a relation leaves `updatedAt` as it is.
pub mod Edges
pub mod Marking
pub mod Unmarking
mod Tests
use realworld_tutorial.Base.{
  ℕ, ◌≡◌, Bool, true, false, not, Option, none, some, List, [], ◌∷◌, ◌++◌, ltb, ◌==◌, keep, some_is,
  length, append_one, if◌then◌else◌, Codes, codes, codes_eq, str_eq, Exception, http, prisma, error,
  Outcome, ok, err, M, pure, throw, reads, catch_with, ◌>>=◌, ◌>>◌,
}
use realworld_tutorial.Base.Decimal.{decimal}
use realworld_tutorial.Base.Prisma.{Delegate}
use realworld_tutorial.Users.{UserRow, user_clash}
use realworld_tutorial.Articles.Repository.{
  ArticleRow, slug_clash, ArticleRecord, ArticleEvent, article_favorited, World, find_by_slug,
  write_select,
}
use realworld_tutorial.Articles.Service.{ArticleResponse, to_response, article_not_found, emit}

-- `connect` and `disconnect`
abbrev pub connect_fan : ℕ → ArticleRow → ArticleRow
connect_fan id r = record r {
  favorited_by =
      if some_is (λ i. i == id) r.favorited_by
      then r.favorited_by
      else append_one r.favorited_by id;
}

abbrev pub disconnect_fan : ℕ → ArticleRow → ArticleRow
disconnect_fan id r = record r { favorited_by = keep (λ i. not (i == id)) r.favorited_by }

abbrev pub is_collision : Exception → Bool
is_collision (prisma code target) = str_eq code "P2002"
is_collision (http code message) = false
is_collision (error message) = false

-- `actor?.username ?? `user-${userId}``
abbrev pub actor_name : ℕ → Option UserRow → Codes
actor_name user_id none = codes "user-" ++ decimal user_id
actor_name user_id (some u) = u.username

abbrev pub favorited_event : ℕ → ArticleRecord → Option UserRow → ArticleEvent
favorited_event user_id x actor =
    article_favorited x.row.id x.row.slug x.row.title x.row.author_id user_id
      (actor_name user_id actor)

-- `article.favoritedBy.length > 0`
abbrev pub is_favorite : ArticleRecord → Bool
is_favorite x = ltb 0 (length x.favorited_by_viewer)

module _ (adb : Delegate ArticleRow slug_clash) (udb : Delegate UserRow user_clash)
    (sort : List Codes → List Codes) (url : Codes → Codes) where
  unfoldable pub connect : Codes → ℕ → M (World adb udb) ArticleRecord
  connect slug viewer =
      write_select adb udb sort (some viewer)
        (adb.update (λ r. codes_eq r.slug slug) (connect_fan viewer))

  unfoldable pub disconnect : Codes → ℕ → M (World adb udb) ArticleRecord
  disconnect slug viewer =
      write_select adb udb sort (some viewer)
        (adb.update (λ r. codes_eq r.slug slug) (disconnect_fan viewer))

  abbrev pub found_record : Option ArticleRecord → M (World adb udb) ArticleRecord
  found_record none = throw article_not_found
  found_record (some x) = pure x

  unfoldable pub require_viewed : ℕ → Codes → M (World adb udb) ArticleRecord
  unfolding find_by_slug
  require_viewed user_id slug = do
    found ← find_by_slug adb udb sort slug (some user_id)
    found_record found

  -- `write`: a collision means that another request has written the same edge.
  abbrev pub write_edge :
      ℕ → Codes → M (World adb udb) ArticleRecord → M (World adb udb) ArticleRecord
  write_edge user_id slug mutate =
      catch_with mutate (λ e. if is_collision e then require_viewed user_id slug else throw e)

  abbrev pub announce : ℕ → ArticleRecord → M (World adb udb) ArticleResponse
  announce user_id x = do
    actor ← reads (λ w. udb.find_first (λ u. u.id == user_id) w.users)
    emit adb udb (favorited_event user_id x actor)
    pure (to_response url x)

  abbrev pub favorite_unless : ℕ → Codes → ArticleRecord → M (World adb udb) ArticleResponse
  favorite_unless user_id slug x =
      if is_favorite x
      then pure (to_response url x)
      else (write_edge user_id slug (connect slug user_id) >>= announce user_id)

  unfoldable pub favorite : ℕ → Codes → M (World adb udb) ArticleResponse
  unfolding require_viewed connect to_response
  favorite user_id slug = do
    article ← require_viewed user_id slug
    favorite_unless user_id slug article

  abbrev pub unfavorite_if : ℕ → Codes → ArticleRecord → M (World adb udb) ArticleResponse
  unfavorite_if user_id slug x =
      if not (is_favorite x)
      then pure (to_response url x)
      else (write_edge user_id slug (disconnect slug user_id) >>= λ y. pure (to_response url y))

  unfoldable pub unfavorite : ℕ → Codes → M (World adb udb) ArticleResponse
  unfolding require_viewed disconnect to_response
  unfavorite user_id slug = do
    article ← require_viewed user_id slug
    unfavorite_if user_id slug article
