-- ===== src/Articles/Service.antt =====
-- src/articles/articles.service.ts, article-response.mapper.ts and `createCandidate` of
-- article-slug.service.ts. The times of a write are arguments. `toLowerCase`, `normalize('NFD')`, the
-- order of tags and the URL of a stored object are parameters. A request runs its queries with none
-- of another request in between.
use realworld_tutorial.Base.{
  ℕ, Bool, not, Option, none, some, List, [], ltb, length, append_one, ◌==◌, Codes, codes_eq, trim,
  Exception, http, error, ok, M, pure, throw, throw_if, ◌>>=◌, ◌>>◌, if◌then◌else◌,
}
use realworld_tutorial.Base.Prisma.{Delegate}
use realworld_tutorial.Users.{UserRow, user_clash}
use realworld_tutorial.Articles.Slug.{pick_candidate, to_base_slug, execute}
use realworld_tutorial.Articles.Tags.{
  UpdateArticleDto, has_effective_update, normalize_tags, map_option,
}
use realworld_tutorial.Articles.Repository.{
  ArticleRow, slug_clash, ArticleRecord, CreateArticleData, UpdateArticleData, ArticleEvent,
  article_created, World, find_by_slug, create_article, update_article, find_identity_by_slug,
  find_slugs_by_base, delete_article,
}

pub record CreateArticleDto : Type 0 where
  pub title : Codes
  pub description : Codes
  pub body : Codes
  pub tag_list : Option (List Codes)

pub record ArticleResponse : Type 0 where
  pub slug : Codes
  pub title : Codes
  pub description : Codes
  pub body : Codes
  pub tag_list : List Codes
  pub created_at : ℕ
  pub updated_at : ℕ
  pub favorited : Bool
  pub favorites_count : ℕ
  pub author_username : Codes
  pub author_bio : Option Codes
  pub author_image : Option Codes
  pub author_following : Bool

-- `ArticleResponseMapper.toResponse`
unfoldable pub to_response : (Codes → Codes) → ArticleRecord → ArticleResponse
to_response url a = record {
  slug = a.row.slug;
  title = a.row.title;
  description = a.row.description;
  body = a.row.body;
  tag_list = a.tag_names;
  created_at = a.row.created_at;
  updated_at = a.row.updated_at;
  favorited = ltb 0 (length a.favorited_by_viewer);
  favorites_count = a.favorites;
  author_username = a.author.username;
  author_bio = a.author.bio;
  author_image = map_option url a.author.image;
  author_following = ltb 0 (length a.author.followed_by);
}

abbrev pub article_not_found : Exception
article_not_found = http 404 "common.error.articleNotFound"

abbrev pub article_forbidden : Exception
article_forbidden = http 403 "common.error.articleForbidden"

abbrev pub empty_article_update : Exception
empty_article_update = http 422 "common.error.emptyArticleUpdate"

abbrev pub tags_or_none : Option (List Codes) → List Codes
tags_or_none none = []
tags_or_none (some tags) = tags

abbrev pub normalize_given : (Codes → Codes) → Option (List Codes) → Option (List Codes)
normalize_given lower none = none
normalize_given lower (some tags) = some (normalize_tags lower tags)

-- The `data` of `update`.
unfoldable pub update_data : (Codes → Codes) → UpdateArticleDto → UpdateArticleData
update_data lower dto = record {
  slug = none;
  title = map_option trim dto.title;
  description = map_option trim dto.description;
  body = dto.body;
  tags = normalize_given lower dto.tag_list;
}

-- The `data` of `create`.
abbrev pub new_data : (Codes → Codes) → ℕ → CreateArticleDto → Codes → CreateArticleData
new_data lower user_id dto slug = record {
  slug = slug;
  title = trim dto.title;
  description = trim dto.description;
  body = dto.body;
  author_id = user_id;
  tags = normalize_tags lower (tags_or_none dto.tag_list);
}

module _ (adb : Delegate ArticleRow slug_clash) (udb : Delegate UserRow user_clash) where
  abbrev pub emit : ArticleEvent → M (World adb udb) (Unit {0})
  emit event w = (ok tt, record w { events = append_one w.events event })

  -- The search for a suffix does end: `Articles.Slug.Candidate`.
  abbrev pub picked : Option Codes → M (World adb udb) Codes
  picked none = throw (error "out of fuel")
  picked (some slug) = pure slug

  abbrev pub owned : ℕ → Option ArticleRow → M (World adb udb) ArticleRow
  owned user_id none = throw article_not_found
  owned user_id (some r) = if r.author_id == user_id then pure r else throw article_forbidden

  unfoldable pub require_owned_article : ℕ → Codes → M (World adb udb) ArticleRow
  unfolding find_identity_by_slug
  require_owned_article user_id slug = do
    found ← find_identity_by_slug adb udb slug
    owned user_id found

  unfoldable pub remove : ℕ → Codes → M (World adb udb) (Unit {0})
  unfolding require_owned_article delete_article
  remove user_id slug = do
    identity ← require_owned_article user_id slug
    delete_article adb udb identity.id

  module _ (lower nfd : Codes → Codes) (sort : List Codes → List Codes) (url : Codes → Codes) where
    unfoldable pub create_candidate : Codes → Option ℕ → M (World adb udb) Codes
    unfolding find_slugs_by_base
    create_candidate title exclude = do
      used ← find_slugs_by_base adb udb (to_base_slug lower nfd title) exclude
      picked (pick_candidate used (to_base_slug lower nfd title))

    -- What `create` passes to the slug service.
    abbrev pub write_new : ℕ → ℕ → CreateArticleDto → Codes → M (World adb udb) ArticleRecord
    write_new now user_id dto slug =
        create_article adb udb sort now (new_data lower user_id dto slug)

    abbrev pub created_event : ℕ → ArticleRecord → ArticleEvent
    created_event user_id a =
        article_created a.row.id a.row.slug a.row.title user_id a.author.username

    unfoldable pub create : ℕ → ℕ → CreateArticleDto → M (World adb udb) ArticleResponse
    unfolding create_candidate create_article to_response
    create now user_id dto = do
      article ← execute (create_candidate (trim dto.title) none) (write_new now user_id dto)
      emit (created_event user_id article)
      pure (to_response url article)

    abbrev pub found_response : Option ArticleRecord → M (World adb udb) ArticleResponse
    found_response none = throw article_not_found
    found_response (some a) = pure (to_response url a)

    unfoldable pub get_by_slug : Codes → Option ℕ → M (World adb udb) ArticleResponse
    unfolding find_by_slug
    get_by_slug slug viewer = do found ← find_by_slug adb udb sort slug viewer; found_response found

    -- The write of `update`, with another slug or without.
    abbrev pub write_over :
        ℕ → ℕ → ℕ → UpdateArticleDto → Option Codes → M (World adb udb) ArticleRecord
    write_over now user_id id dto slug =
        update_article adb udb sort now id (record (update_data lower dto) { slug = slug })
          (some user_id)

    -- A title that differs asks for another slug.
    abbrev pub write_update :
        ℕ → ℕ → ArticleRow → UpdateArticleDto → Option Codes → M (World adb udb) ArticleRecord
    write_update now user_id identity dto none = write_over now user_id identity.id dto none
    write_update now user_id identity dto (some title) =
        if not (codes_eq title identity.title)
        then execute (create_candidate title (some identity.id))
            (λ slug. write_over now user_id identity.id dto (some slug))
        else write_over now user_id identity.id dto none

    unfoldable pub update : ℕ → ℕ → Codes → UpdateArticleDto → M (World adb udb) ArticleResponse
    unfolding require_owned_article has_effective_update update_data update_article create_candidate
        to_response
    update now user_id slug dto = do
      identity ← require_owned_article user_id slug
      throw_if (not (has_effective_update dto)) empty_article_update
      article ← write_update now user_id identity dto (map_option trim dto.title)
      pure (to_response url article)
