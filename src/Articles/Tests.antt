-- ===== src/Articles/Tests.antt =====
-- Slugs, tags and the service of the articles on tables in memory: runs, and the theorems at concrete
-- inputs.
use mathlib.Core.List.{Memᴰ}
use realworld_tutorial.Base.{
  Option, ℕ, ◌≡◌, refl, ◌≢◌, ◌↔◌, true, false, none, some, List, [], ◌∷◌, arith, Codes, codes,
  includes, M, ok, err, ap, sym, ◌==◌, if◌then◌else◌, ◌∙◌, suc, String, prisma, fields,
}
use realworld_tutorial.Base.Decimal.{decimal}
use realworld_tutorial.Base.Prisma.{Delegate}
use realworld_tutorial.Base.Prisma.Memory.{memory}
use realworld_tutorial.Users.{UserRow, user_clash}
use realworld_tutorial.Articles.Slug.{to_base_slug, pick_candidate, execute}
use realworld_tutorial.Articles.Slug.Shape.{is_slug, to_base_slug-is_slug}
use realworld_tutorial.Articles.Slug.Candidate.{Picked, pick_candidate_lem}
use realworld_tutorial.Articles.Slug.Retry.{Attempts, execute-Attempts}
use realworld_tutorial.Articles.Tags.{
  ListArticlesQuery, build_article_filter, UpdateArticleDto, Distinct, normalize_tag,
  normalize_tags, is_truthy, normalize_tags_lem,
}
use realworld_tutorial.Articles.Repository.{ArticleRow, slug_clash, World}
use realworld_tutorial.Articles.Listing.{list, feed, list_where, feed_where}
use realworld_tutorial.Articles.Listing.Filter.{PassesFilter, IsFed}
use realworld_tutorial.Articles.Listing.Pages.{ListsPage, list_feed_lem}
use realworld_tutorial.Api.Pagination.{or_default, default_page, default_limit}
use realworld_tutorial.Articles.Service.{CreateArticleDto, create, update, remove}
use realworld_tutorial.Articles.Removal.{Removes, remove_lem}
use realworld_tutorial.Articles.Creation.{Adds, create_lem}
use realworld_tutorial.Articles.Update.{Changes, update_lem}
use realworld_tutorial.Articles.Spares.{IsKeyed, update_spares}

-- Any functions will do for the parameters.
abbrev same : Codes → Codes
same s = s

abbrev order : List Codes → List Codes
order tags = tags

abbrev title : Codes
title = codes " realworld: the tutorial! "

slug_of_title : to_base_slug same same title ≡ codes "realworld-the-tutorial"
unfolding to_base_slug
slug_of_title = refl

to_base_slug-is_slug_example : is_slug (to_base_slug same same title) ≡ true
to_base_slug-is_slug_example = to_base_slug-is_slug same same title

abbrev used : List Codes
used = codes "a" ∷ codes "a-2" ∷ codes "a-4" ∷ []

third : pick_candidate used (codes "a") ≡ some (codes "a-3")
unfolding pick_candidate decimal
third = refl

pick_candidate_lem_example :
    (c : Codes) × (pick_candidate used (codes "a") ≡ some c)
    × (includes used c ≡ false)
    × Picked used (codes "a") c
pick_candidate_lem_example = pick_candidate_lem used (codes "a")

-- Each attempt draws another slug, and the first one is taken in the meantime.
abbrev draw : M ℕ Codes
draw n = (ok (codes "a"), suc n)

abbrev store : Codes → M ℕ ℕ
store slug n = if n == 1 then (err (prisma "P2002" (fields ("slug" ∷ []))), n) else (ok n, n)

execute-Attempts_example : Attempts draw store 3 0 (execute draw store 0).0 (execute draw store 0).1
execute-Attempts_example = execute-Attempts draw store 0

abbrev given_tags : List Codes
given_tags = codes " api" ∷ codes "api" ∷ codes "  " ∷ []

one_tag : normalize_tags same given_tags ≡ (codes "api" ∷ [])
unfolding normalize_tags
one_tag = refl

normalize_tags_lem_example :
    Distinct (normalize_tags same given_tags)
    × ((t : Codes)
        → Memᴰ t (normalize_tags same given_tags) ↔ (
            ((raw : Codes) × Memᴰ raw given_tags × (t ≡ normalize_tag same raw))
            × (is_truthy t ≡ true)))
normalize_tags_lem_example = normalize_tags_lem same given_tags

abbrev adb : Delegate ArticleRow slug_clash
adb = memory slug_clash

abbrev udb : Delegate UserRow user_clash
udb = memory user_clash

abbrev user : ℕ → String → UserRow
user id name = record {
  id = id;
  email = codes name;
  username = codes name;
  password = none;
  image = none;
  bio = none;
  followed_by = [];
}

abbrev article : ℕ → String → ℕ → ArticleRow
article id slug author_id = record {
  id = id;
  slug = codes slug;
  title = codes slug;
  description = [];
  body = [];
  created_at = 5;
  updated_at = 5;
  tag_list = [];
  author_id = author_id;
  favorited_by = [];
}

abbrev world : World adb udb
world = record {
  articles = record { rows = article 1 "a" 7 ∷ article 2 "b" 8 ∷ []; next_id = 3 };
  users = record { rows = user 7 "ann" ∷ user 8 "bob" ∷ []; next_id = 9 };
  events = [];
}

remove_lem_example :
    Removes adb udb 7
      (codes "a")
      world
      (remove adb udb 7 (codes "a") world).0
      (remove adb udb 7 (codes "a") world).1
remove_lem_example = remove_lem adb udb 7 (codes "a") world

abbrev new_dto : CreateArticleDto
new_dto = record {
  title = codes " a ";
  description = codes "d";
  body = codes "b";
  tag_list = some given_tags;
}

create_lem_example :
    (let y = create adb udb same same order same 10 7 new_dto world in
      Adds adb udb same same order same 10 7 new_dto world y.0 y.1)
create_lem_example = create_lem adb udb same same order same 10 7 new_dto world

abbrev changed_title : UpdateArticleDto
changed_title = record {
  title = some (codes "b");
  description = none;
  body = none;
  tag_list = none;
}

update_lem_example :
    (let y = update adb udb same same order same 10 7 (codes "a") changed_title world in
      Changes adb udb same same order same 10 7 (codes "a") changed_title world y.0 y.1)
update_lem_example = update_lem adb udb same same order same 10 7 (codes "a") changed_title world

apart : {q r : ArticleRow} → q ≡ article 1 "a" 7 → r ≡ article 2 "b" 8 → q.id ≡ r.id → ⊥
apart e f i =
    let one : ◌≡◌ {A = ℕ} 1 2 =
      sym (ap (λ (x : ArticleRow). x.id) e) ∙ i ∙ ap (λ (x : ArticleRow). x.id) f in
    absurd (omega arith)

world-IsKeyed : IsKeyed (adb.rows world.articles)
world-IsKeyed q r (Memᴰ.head e) (Memᴰ.head f) i = e ∙ sym f
world-IsKeyed q r (Memᴰ.head e) (Memᴰ.tail (Memᴰ.head f)) i = absurd (apart e f i)
world-IsKeyed q r (Memᴰ.tail (Memᴰ.head e)) (Memᴰ.head f) i = absurd (apart f e (sym i))
world-IsKeyed q r (Memᴰ.tail (Memᴰ.head e)) (Memᴰ.tail (Memᴰ.head f)) i = e ∙ sym f
world-IsKeyed q r (Memᴰ.tail (Memᴰ.tail m)) n i = elim m [ ]
world-IsKeyed q r (Memᴰ.head e) (Memᴰ.tail (Memᴰ.tail n)) i = elim n [ ]
world-IsKeyed q r (Memᴰ.tail (Memᴰ.head e)) (Memᴰ.tail (Memᴰ.tail n)) i = elim n [ ]

of_another : (article 2 "b" 8).author_id ≢ 7
of_another e = absurd (omega arith)

update_spares_example :
    Memᴰ (article 2 "b" 8) (
      adb.rows
        (update adb udb same same order same 10 7 (codes "a") changed_title world).1.articles)
update_spares_example =
    update_spares adb udb same same order same 10 7 (codes "a") changed_title world
      (article 2 "b" 8) world-IsKeyed (Memᴰ.tail (Memᴰ.head refl)) of_another

abbrev by_bob : ListArticlesQuery
by_bob = record { tag = none; author = some (codes "bob"); favorited = none }

list_feed_lem_example :
    ((viewer : Option ℕ)
      → ListsPage adb udb order same world
          (PassesFilter (build_article_filter same by_bob))
          (list_where (build_article_filter same by_bob))
          viewer
          (or_default none default_page)
          (or_default (some 5) default_limit)
          (list adb udb order same same by_bob none (some 5) viewer world))
    × ((user_id : ℕ)
        → ListsPage adb udb order same world
            (IsFed user_id)
            (feed_where user_id)
            (some user_id)
            (or_default none default_page)
            (or_default (some 5) default_limit)
            (feed adb udb order same user_id none (some 5) world))
list_feed_lem_example = list_feed_lem adb udb order same world same by_bob none (some 5)
