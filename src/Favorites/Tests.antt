-- ===== src/Favorites/Tests.antt =====
-- Favorites on tables in memory: two runs, and the theorems at concrete inputs.
use realworld_tutorial.Base.{ℕ, ◌≡◌, refl, none, List, [], ◌∷◌, Codes, codes}
use realworld_tutorial.Base.Decimal.{decimal}
use realworld_tutorial.Base.Prisma.{Delegate}
use realworld_tutorial.Base.Prisma.Memory.{memory}
use realworld_tutorial.Users.{UserRow, user_clash}
use realworld_tutorial.Articles.Repository.{
  ArticleRow, slug_clash, World, article_favorited, article_record,
}
use realworld_tutorial.Favorites.{favorite, unfavorite}
use realworld_tutorial.Favorites.Marking.{Favors, favorite_lem}
use realworld_tutorial.Favorites.Unmarking.{Unfavors, unfavorite_lem}

abbrev adb : Delegate ArticleRow slug_clash
adb = memory slug_clash

abbrev udb : Delegate UserRow user_clash
udb = memory user_clash

abbrev order : List Codes → List Codes
order tags = tags

abbrev url : Codes → Codes
url key = key

abbrev ann : UserRow
ann = record {
  id = 7;
  email = codes "ann@x";
  username = codes "ann";
  password = none;
  image = none;
  bio = none;
  followed_by = [];
}

abbrev article : List ℕ → ArticleRow
article fans = record {
  id = 1;
  slug = codes "a";
  title = codes "A";
  description = [];
  body = [];
  created_at = 5;
  updated_at = 5;
  tag_list = [];
  author_id = 7;
  favorited_by = fans;
}

abbrev world : List ℕ → World adb udb
world fans = record {
  articles = record { rows = article fans ∷ []; next_id = 2 };
  users = record { rows = ann ∷ []; next_id = 8 };
  events = [];
}

announced : (favorite adb udb order url 9 (codes "a") (world [])).1 ≡ record (world (9 ∷ [])) {
  events = article_favorited 1 (codes "a") (codes "A") 7 9 (codes "user-9") ∷ [];
}
unfolding favorite decimal article_record
announced = refl

struck : (unfavorite adb udb order url 9 (codes "a") (world (9 ∷ []))).1 ≡ world []
unfolding unfavorite article_record
struck = refl

favorite_lem_example :
    Favors adb udb order url 9
      (codes "a")
      (world [])
      (favorite adb udb order url 9 (codes "a") (world []))
favorite_lem_example = favorite_lem adb udb order url 9 (codes "a") (world [])

unfavorite_lem_example :
    Unfavors adb udb order url 9
      (codes "a")
      (world (9 ∷ []))
      (unfavorite adb udb order url 9 (codes "a") (world (9 ∷ [])))
unfavorite_lem_example = unfavorite_lem adb udb order url 9 (codes "a") (world (9 ∷ []))
