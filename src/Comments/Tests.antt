-- ===== src/Comments/Tests.antt =====
-- Comments on tables in memory: the theorems at concrete inputs.
use realworld_tutorial.Base.{ℕ, none, [], ◌∷◌, Codes, codes, ◌≡◌, refl}
use realworld_tutorial.Base.Prisma.{Delegate}
use realworld_tutorial.Base.Prisma.Memory.{memory}
use realworld_tutorial.Users.{UserRow, user_clash}
use realworld_tutorial.Articles.Repository.{ArticleRow, slug_clash}
use realworld_tutorial.Comments.{CommentRow, comment_clash, Thread, add_comment, remove_comment}
use realworld_tutorial.Comments.Creation.{AddsComment, add_comment_lem}
use realworld_tutorial.Comments.Listing.{ListsComments, list_comments, list_comments_lem}
use realworld_tutorial.Comments.Removal.{RemovesComment, remove_comment_lem}

abbrev adb : Delegate ArticleRow slug_clash
adb = memory slug_clash

abbrev udb : Delegate UserRow user_clash
udb = memory user_clash

abbrev cdb : Delegate CommentRow comment_clash
cdb = memory comment_clash

abbrev url : Codes → Codes
url key = key

abbrev ann : UserRow
ann = record {
  id = 7;
  email = codes "ann";
  username = codes "ann";
  password = none;
  image = none;
  bio = none;
  followed_by = [];
}

abbrev article : ArticleRow
article = record {
  id = 1;
  slug = codes "a";
  title = codes "a";
  description = [];
  body = [];
  created_at = 5;
  updated_at = 5;
  tag_list = [];
  author_id = 7;
  favorited_by = [];
}

abbrev comment : ℕ → ℕ → CommentRow
comment id author_id = record {
  id = id;
  created_at = 6;
  updated_at = 6;
  body = codes "c";
  article_id = 1;
  author_id = author_id;
}

abbrev thread : Thread adb udb cdb
thread = (
  record {
    articles = record { rows = article ∷ []; next_id = 2 };
    users = record { rows = ann ∷ []; next_id = 8 };
    events = [];
  },
  record { rows = comment 1 7 ∷ comment 2 8 ∷ []; next_id = 3 },
)

one_left : (remove_comment adb udb cdb 7 (codes "a") 1 thread).1.1.rows ≡ (comment 2 8 ∷ [])
unfolding remove_comment
one_left = refl

remove_comment_lem_example :
    RemovesComment adb udb cdb 7
      (codes "a")
      1
      thread
      (remove_comment adb udb cdb 7 (codes "a") 1 thread)
remove_comment_lem_example = remove_comment_lem adb udb cdb 7 (codes "a") 1 thread

add_comment_lem_example :
    AddsComment adb udb cdb url 9 7
      (codes "a")
      (codes "hello")
      thread
      (add_comment adb udb cdb url 9 7 (codes "a") (codes "hello") thread)
add_comment_lem_example = add_comment_lem adb udb cdb url 9 7 (codes "a") (codes "hello") thread

list_comments_lem_example :
    ListsComments adb udb cdb url none thread
      (codes "a")
      (list_comments adb udb cdb url (codes "a") none thread)
list_comments_lem_example = list_comments_lem adb udb cdb url none thread (codes "a")
