-- ===== src/Profiles/Tests.antt =====
-- Following on a table in memory: a run, and the theorems at concrete inputs.
use realworld_tutorial.Base.{ℕ, ◌≡◌, refl, none, List, [], ◌∷◌, Codes, codes, String}
use realworld_tutorial.Base.Prisma.{Delegate}
use realworld_tutorial.Base.Prisma.Memory.{Table, memory}
use realworld_tutorial.Users.{UserRow, user_clash}
use realworld_tutorial.Profiles.{follow_user, unfollow_user}
use realworld_tutorial.Profiles.Follow.{Follows, follow_user_lem}
use realworld_tutorial.Profiles.Unfollow.{Unfollows, unfollow_user_lem}

abbrev db : Delegate UserRow user_clash
db = memory user_clash

abbrev url : Codes → Codes
url key = key

abbrev user : ℕ → String → List ℕ → UserRow
user id name followers = record {
  id = id;
  email = codes name;
  username = codes name;
  password = none;
  image = none;
  bio = none;
  followed_by = followers;
}

abbrev start : Table UserRow
start = record { rows = user 1 "ann" [] ∷ user 2 "bob" (1 ∷ []) ∷ []; next_id = 3 }

followed :
    (follow_user db url 2 (codes "ann") start).1.rows
    ≡ (user 1 "ann" (2 ∷ []) ∷ user 2 "bob" (1 ∷ []) ∷ [])
unfolding follow_user
followed = refl

follow_user_lem_example :
    Follows db url 2 (codes "ann") start (follow_user db url 2 (codes "ann") start)
follow_user_lem_example = follow_user_lem db url 2 (codes "ann") start

unfollow_user_lem_example :
    Unfollows db url 1 (codes "bob") start (unfollow_user db url 1 (codes "bob") start)
unfollow_user_lem_example = unfollow_user_lem db url 1 (codes "bob") start
