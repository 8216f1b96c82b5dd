-- ===== src/Users/Tests.antt =====
-- Avatars and profiles on a table in memory and a list of objects: runs, and the theorems at concrete
-- inputs.
use realworld_tutorial.Base.{
  ◌≡◌, refl, true, not, none, some, List, [], ◌∷◌, Codes, codes, codes_eq, keep, ok, M, Option,
}
use realworld_tutorial.Base.Decimal.{decimal}
use realworld_tutorial.Base.Prisma.{Delegate, Transactor}
use realworld_tutorial.Base.Prisma.Memory.{Table, memory, committing}
use realworld_tutorial.Users.{UserRow, user_clash}
use realworld_tutorial.Users.Update.{UpdateUserDto, update_profile}
use realworld_tutorial.Users.Update.Results.{UpdatesProfile, update_profile_lem}
use realworld_tutorial.Users.Avatar.{ProcessedImage, SameUsers, replace_avatar}
use realworld_tutorial.Users.Avatar.Replacement.{Replaces, replace_avatar_lem}

abbrev db : Delegate UserRow user_clash
db = memory user_clash

SameUsers-refl : (s : Table UserRow) → SameUsers db s s
SameUsers-refl s = refl

abbrev tx : Transactor (Table UserRow) (SameUsers db)
tx = committing (SameUsers db) SameUsers-refl

-- The keys of the stored objects.
abbrev put : Codes → Codes → M (List Codes) (Unit {0})
put key data' keys = (ok tt, key ∷ keys)

abbrev del : Codes → M (List Codes) (Unit {0})
del key keys = (ok tt, keep (λ k. not (codes_eq k key)) keys)

abbrev same : Codes → Codes
same s = s

abbrev unchanged : UserRow → UserRow
unchanged u = u

abbrev ann : Option Codes → UserRow
ann image = record {
  id = 7;
  email = codes "ann@x";
  username = codes "ann";
  password = none;
  image = image;
  bio = none;
  followed_by = [];
}

abbrev start : Table UserRow × List Codes
start = (record { rows = ann (some (codes "old")) ∷ []; next_id = 8 }, codes "old" ∷ [])

abbrev image : ProcessedImage
image = record { data' = codes "pixels"; extension = codes "webp" }

replaced :
    (replace_avatar db tx put del same (ok image) (codes "u") 7 unchanged start).1.1
    ≡ (codes "avatars/7/u.webp" ∷ [])
unfolding replace_avatar decimal
replaced = refl

replace_avatar_lem_example :
    Replaces db tx put del same
      (ok image)
      (codes "u")
      7
      unchanged
      start
      (replace_avatar db tx put del same (ok image) (codes "u") 7 unchanged start)
replace_avatar_lem_example =
    replace_avatar_lem db tx put del same (ok image) (codes "u") 7 unchanged start

abbrev dto : UpdateUserDto
dto = record { username = some (codes "anna"); bio = none; clears_image = true }

cleared :
    (update_profile db same tx put del same 7 dto none start).1
    ≡ (record { rows = record (ann none) { username = codes "anna" } ∷ []; next_id = 8 }, [])
unfolding update_profile
cleared = refl

update_profile_lem_example :
    UpdatesProfile db same tx put del same 7 dto start none
      (update_profile db same tx put del same 7 dto none start)
update_profile_lem_example = update_profile_lem db same tx put del same 7 dto start none
