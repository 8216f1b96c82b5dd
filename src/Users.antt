-- ===== src/Users.antt =====
-- src/users, src/auth/auth.repository.ts: the row of a user, as prisma/schema.prisma declares it. The
-- relation `followedBy` is the list of the followers' ids.
pub mod Avatar
pub mod Update
mod Tests
use realworld_tutorial.Base.{ℕ, Bool, ◌||◌, Option, List, Codes, codes_eq}

pub record UserRow : Type 0 where
  pub id : ℕ
  pub email : Codes
  pub username : Codes
  pub password : Option Codes
  pub image : Option Codes
  pub bio : Option Codes
  pub followed_by : List ℕ

-- The unique keys `email` and `username`.
abbrev pub user_clash : UserRow → UserRow → Bool
user_clash q r = codes_eq q.email r.email || codes_eq q.username r.username
