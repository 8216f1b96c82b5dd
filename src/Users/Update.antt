-- ===== src/Users/Update.antt =====
-- src/users/users.service.ts: reading and updating a user's profile. A field of the request is absent or
-- has a value; a bio may be null, and an image can only be null. A file is given as what its processing
-- answers, with the random part of its key.
pub mod Results
use realworld_tutorial.Base.{
  ℕ, ◌≡◌, Bool, true, false, not, ◌&&◌, Option, none, some, [], ◌∷◌, ◌==◌, if◌then◌else◌, Codes,
  codes_eq, Exception, http, Outcome, ok, err, M, pure, throw, throw_if, reads, ◌>>=◌, ◌>>◌,
  lift_fst,
}
use realworld_tutorial.Base.Prisma.{Delegate, Transactor}
use realworld_tutorial.Users.{UserRow, user_clash}
use realworld_tutorial.Users.Avatar.{
  ProcessedImage, SameUsers, update_user, clear_avatar, replace_avatar,
}
use realworld_tutorial.Auth.Accounts.{public_url, is_present}

pub record UserResponse : Type 0 where
  pub email : Codes
  pub username : Codes
  pub bio : Option Codes
  pub image : Option Codes

pub record UpdateUserDto : Type 0 where
  pub username : Option Codes
  pub bio : Option (Option Codes)
  -- `image === null`
  pub clears_image : Bool

abbrev pub user_not_found : Exception
user_not_found = http 404 "common.error.userNotFound"

abbrev pub username_in_use : Exception
username_in_use = http 409 "common.error.usernameInUse"

abbrev pub or_old {ℓ} : {A : Type ℓ} → A → Option A → A
or_old old none = old
or_old old (some new) = new

-- `{ ...dto }` as the `data` of an update
abbrev pub update_data : UpdateUserDto → UserRow → UserRow
update_data dto u = record u {
  username = or_old u.username dto.username;
  bio = or_old u.bio dto.bio;
  image = if dto.clears_image then none else u.image;
}

abbrev pub user_response : (Codes → Codes) → UserRow → UserResponse
user_response url u = record {
  email = u.email;
  username = u.username;
  bio = u.bio;
  image = public_url url u.image;
}

-- The `where` of `findByUsernameExcluding`.
abbrev pub has_name_of : Codes → ℕ → UserRow → Bool
has_name_of username id u = codes_eq u.username username && not (u.id == id)

module _ (udb : Delegate UserRow user_clash) (url : Codes → Codes) where
  abbrev pub found_or_throw : Option UserRow → M udb.Store UserResponse
  found_or_throw none = throw user_not_found
  found_or_throw (some u) = pure (user_response url u)

  unfoldable pub get_current_user : ℕ → M udb.Store UserResponse
  get_current_user id = do user ← reads (udb.find_first (λ u. u.id == id)); found_or_throw user

  unfoldable pub find_by_username_excluding : Codes → ℕ → M udb.Store (Option UserRow)
  find_by_username_excluding username id = reads (udb.find_first (has_name_of username id))

  -- `if (dto.username)`: absent and empty names are not looked up.
  abbrev pub check_username : ℕ → Option Codes → M udb.Store (Unit {0})
  check_username id none = pure tt
  check_username id (some []) = pure tt
  check_username id (some (c ∷ s)) = do
    existing ← find_by_username_excluding (c ∷ s) id
    throw_if (is_present existing) username_in_use

  module _ (tx : Transactor udb.Store (SameUsers udb)) {O : Type 0}
      (put : Codes → Codes → M O (Unit {0})) (del : Codes → M O (Unit {0}))
      (lower : Codes → Codes) where
    abbrev pub write_update :
        ℕ → UpdateUserDto → Option (Outcome ProcessedImage × Codes) → M (udb.Store × O) UserRow
    write_update id dto (some (process, uuid)) =
        replace_avatar udb tx put del lower process uuid id (update_data dto)
    write_update id dto none =
        if dto.clears_image
        then clear_avatar udb tx put del id (update_data dto)
        else lift_fst (update_user udb id (update_data dto))

    unfoldable pub update_profile :
        ℕ → UpdateUserDto → Option (Outcome ProcessedImage × Codes) → M (udb.Store × O) UserResponse
    unfolding find_by_username_excluding replace_avatar clear_avatar update_user
    update_profile id dto file = do
      _ ← lift_fst (check_username id dto.username)
      user ← write_update id dto file
      pure (user_response url user)
