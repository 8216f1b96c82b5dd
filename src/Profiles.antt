-- ===== src/Profiles.antt =====
-- src/profiles: profiles, and following. The relation `followedBy` is a list of ids in the row of the
-- user who is followed. The URL of a stored object is a parameter.
pub mod Edges
pub mod Follow
pub mod Unfollow
mod Tests
use mathlib.Core.List.{Memᴰ}
use realworld_tutorial.Base.{
  ℕ, ◌≤◌, ◌<◌, ◌≡◌, refl, sym, ap, ◌∙◌, subst, ◌≢◌, ◌⊎◌, inl, inr, Bool, true, false, not, ◌&&◌,
  and_true, Option, none, some, List, [], map, arith, ltb, ltb→lt, ◌==◌, keep, some_is, length,
  append_one, if◌then◌else◌, Bool-cases, Codes, codes_eq, codes_eq_iff, Exception, http, Outcome,
  ok, err, M, pure, throw, throw_if, reads, ◌>>=◌, ◌>>◌, >>=-cases,
}
use realworld_tutorial.Base.Prisma.{Delegate, Finds, UpdatesOne, patch}
use realworld_tutorial.Users.{UserRow, user_clash}

pub record ProfileResponse : Type 0 where
  pub username : Codes
  pub bio : Option Codes
  pub image : Option Codes
  pub following : Bool

abbrev pub profile_not_found : Exception
profile_not_found = http 404 "common.error.profileNotFound"

abbrev pub follow_self : Exception
follow_self = http 422 "common.error.followSelf"

abbrev pub url_of : (Codes → Codes) → Option Codes → Option Codes
url_of url none = none
url_of url (some key) = some (url key)

abbrev pub profile_response : (Codes → Codes) → UserRow → Bool → ProfileResponse
profile_response url u following = record {
  username = u.username;
  bio = u.bio;
  image = url_of url u.image;
  following = following;
}

abbrev pub has_id : ℕ → List ℕ → Bool
has_id id ids = some_is (λ i. i == id) ids

-- The `followedBy` of a profile for a viewer; nobody is in it for a reader without a session.
abbrev pub followers_seen : Option ℕ → UserRow → List ℕ
followers_seen none u = []
followers_seen (some viewer) u = keep (λ i. i == viewer) u.followed_by

-- `connect` and `disconnect`
abbrev pub connect_follower : ℕ → UserRow → UserRow
connect_follower id u = record u {
  followed_by = if has_id id u.followed_by then u.followed_by else append_one u.followed_by id;
}

abbrev pub disconnect_follower : ℕ → UserRow → UserRow
disconnect_follower id u = record u { followed_by = keep (λ i. not (i == id)) u.followed_by }

abbrev pub is_followed_by : ℕ → ℕ → UserRow → Bool
is_followed_by follower target u = u.id == target && has_id follower u.followed_by

module _ (db : Delegate UserRow user_clash) where
  unfoldable pub find_by_username : Codes → M db.Store (Option UserRow)
  find_by_username username = reads (db.find_first (λ u. codes_eq u.username username))

  abbrev pub is_found : Option UserRow → Bool
  is_found none = false
  is_found (some u) = true

  unfoldable pub is_following : ℕ → ℕ → M db.Store Bool
  is_following follower target = do
    record' ← reads (db.find_first (is_followed_by follower target))
    pure (is_found record')

  -- The follower's row has to be there, and its relation is changed in the row that is followed.
  unfoldable pub follow : ℕ → ℕ → M db.Store UserRow
  follow follower target =
      db.update (λ u. u.id == follower) (λ u. u)
      >> db.update (λ u. u.id == target) (connect_follower follower)

  unfoldable pub unfollow : ℕ → ℕ → M db.Store UserRow
  unfollow follower target =
      db.update (λ u. u.id == follower) (λ u. u)
      >> db.update (λ u. u.id == target) (disconnect_follower follower)

  abbrev pub found_profile : Option UserRow → M db.Store UserRow
  found_profile none = throw profile_not_found
  found_profile (some u) = pure u

  unfoldable pub require_profile : Codes → M db.Store UserRow
  unfolding find_by_username
  require_profile username = do found ← find_by_username username; found_profile found

  module _ (url : Codes → Codes) where
    unfoldable pub get_profile : Codes → Option ℕ → M db.Store ProfileResponse
    unfolding require_profile
    get_profile username viewer = do
      profile ← require_profile username
      pure (profile_response url profile (ltb 0 (length (followers_seen viewer profile))))

    abbrev pub follow_unless : ℕ → UserRow → Bool → M db.Store ProfileResponse
    follow_unless viewer target already =
        if already
        then pure (profile_response url target true)
        else (follow viewer target.id >> pure (profile_response url target true))

    unfoldable pub follow_user : ℕ → Codes → M db.Store ProfileResponse
    unfolding require_profile is_following follow
    follow_user viewer username = do
      target ← require_profile username
      throw_if (target.id == viewer) follow_self
      already ← is_following viewer target.id
      follow_unless viewer target already

    abbrev pub unfollow_if : ℕ → UserRow → Bool → M db.Store ProfileResponse
    unfollow_if viewer target following =
        if not following
        then pure (profile_response url target false)
        else (unfollow viewer target.id >> pure (profile_response url target false))

    unfoldable pub unfollow_user : ℕ → Codes → M db.Store ProfileResponse
    unfolding require_profile is_following unfollow
    unfollow_user viewer username = do
      target ← require_profile username
      following ← is_following viewer target.id
      unfollow_if viewer target following
