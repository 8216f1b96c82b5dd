-- ===== src/Auth/Accounts.antt =====
-- src/auth/auth.service.ts, src/auth/auth.repository.ts, src/common/password/password.service.ts: the
-- registration and the login of users with a password. bcrypt's hash and comparison and the URL of a
-- stored object are parameters, and so is the memoized hash of a random secret; a comparison is noted in
-- the state, since each takes its time. Texts of users are code units; see Auth/Token for the sessions.
pub mod Login
pub mod Register
use realworld_tutorial.Base.{
  ℕ, String, ◌≡◌, Bool, true, false, not, Option, none, some, List, [], ◌==◌, if◌then◌else◌,
  append_one, Codes, codes_eq, Exception, http, Outcome, ok, err, M, pure, throw, throw_if, reads,
  ◌>>=◌, ◌>>◌,
}
use realworld_tutorial.Base.Prisma.{Delegate}
use realworld_tutorial.Users.{UserRow, user_clash}
use realworld_tutorial.Auth.Token.{RefreshTokenRow, TokenPair, clash, Draws, issue_tokens}

pub record AuthResponse : Type 0 where
  pub email : Codes
  pub username : Codes
  pub bio : Option Codes
  pub image : Option Codes
  pub tokens : TokenPair

pub record RegisterDto : Type 0 where
  pub email : Codes
  pub username : Codes
  pub password : Codes

abbrev pub email_exists : Exception
email_exists = http 409 "Email already exists"

abbrev pub username_exists : Exception
username_exists = http 409 "Username already exists"

abbrev pub invalid_credentials : Exception
invalid_credentials = http 401 "Invalid credentials"

abbrev pub public_url : (Codes → Codes) → Option Codes → Option Codes
public_url url none = none
public_url url (some key) = some (url key)

abbrev pub session_response : (Codes → Codes) → UserRow → TokenPair → AuthResponse
session_response url u tokens = record {
  email = u.email;
  username = u.username;
  bio = u.bio;
  image = public_url url u.image;
  tokens = tokens;
}

-- `user?.password ?? dummy`
abbrev pub or_dummy : Codes → Option Codes → Codes
or_dummy dummy none = dummy
or_dummy dummy (some h) = h

abbrev pub hash_to_compare : Codes → Option UserRow → Codes
hash_to_compare dummy none = dummy
hash_to_compare dummy (some u) = or_dummy dummy u.password

abbrev pub new_user : RegisterDto → Codes → ℕ → UserRow
new_user dto hashed id = record {
  id = id;
  email = dto.email;
  username = dto.username;
  password = some hashed;
  image = none;
  bio = none;
  followed_by = [];
}

abbrev pub is_present : Option UserRow → Bool
is_present none = false
is_present (some u) = true

module _ (tdb : Delegate RefreshTokenRow clash) (udb : Delegate UserRow user_clash) where
  -- The tables, and the hashes that a password was compared with.
  pub record Accounts : Type 0 where
    pub tokens : tdb.Store
    pub users : udb.Store
    pub comparisons : List Codes

  abbrev pub on_tokens {ℓ} : {A : Type ℓ} → M tdb.Store A → M Accounts A
  on_tokens m s = let (r, t) = m s.tokens in (r, record s { tokens = t })

  abbrev pub on_users {ℓ} : {A : Type ℓ} → M udb.Store A → M Accounts A
  on_users m s = let (r, t) = m s.users in (r, record s { users = t })

  unfoldable pub find_by_email : Codes → M Accounts (Option UserRow)
  find_by_email email = reads (λ s. udb.find_first (λ u. codes_eq u.email email) s.users)

  unfoldable pub find_by_username : Codes → M Accounts (Option UserRow)
  find_by_username username =
      reads (λ s. udb.find_first (λ u. codes_eq u.username username) s.users)

  module _ (compare_password : Codes → Codes → Bool) (hash_password : Codes → Codes) (dummy : Codes)
      (url : Codes → Codes) (hash : String → String) (sign : ℕ → String) (ttl_days : ℕ) where
    abbrev pub compare_with : Codes → Codes → M Accounts Bool
    compare_with password hashed s = (
      ok (compare_password password hashed),
      record s { comparisons = append_one s.comparisons hashed },
    )

    abbrev pub start_session : UserRow → Draws → M Accounts AuthResponse
    start_session u d = do
      tokens ← on_tokens (issue_tokens tdb hash sign ttl_days u.id d)
      pure (session_response url u tokens)

    -- `!user || user.password === null || !isPasswordValid`
    abbrev pub accept_hash : Draws → UserRow → Option Codes → Bool → M Accounts AuthResponse
    accept_hash d u none valid = throw invalid_credentials
    accept_hash d u (some h) valid =
        if not valid then throw invalid_credentials else start_session u d

    abbrev pub accept : Draws → Option UserRow → Bool → M Accounts AuthResponse
    accept d none valid = throw invalid_credentials
    accept d (some u) valid = accept_hash d u u.password valid

    unfoldable pub login : Codes → Codes → Draws → M Accounts AuthResponse
    unfolding find_by_email
    login email password d = do
      user ← find_by_email email
      valid ← compare_with password (hash_to_compare dummy user)
      accept d user valid

    unfoldable pub register : RegisterDto → Draws → M Accounts AuthResponse
    unfolding find_by_email find_by_username
    register dto d = do
      by_email ← find_by_email dto.email
      throw_if (is_present by_email) email_exists
      by_username ← find_by_username dto.username
      throw_if (is_present by_username) username_exists
      user ← on_users (udb.create (new_user dto (hash_password dto.password)))
      start_session user d
