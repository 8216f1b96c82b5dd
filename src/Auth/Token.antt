-- ===== src/Auth/Token.antt =====
-- src/auth/token: the refresh tokens of a user, their rotation and their clean-up. A time is a
-- number of milliseconds. `createHash('sha256')` and `jwtService.sign` are parameters; the tokens
-- that `randomBytes` draws and the times that `new Date()` reads are arguments, one for each call.
pub mod Lifetime
pub mod Evolution
pub mod Operations
pub mod Exchange
pub mod Rotation
pub mod Requests
pub mod Refusals
pub mod Logout
mod Tests
use realworld_tutorial.Base.{
  ℕ, ◌+◌, ◌*◌, ◌≤◌, String, ◌≡◌, Bool, true, false, not, ◌&&◌, ◌||◌, Option, none, some, ltb, leb,
  ◌==◌, str_eq, is_none, if◌then◌else◌, Exception, http, error, Outcome, ok, err, M, pure, throw,
  reads, ◌>>=◌, ◌>>◌, lift_fst, set_local, catch_with,
}
use realworld_tutorial.Base.Prisma.{Delegate, Transactor}

pub record RefreshTokenRow : Type 0 where
  pub id : ℕ
  pub user_id : ℕ
  pub token_hash : String
  pub expires_at : ℕ
  pub revoked_at : Option ℕ
  pub replaced_by_id : Option ℕ

pub record TokenPair : Type 0 where
  pub access_token : String
  pub refresh_token : String

abbrev pub ms_per_day : ℕ
ms_per_day = 24 * 60 * 60 * 1000

-- Null is not equal to null in a unique key.
abbrev pub same_id : Option ℕ → Option ℕ → Bool
same_id (some a) (some b) = a == b
same_id _ _ = false

-- The unique keys of the table: `tokenHash` and `replacedById`.
abbrev pub clash : RefreshTokenRow → RefreshTokenRow → Bool
clash q r = str_eq q.token_hash r.token_hash || same_id q.replaced_by_id r.replaced_by_id

abbrev pub invalid : Exception
invalid = http 401 "Invalid refresh token"

-- What one call draws from its surroundings: the times of the checks, of the issue and of a
-- revocation, and the random bytes of a new token.
pub record Draws : Type 0 where
  pub checked_at : ℕ
  pub issued_at : ℕ
  pub revoked_at : ℕ
  pub fresh : String

-- The `where` and `data` of the updates.
abbrev pub is_unused : ℕ → RefreshTokenRow → Bool
is_unused id r = r.id == id && is_none r.replaced_by_id

abbrev pub set_replaced : ℕ → RefreshTokenRow → RefreshTokenRow
set_replaced by r = record r { replaced_by_id = some by }

abbrev pub is_live_of : ℕ → RefreshTokenRow → Bool
is_live_of user_id r = r.user_id == user_id && is_none r.revoked_at

abbrev pub set_revoked : ℕ → RefreshTokenRow → RefreshTokenRow
set_revoked now r = record r { revoked_at = some now }

module _ (db : Delegate RefreshTokenRow clash) where
  open db use {Store, rows, next_id, find_first, create, update_many, update, delete_many}

  -- After a rollback the rows are the old ones, and no id is drawn twice.
  abbrev pub Same : Store → Store → Type 0
  Same s t = (rows t ≡ rows s) × (next_id s ≤ next_id t)

  -- `RefreshTokenRepository`
  unfoldable pub create_row : ℕ → String → ℕ → M Store RefreshTokenRow
  create_row user_id token_hash expires_at = create (λ i. record {
    id = i;
    user_id = user_id;
    token_hash = token_hash;
    expires_at = expires_at;
    revoked_at = none;
    replaced_by_id = none;
  })

  unfoldable pub find_by_hash : String → M Store (Option RefreshTokenRow)
  find_by_hash token_hash = reads (find_first (λ r. str_eq r.token_hash token_hash))

  unfoldable pub mark_as_used : ℕ → ℕ → M Store Bool
  mark_as_used id replaced_by_id = do
    count ← update_many (is_unused id) (set_replaced replaced_by_id)
    pure (ltb 0 count)

  unfoldable pub revoke_by_id : ℕ → ℕ → M Store RefreshTokenRow
  revoke_by_id now id = update (λ r. r.id == id) (set_revoked now)

  unfoldable pub revoke_all_for_user : ℕ → ℕ → M Store ℕ
  revoke_all_for_user now user_id = update_many (is_live_of user_id) (set_revoked now)

  unfoldable pub delete_expired : ℕ → M Store ℕ
  delete_expired now = delete_many (λ r. ltb r.expires_at now)

  -- The checks of `rotate`; a token that was replaced before ends every session of its user.
  unfoldable pub check_stored : Option RefreshTokenRow → Draws → M Store RefreshTokenRow
  unfolding revoke_all_for_user
  check_stored none d = throw invalid
  check_stored (some stored) d =
      if not (is_none stored.replaced_by_id)
      then revoke_all_for_user d.revoked_at stored.user_id >> throw invalid
      else if not (is_none stored.revoked_at) || leb stored.expires_at d.checked_at
      then throw invalid
      else pure stored

  -- The `catch` of `rotate`; the option is `userIdToRevoke`.
  abbrev pub settle : Draws → Outcome TokenPair → Option ℕ → M Store TokenPair
  settle d (ok pair) to_revoke = pure pair
  settle d (err e) none = throw e
  settle d (err e) (some user_id) = revoke_all_for_user d.revoked_at user_id >> throw e

  abbrev pub revoke_found : Option RefreshTokenRow → ℕ → M Store (Unit {0})
  revoke_found none now = pure tt
  revoke_found (some stored) now =
      if is_none stored.revoked_at then revoke_by_id now stored.id >> pure tt else pure tt

  -- `ExpiredTokenCleanupService.removeExpiredTokens`: it logs what went wrong, and answers.
  unfoldable pub remove_expired_tokens : ℕ → M Store (Unit {0})
  unfolding delete_expired
  remove_expired_tokens now = catch_with (delete_expired now >> pure tt) (λ e. pure tt)

  module _ (hash : String → String) where
    unfoldable pub revoke : String → ℕ → M Store (Unit {0})
    unfolding find_by_hash revoke_by_id
    revoke raw now = do found ← find_by_hash (hash raw); revoke_found found now

    module _ (sign : ℕ → String) (ttl_days : ℕ) where
      unfoldable pub create_token_pair : ℕ → Draws → M Store (TokenPair × ℕ)
      unfolding create_row
      create_token_pair user_id d = do
        row ← create_row user_id (hash d.fresh) (d.issued_at + ttl_days * ms_per_day)
        pure (record { access_token = sign user_id; refresh_token = d.fresh }, row.id)

      unfoldable pub issue_tokens : ℕ → Draws → M Store TokenPair
      unfolding create_token_pair
      issue_tokens user_id d = do (pair, row_id) ← create_token_pair user_id d; pure pair

      abbrev pub conclude : RefreshTokenRow → TokenPair → Bool → M (Store × Option ℕ) TokenPair
      conclude stored pair marked =
          if marked then pure pair else (set_local (some stored.user_id) >> throw invalid)

      -- The body of the transaction in `rotate`; its local variable is `userIdToRevoke`.
      unfoldable pub exchange_body : RefreshTokenRow → Draws → M (Store × Option ℕ) TokenPair
      unfolding create_token_pair mark_as_used
      exchange_body stored d = do
        (pair, row_id) ← lift_fst (create_token_pair stored.user_id d)
        marked ← lift_fst (mark_as_used stored.id row_id)
        conclude stored pair marked

      module _ (tx : Transactor Store Same) where
        -- What `rotate` does once the stored token has passed its checks.
        unfoldable pub exchange : RefreshTokenRow → Draws → M Store TokenPair
        unfolding exchange_body revoke_all_for_user
        exchange stored d s =
            let (r, u) = tx.transact (Option ℕ) TokenPair (exchange_body stored d) (s, none) in
            settle d r u.1 u.0

        unfoldable pub rotate : String → Draws → M Store TokenPair
        unfolding find_by_hash check_stored exchange
        rotate raw d = do
          found ← find_by_hash (hash raw)
          stored ← check_stored found d
          exchange stored d
