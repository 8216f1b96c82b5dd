-- ===== src/Auth/Google.antt =====
-- src/auth/providers/google: the sign-in with Google, from what Passport's exchange of the code has given
-- to the status of the answer. The service that the controller calls is an argument, and `tidy` is
-- `trim().toLowerCase()`.
pub mod SignIn
use realworld_tutorial.Base.{
  ℕ, String, Bool, true, false, Option, none, some, List, [], ◌∷◌, str_eq, if◌then◌else◌, Exception,
  http, Outcome, ok, err, M, pure, throw, reads, ◌>>=◌,
}
use realworld_tutorial.Auth.Resolver.{
  VerifiedIdentity, OauthCallbackResult, authenticated, confirmation_pending,
}

-- The claim `verified`, which some versions give as a text.
pub data Claim : Type 0 where
  claim_bool : Bool → Claim
  claim_text : String → Claim
  no_claim : Claim

pub record GoogleEmail : Type 0 where
  pub value : String
  pub verified : Claim

pub record GoogleProfile : Type 0 where
  pub id : String
  pub emails : Option (List GoogleEmail)

-- What Passport hands to the guard: an error or no user, or the profile that it fetched.
pub data Exchange : Type 0 where
  exchange_failed : Exchange
  fetched : GoogleProfile → Exchange

pub record GoogleAnswer : Type 0 where
  pub status : ℕ
  pub result : OauthCallbackResult

abbrev pub is_verified : Claim → Bool
is_verified (claim_bool b) = b
is_verified (claim_text s) = str_eq s "true"
is_verified no_claim = false

-- `profile.emails?.[0]`
abbrev pub primary_email : Option (List GoogleEmail) → Option GoogleEmail
primary_email none = none
primary_email (some []) = none
primary_email (some (e ∷ es)) = some e

abbrev pub no_address : Exception
no_address = http 401 "Google account has no email address"

abbrev pub not_completed : Exception
not_completed = http 401 "Google sign-in could not be completed"

module _ (tidy : String → String) where
  abbrev pub identity_of : GoogleProfile → GoogleEmail → VerifiedIdentity
  identity_of profile primary = record {
    identifier = record { provider = "google"; provider_account_id = profile.id };
    email = tidy primary.value;
    email_verified = is_verified primary.verified;
  }

  abbrev pub validate_primary : GoogleProfile → Option GoogleEmail → Outcome VerifiedIdentity
  validate_primary profile none = err no_address
  validate_primary profile (some primary) =
      if str_eq primary.value "" then err no_address else ok (identity_of profile primary)

  -- `GoogleStrategy.validate`
  abbrev pub validate : GoogleProfile → Outcome VerifiedIdentity
  validate profile = validate_primary profile (primary_email profile.emails)

  -- Passport gives what `validate` throws to `handleRequest` as its error.
  abbrev pub handle_request : Outcome VerifiedIdentity → Outcome VerifiedIdentity
  handle_request (ok identity) = ok identity
  handle_request (err e) = err not_completed

  abbrev pub can_activate : Exchange → Outcome VerifiedIdentity
  can_activate exchange_failed = err not_completed
  can_activate (fetched profile) = handle_request (validate profile)

  abbrev pub answer_with : OauthCallbackResult → GoogleAnswer
  answer_with confirmation_pending = record { status = 202; result = confirmation_pending }
  answer_with (authenticated resp) = record { status = 200; result = authenticated resp }

  -- The callback behind its guard.
  unfoldable pub callback :
      {S : Type 0} → (VerifiedIdentity → M S OauthCallbackResult) → Exchange → M S GoogleAnswer
  callback handle_oauth_callback exchange = do
    identity ← reads (λ _. can_activate exchange)
    result ← handle_oauth_callback identity
    pure (answer_with result)
