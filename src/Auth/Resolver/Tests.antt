-- ===== src/Auth/Resolver/Tests.antt =====
-- Identities on tables in memory: runs, and the theorem at a concrete input.
use realworld_tutorial.Base.{
  ℕ, String, ◌≡◌, refl, Bool, true, false, none, some, List, [], ◌∷◌, Codes, codes, ok, err, M,
}
use realworld_tutorial.Base.Prisma.{Delegate, Transactor}
use realworld_tutorial.Base.Prisma.Memory.{memory, committing}
use realworld_tutorial.Users.{UserRow, user_clash}
use realworld_tutorial.Auth.Token.{RefreshTokenRow, clash, Draws}
use realworld_tutorial.Auth.Linking.{
  PendingProviderLinkRow, AuthProviderRow, pending_clash, auth_clash, Tables, SameRows,
}
use realworld_tutorial.Auth.Linking.Request.{LinkJob, request_link}
use realworld_tutorial.Auth.Google.{Exchange, fetched, claim_text, callback}
use realworld_tutorial.Auth.Google.SignIn.{SignsIn, callback_lem}
use realworld_tutorial.Auth.Resolver.{
  VerifiedIdentity, Chances, Identities, AccountTables, SameAccounts, sign_in_first,
  confirmation_required, resolve, handle_oauth_callback, OauthCallbackResult, confirmation_pending,
}
use realworld_tutorial.Auth.Resolver.Callback.{CallsBack, handle_oauth_callback_lem}

abbrev tdb : Delegate RefreshTokenRow clash
tdb = memory clash

abbrev udb : Delegate UserRow user_clash
udb = memory user_clash

abbrev pdb : Delegate PendingProviderLinkRow pending_clash
pdb = memory pending_clash

abbrev ldb : Delegate AuthProviderRow auth_clash
ldb = memory auth_clash

abbrev Mails : Type 0
Mails = List LinkJob

SameRows-refl : (s : Tables pdb ldb) → SameRows pdb ldb s s
SameRows-refl s = (refl, refl)

SameAccounts-refl :
    (s : AccountTables tdb udb pdb ldb Mails) → SameAccounts tdb udb pdb ldb Mails s s
SameAccounts-refl s = (refl, refl)

abbrev tx : Transactor (AccountTables tdb udb pdb ldb Mails) (SameAccounts tdb udb pdb ldb Mails)
tx = committing (SameAccounts tdb udb pdb ldb Mails) SameAccounts-refl

abbrev ltx : Transactor (Tables pdb ldb) (SameRows pdb ldb)
ltx = committing (SameRows pdb ldb) SameRows-refl

abbrev enqueue : LinkJob → String → M Mails (Unit {0})
enqueue job token_hash jobs = (ok tt, job ∷ jobs)

-- Any functions will do for the digest, the signature and the rest here.
abbrev hash : String → String
hash raw = raw

abbrev sign : ℕ → String
sign user_id = "jwt"

abbrev same : Codes → Codes
same s = s

abbrev ann : UserRow
ann = record {
  id = 7;
  email = codes "ann@example.org";
  username = codes "ann";
  password = none;
  image = none;
  bio = none;
  followed_by = [];
}

abbrev world : Identities tdb udb pdb ldb Mails
world = record {
  tokens = record { rows = []; next_id = 1 };
  users = record { rows = ann ∷ []; next_id = 8 };
  tables = (record { rows = []; next_id = 1 }, record { rows = []; next_id = 1 });
  queue = [];
}

abbrev identity : Bool → VerifiedIdentity
identity verified = record {
  identifier = record { provider = "google"; provider_account_id = "g1" };
  email = "ann@example.org";
  email_verified = verified;
}

abbrev chances : Chances
chances = record { named_at = 5; random = codes "ab"; raw_token = "t"; linked_at = 60000 }

abbrev draws : Draws
draws = record { checked_at = 60000; issued_at = 60000; revoked_at = 60000; fresh = "r" }

-- The address of the user with the id 7, which the provider has not verified, or has.
unverified :
    resolve tdb udb pdb ldb Mails tx ltx enqueue hash same (identity false) chances world
    ≡ (err sign_in_first, world)
unfolding resolve
unverified = refl

verified :
    (resolve tdb udb pdb ldb Mails tx ltx enqueue hash same (identity true) chances world).0
    ≡ ok confirmation_required
unfolding resolve request_link
verified = refl

handle_oauth_callback_lem_example :
    CallsBack tdb udb pdb ldb Mails tx ltx enqueue hash same same sign 30
      (identity true)
      chances
      draws
      world
      (handle_oauth_callback tdb udb pdb ldb Mails tx ltx enqueue hash same same sign 30
        (identity true)
        chances
        draws
        world)
handle_oauth_callback_lem_example =
    handle_oauth_callback_lem tdb udb pdb ldb Mails tx ltx enqueue hash same same sign 30
      (identity true) chances draws world

-- The service on the tables in memory, and the profile of the user with the id 7.
abbrev service : VerifiedIdentity → M (Identities tdb udb pdb ldb Mails) OauthCallbackResult
service i =
    handle_oauth_callback tdb udb pdb ldb Mails tx ltx enqueue hash same same sign 30 i chances
      draws

abbrev exchange : Exchange
exchange = fetched (record {
  id = "g1";
  emails = some (record { value = "ann@example.org"; verified = claim_text "true" } ∷ []);
})

pending :
    (callback hash service exchange world).0
    ≡ ok (record { status = 202; result = confirmation_pending })
unfolding callback handle_oauth_callback request_link
pending = refl

callback_lem_example : SignsIn hash service world exchange (callback hash service exchange world)
callback_lem_example = callback_lem hash service world exchange
