-- ===== src/Auth/Tests.antt =====
-- Provider links, user names, and accounts: runs, and the theorems at concrete inputs.
use realworld_tutorial.Base.{
  ◌≤◌, ◌≡◌, refl, List, [], ◌∷◌, arith, Codes, codes, length, String, http, ok, err, M,
}
use realworld_tutorial.Base.Prisma.{Delegate, Transactor}
use realworld_tutorial.Base.Prisma.Memory.{memory, committing}
use realworld_tutorial.Base.Decimal.{decimal}
use realworld_tutorial.Auth.Linking.{
  PendingProviderLinkRow, AuthProviderRow, ProviderIdentifier, IssueInput, pending_clash,
  auth_clash, Tables, SameRows, issue, confirm, confirmed,
}
use realworld_tutorial.Auth.Linking.Issue.{IssuesCooled, issue_lem}
use realworld_tutorial.Auth.Linking.Body.{Confirmable, Linked}
use realworld_tutorial.Auth.Linking.Confirm.{confirm_links}
use realworld_tutorial.Auth.Linking.Request.{
  ProviderLinkRequest, LinkJob, Requests, request_link, request_link_lem,
}
use realworld_tutorial.Auth.Username.{
  username_min, username_max, IsName, base_username_from_email, base_username_lem, name_suffix,
}
use realworld_tutorial.Base.{codes_eq, some, none, ℕ}
use realworld_tutorial.Users.{UserRow, user_clash}
use realworld_tutorial.Auth.Token.{RefreshTokenRow, clash, Draws}
use realworld_tutorial.Auth.Accounts.{Accounts, RegisterDto, login, register}
use realworld_tutorial.Auth.Accounts.Login.{LogsIn, login_lem}
use realworld_tutorial.Auth.Accounts.Register.{Registers, register_lem}

abbrev pdb : Delegate PendingProviderLinkRow pending_clash
pdb = memory pending_clash

abbrev ldb : Delegate AuthProviderRow auth_clash
ldb = memory auth_clash

SameRows-refl : (s : Tables pdb ldb) → SameRows pdb ldb s s
SameRows-refl s = (refl, refl)

abbrev tx : Transactor (Tables pdb ldb) (SameRows pdb ldb)
tx = committing (SameRows pdb ldb) SameRows-refl

-- Any function will do for the digest here.
abbrev hash : String → String
hash raw = raw

abbrev google : ProviderIdentifier
google = record { provider = "google"; provider_account_id = "g1" }

abbrev pending : PendingProviderLinkRow
pending = record {
  id = 1;
  user_id = 7;
  provider = "google";
  provider_account_id = "g1";
  token_hash = "t";
  expires_at = 900000;
  created_at = 0;
}

abbrev tables : Tables pdb ldb
tables = (record { rows = pending ∷ []; next_id = 2 }, record { rows = []; next_id = 1 })

abbrev linked_tables : Tables pdb ldb
linked_tables = (
  record { rows = []; next_id = 2 },
  record {
    rows = record { id = 1; provider = "google"; provider_account_id = "g1"; user_id = 7 } ∷ [];
    next_id = 2;
  },
)

abbrev undisturbed : Tables pdb ldb → Tables pdb ldb
undisturbed s = s

confirm_runs : confirm pdb ldb tx hash undisturbed "t" 1000 tables ≡ (ok confirmed, linked_tables)
unfolding confirm
confirm_runs = refl

confirm_links_example :
    (p : PendingProviderLinkRow) × Confirmable pdb ldb (hash "t") 1000 tables p
    × Linked pdb ldb p linked_tables
confirm_links_example =
    confirm_links pdb ldb tx hash undisturbed (λ s l m. m) "t" 1000 tables confirmed linked_tables
      confirm_runs

abbrev input : IssueInput
input = record {
  user_id = 7;
  identity = google;
  token_hash = "u";
  expires_at = 960000;
  now = 60000;
}

issue_lem_example : IssuesCooled pdb ldb tx input tables (issue pdb ldb tx input tables)
issue_lem_example = issue_lem pdb ldb tx input tables

-- A queue that is full does not accept the mail.
abbrev enqueue : LinkJob → String → M (List LinkJob) (Unit {0})
enqueue job token_hash [] = (ok tt, job ∷ [])
enqueue job token_hash (j ∷ jobs) = (err (http 500 "full"), j ∷ jobs)

abbrev request : ProviderLinkRequest
request = record { user_id = 7; recipient = "ann@example.org"; identity = google }

request_link_lem_example :
    Requests pdb ldb tx enqueue hash request "u" 60000
      (tables, [])
      (request_link pdb ldb tx enqueue hash request "u" 60000 (tables, []))
request_link_lem_example = request_link_lem pdb ldb tx enqueue hash request "u" 60000 (tables, [])

abbrev same : Codes → Codes
same s = s

abbrev address : Codes
address = codes "a+b@example.org"

base_runs : base_username_from_email same address ≡ codes "usera"
unfolding base_username_from_email
base_runs = refl

base_username_lem_example :
    (username_min ≤ length (base_username_from_email same address))
    × (length (base_username_from_email same address) ≤ username_max)
    × IsName (base_username_from_email same address)
base_username_lem_example = base_username_lem same address

suffix-short : length (name_suffix 1700000000000 (codes "beef")) ≤ username_max
unfolding decimal
suffix-short = omega arith

abbrev tdb : Delegate RefreshTokenRow clash
tdb = memory clash

abbrev udb : Delegate UserRow user_clash
udb = memory user_clash

abbrev ann : UserRow
ann = record {
  id = 7;
  email = codes "ann@x";
  username = codes "ann";
  password = some (codes "secret");
  image = none;
  bio = none;
  followed_by = [];
}

abbrev accounts : Accounts tdb udb
accounts = record {
  tokens = record { rows = []; next_id = 1 };
  users = record { rows = ann ∷ []; next_id = 8 };
  comparisons = [];
}

abbrev sign : ℕ → String
sign user_id = "jwt"

abbrev draws : Draws
draws = record { checked_at = 10; issued_at = 20; revoked_at = 30; fresh = "r" }

unknown_address :
    (login tdb udb codes_eq same
      (codes "dummy")
      same
      hash
      sign
      30
      (codes "bob@x")
      (codes "secret")
      draws
      accounts).1.comparisons
    ≡ (codes "dummy" ∷ [])
unfolding login
unknown_address = refl

login_lem_example :
    LogsIn tdb udb codes_eq same
      (codes "dummy")
      same
      hash
      sign
      30
      (codes "ann@x")
      (codes "secret")
      draws
      accounts
      (login tdb udb codes_eq same
        (codes "dummy")
        same
        hash
        sign
        30
        (codes "ann@x")
        (codes "secret")
        draws
        accounts)
login_lem_example =
    login_lem tdb udb codes_eq same (codes "dummy") same hash sign 30 (codes "ann@x")
      (codes "secret") draws accounts

abbrev bob : RegisterDto
bob = record { email = codes "bob@x"; username = codes "bob"; password = codes "pw" }

register_lem_example :
    Registers tdb udb codes_eq same
      (codes "dummy")
      same
      hash
      sign
      30
      bob
      draws
      accounts
      (register tdb udb codes_eq same (codes "dummy") same hash sign 30 bob draws accounts)
register_lem_example =
    register_lem tdb udb codes_eq same (codes "dummy") same hash sign 30 bob draws accounts
