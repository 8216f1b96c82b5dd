-- ===== src/Auth/Token/Tests.antt =====
-- The token service on a table in memory: runs, and the theorems at concrete inputs.
use mathlib.Core.List.{Memᴰ}
use realworld_tutorial.Base.{
  ℕ, String, ◌≡◌, refl, ◌≢◌, true, Option, none, some, [], ◌∷◌, arith, str_eq, eq_iff, sym, ◌∙◌,
  http, ok, err, All,
}
use realworld_tutorial.Base.Prisma.{Delegate, Transactor}
use realworld_tutorial.Base.Prisma.Memory.{Table, memory, committing}
use realworld_tutorial.Auth.Token.{
  RefreshTokenRow, TokenPair, clash, Same, Draws, exchange, rotate, revoke,
}
use realworld_tutorial.Auth.Token.Evolution.{Evolves}
use realworld_tutorial.Auth.Token.Exchange.{Exchanged}
use realworld_tutorial.Auth.Token.Requests.{IsUsable}
use realworld_tutorial.Auth.Token.Rotation.{here, next, exchanges, Reaches-Evolves, exchange_once}
use realworld_tutorial.Auth.Token.Refusals.{exchange_refusal, rotate-Exchanged, rotate_reuse}
use realworld_tutorial.Auth.Token.Logout.{IsKeyed, revoke_ends}

abbrev db : Delegate RefreshTokenRow clash
db = memory clash

Same-refl : (s : Table RefreshTokenRow) → Same db s s
Same-refl s = (refl, omega arith)

abbrev tx : Transactor (Table RefreshTokenRow) (Same db)
tx = committing (Same db) Same-refl

-- Any function will do for the digest here.
abbrev hash : String → String
hash raw = raw

abbrev sign : ℕ → String
sign user_id = "jwt"

abbrev token : ℕ → String → Option ℕ → Option ℕ → RefreshTokenRow
token id h revoked replaced = record {
  id = id;
  user_id = 7;
  token_hash = h;
  expires_at = 1000;
  revoked_at = revoked;
  replaced_by_id = replaced;
}

abbrev start : Table RefreshTokenRow
start = record { rows = token 1 "a" none none ∷ token 2 "b" none (some 1) ∷ []; next_id = 3 }

abbrev draws : String → Draws
draws fresh = record { checked_at = 10; issued_at = 20; revoked_at = 30; fresh = fresh }

abbrev pair : String → TokenPair
pair fresh = record { access_token = "jwt"; refresh_token = fresh }

abbrev after_first : Table RefreshTokenRow
after_first = record {
  rows =
      token 1 "a" none (some 3)
      ∷ token 2 "b" none (some 1)
      ∷ record (token 3 "c" none none) { expires_at = 2592000020 }
      ∷ [];
  next_id = 4;
}

first_rotation : rotate db hash sign 30 tx "a" (draws "c") start ≡ (ok (pair "c"), after_first)
unfolding rotate
first_rotation = refl

first_exchange :
    exchange db hash sign 30 tx (token 1 "a" none none) (draws "c") start
    ≡ (ok (pair "c"), after_first)
unfolding exchange
first_exchange = refl

-- The loser of a race is refused, and every session of user 7 has ended.
abbrev after_race : Table RefreshTokenRow
after_race = record {
  rows =
      token 1 "a" (some 30) (some 3)
      ∷ token 2 "b" (some 30) (some 1)
      ∷ record (token 3 "c" (some 30) none) { expires_at = 2592000020 }
      ∷ [];
  next_id = 4;
}

lost_race :
    exchange db hash sign 30 tx (token 1 "a" none none) (draws "d") after_first
    ≡ (err (http 401 "Invalid refresh token"), after_race)
unfolding exchange
lost_race = refl

exchange_once_example :
    exchange db hash sign 30 tx (token 1 "a" none none) (draws "d") after_first
    ≢ (ok (pair "d"), after_first)
exchange_once_example =
    exchange_once db hash sign 30 tx (token 1 "a" none none) (draws "c") (draws "d") start
      after_first after_first (pair "c") (omega arith) first_exchange here (pair "d") after_first

exchange_refusal_example :
    All {A = RefreshTokenRow} (λ r. r.user_id ≡ 7 → r.revoked_at ≢ none) after_race.rows
exchange_refusal_example =
    exchange_refusal db hash sign 30 tx (token 1 "a" none none) (draws "d") after_first 401
      "Invalid refresh token" after_race lost_race

rotate-Exchanged_example :
    (q : RefreshTokenRow) × IsUsable db "a" 10 start q
    × Exchanged db hash sign 30 q (draws "c") start (pair "c") after_first
rotate-Exchanged_example =
    rotate-Exchanged db hash sign 30 tx "a" (draws "c") start (pair "c") after_first first_rotation

a-ne-b : (s : String) → s ≡ "a" → s ≡ "b" → ⊥
a-ne-b s h k = let same : str_eq "a" "b" ≡ true = (eq_iff "a" "b").1 (sym h ∙ k) in cc

start-IsKeyed : IsKeyed db start
start-IsKeyed = (
  ((λ h. refl), ((λ h. absurd (a-ne-b "a" refl h)), tt)),
  (((λ h. absurd (a-ne-b "b" h refl)), ((λ h. refl), tt)), tt),
)

rotate_reuse_example :
    ((p : TokenPair) (t : Table RefreshTokenRow)
      → rotate db hash sign 30 tx "b" (draws "c") start ≢ (ok p, t))
    × ((c : ℕ) (m : String) (t : Table RefreshTokenRow)
        → rotate db hash sign 30 tx "b" (draws "c") start ≡ (err (http c m), t)
        → All (λ r. r.user_id ≡ 7 → r.revoked_at ≢ none) t.rows)
rotate_reuse_example =
    rotate_reuse db hash sign 30 tx "b" (draws "c") start (token 2 "b" none (some 1))
      (Memᴰ.tail (Memᴰ.head refl)) refl ((λ h. absurd (a-ne-b "a" refl h)), ((λ h. refl), tt)) (cc)

Reaches-Evolves_example : Evolves db start after_race
unfolding exchange
Reaches-Evolves_example = Reaches-Evolves db hash sign 30 tx start after_race (
    next (next here (exchanges (token 1 "a" none none) (draws "c") start))
      (exchanges (token 1 "a" none none) (draws "d") after_first))

logged_out :
    revoke db hash "a" 40 start
    ≡ (ok tt, record start { rows = token 1 "a" (some 40) none ∷ token 2 "b" none (some 1) ∷ [] })
unfolding revoke
logged_out = refl

revoke_ends_example :
    All {A = RefreshTokenRow}
      (λ r. r.token_hash ≡ "a" → r.revoked_at ≢ none)
      (token 1 "a" (some 40) none ∷ token 2 "b" none (some 1) ∷ [])
revoke_ends_example =
    revoke_ends db hash "a" 40 start
      (record start { rows = token 1 "a" (some 40) none ∷ token 2 "b" none (some 1) ∷ [] })
      start-IsKeyed logged_out
