-- ===== src/Auth/Accounts/Login.antt =====
-- What a login does, on every outcome.
use mathlib.Core.List.{Memᴰ}
use realworld_tutorial.Base.{
  ℕ, String, ◌≡◌, refl, ◌⊎◌, inl, inr, Bool, true, false, Option, none, some, append_one,
  Bool-cases, Codes, codes_eq, codes_eq_iff, Outcome, ok, err, M, pure, ◌>>=◌,
}
use realworld_tutorial.Base.Prisma.{Delegate, Finds}
use realworld_tutorial.Users.{UserRow, user_clash}
use realworld_tutorial.Auth.Token.{RefreshTokenRow, TokenPair, clash, Draws, issue_tokens}
use realworld_tutorial.Auth.Accounts.{
  AuthResponse, Accounts, session_response, or_dummy, accept_hash, hash_to_compare, start_session,
  accept, login, invalid_credentials, compare_with, find_by_email,
}

module _ (tdb : Delegate RefreshTokenRow clash) (udb : Delegate UserRow user_clash)
    (compare_password : Codes → Codes → Bool) (hash_password : Codes → Codes) (dummy : Codes)
    (url : Codes → Codes) (hash : String → String) (sign : ℕ → String) (ttl_days : ℕ)
    (email password : Codes) (d : Draws) (s : Accounts tdb udb) where
  -- A user with the address and a hash that the password matches.
  pub record Knows (u : UserRow) : Type 0 where
    pub present : Memᴰ u (udb.rows s.users)
    pub addressed : u.email ≡ email
    pub hashed : Codes
    pub has_password : u.password ≡ some hashed
    pub matches : compare_password password hashed ≡ true

  -- What the query for the address has answered.
  abbrev query : Outcome (Option UserRow)
  query = udb.find_first (λ u. codes_eq u.email email) s.users

  -- The hash that the password is compared with: the user's, or else the dummy.
  abbrev pub IsCompared : Option UserRow → Codes → Type 0
  IsCompared none h = h ≡ dummy
  IsCompared (some u) h = (u.password ≡ some h) ⊎ ((u.password ≡ none) × (h ≡ dummy))

  -- One comparison was made, with the hash that the answer of the query calls for.
  abbrev pub ComparesOnce : Option UserRow → Accounts tdb udb → Type 0
  ComparesOnce user t =
      (query ≡ ok user)
      × ((h : Codes) × IsCompared user h × (t.comparisons ≡ append_one s.comparisons h))

  -- There is no such user, or none with a password, or its hash does not match.
  abbrev pub IsRefused : Option UserRow → Type 0
  IsRefused none = Unit
  IsRefused (some u) =
      (u.password ≡ none)
      ⊎ ((h : Codes) × (u.password ≡ some h) × (compare_password password h ≡ false))

  -- What a login that ends in a certain way has done.
  abbrev pub LogsIn : Outcome AuthResponse × Accounts tdb udb → Type 0
  LogsIn (ok resp, t) =
      (u : UserRow) × Knows u
      × (issue_tokens tdb hash sign ttl_days u.id d s.tokens ≡ (ok resp.tokens, t.tokens))
      × (resp ≡ session_response url u resp.tokens)
      × (t.users ≡ s.users)
      × ComparesOnce (some u) t
  LogsIn (err e, t) =
      ((query ≡ err e) × (t ≡ s))
      ⊎ ((user : Option UserRow) × (t.users ≡ s.users)
          × ComparesOnce user t
          × (((e ≡ invalid_credentials) × (t.tokens ≡ s.tokens) × IsRefused user)
              ⊎ ((u : UserRow) × (user ≡ some u)
                  × Knows u
                  × (issue_tokens tdb hash sign ttl_days u.id d s.tokens ≡ (err e, t.tokens)))))

  abbrev noted : Codes → Accounts tdb udb
  noted h = record s { comparisons = append_one s.comparisons h }

  started :
      (u : UserRow)
      → query ≡ ok (some u)
      → (k : Knows u)
      → LogsIn (
          start_session tdb udb compare_password hash_password dummy url hash sign ttl_days u d
            (noted k.hashed))
  started u f k = go (issue_tokens tdb hash sign ttl_days u.id d s.tokens) refl
    where
      go :
          (x : Outcome TokenPair × tdb.Store)
          → issue_tokens tdb hash sign ttl_days u.id d s.tokens ≡ x
          → LogsIn (
              ((λ (_ : Accounts tdb udb). (x.0, record (noted k.hashed) { tokens = x.1 }))
                  >>= λ tokens. pure (session_response url u tokens))
                (noted k.hashed))
      go (ok tokens, t) e = (u, k, e, refl, refl, (f, (k.hashed, inl k.has_password, refl)))
      go (err x, t) e =
          inr (some u, refl, (f, (k.hashed, inl k.has_password, refl)), inr (u, refl, k, e))

  -- A refusal after the comparison that was called for.
  refused :
      (user : Option UserRow) (h : Codes)
      → query ≡ ok user
      → IsCompared user h
      → IsRefused user
      → LogsIn (err invalid_credentials, noted h)
  refused user h f c r = inr (user, refl, (f, (h, c, refl)), inl (refl, refl, r))

  accepted :
      (u : UserRow)
      → query ≡ ok (some u)
      → Memᴰ u (udb.rows s.users)
      → codes_eq u.email email ≡ true
      → (o : Option Codes) → u.password ≡ o
      → LogsIn (
          accept_hash tdb udb compare_password hash_password dummy url hash sign ttl_days d u o
            (compare_password password (or_dummy dummy o))
            (noted (or_dummy dummy o)))
  accepted u f m e none p = refused (some u) dummy f (inr (p, refl)) (inl p)
  accepted u f m e (some h) p = elim (Bool-cases (compare_password password h)) [
    | inr b ↦ rw b (refused (some u) h f (inl p) (inr (h, p, b)))
    | inl b ↦ rw b (
        started u f (record {
          present = m;
          addressed = (codes_eq_iff u.email email).0 e;
          hashed = h;
          has_password = p;
          matches = b;
        }))
  ]

  -- A login that answers has found the user with the address, whose stored hash the password matches,
  -- and has issued the tokens of that user, with which it answers. Every login whose query was answered
  -- has made one comparison, with the stored hash of the user that the query gave, or with the dummy
  -- hash where there is no user or no password, whether or not it answers. One that throws has passed
  -- on the error of the query and changed nothing, or has thrown the one 401 and left the tokens, for
  -- no user, no password or no match, or has failed to issue the tokens of a user that it had accepted.
  -- A login leaves the users as they were.
  pub login_lem :
      LogsIn (
        login tdb udb compare_password hash_password dummy url hash sign ttl_days email password d
          s)
  unfolding login find_by_email
  login_lem =
      go (udb.find_first (λ u. codes_eq u.email email) s.users) refl
        (udb.find_first_lem (λ u. codes_eq u.email email) s.users)
    where
      rest : Option UserRow → M (Accounts tdb udb) AuthResponse
      rest user =
          compare_with tdb udb compare_password hash_password dummy url hash sign ttl_days password
            (hash_to_compare dummy user)
          >>= accept tdb udb compare_password hash_password dummy url hash sign ttl_days d user

      go :
          (x : Outcome (Option UserRow))
          → query ≡ x
          → Finds (λ u. codes_eq u.email email) (udb.rows s.users) x
          → LogsIn (((λ (_ : Accounts tdb udb). (x, s)) >>= rest) s)
      go (err e) f h = inl (f, refl)
      go (ok none) f h = refused none dummy f refl tt
      go (ok (some u)) f (m, e) = accepted u f m e u.password refl
