-- ===== src/Auth/Accounts/Register.antt =====
-- What a registration does, on every outcome.
use realworld_tutorial.Base.{
  ℕ, String, ◌≡◌, refl, sym, ap, ◌∙◌, ◌⊎◌, inl, inr, Bool, false, Option, none, some, append_one,
  All, Codes, codes_eq, Outcome, ok, err, M, pure, throw_if, ◌>>=◌,
}
use realworld_tutorial.Base.Prisma.{Delegate, Creates}
use realworld_tutorial.Users.{UserRow, user_clash}
use realworld_tutorial.Auth.Token.{RefreshTokenRow, TokenPair, clash, Draws, issue_tokens}
use realworld_tutorial.Auth.Accounts.{
  AuthResponse, RegisterDto, Accounts, session_response, new_user, start_session, register,
  find_by_email, find_by_username, is_present, email_exists, username_exists, on_users,
}

module _ (tdb : Delegate RefreshTokenRow clash) (udb : Delegate UserRow user_clash)
    (compare_password : Codes → Codes → Bool) (hash_password : Codes → Codes) (dummy : Codes)
    (url : Codes → Codes) (hash : String → String) (sign : ℕ → String) (ttl_days : ℕ)
    (dto : RegisterDto) (d : Draws) (s : Accounts tdb udb) where
  -- The user who is added: the row is the one that was asked for, behind the others, and shares its
  -- address and its name with none of them.
  pub record Added (u : UserRow) (t : Accounts tdb udb) : Type 0 where
    pub row : u ≡ new_user dto (hash_password dto.password) u.id
    pub listing : udb.rows t.users ≡ append_one (udb.rows s.users) u
    pub free : All (λ q. user_clash q u ≡ false) (udb.rows s.users)

  -- What a registration that ends in a certain way has done.
  abbrev pub Registers : Outcome AuthResponse × Accounts tdb udb → Type 0
  Registers (ok resp, t) =
      (u : UserRow) × Added u t
      × (issue_tokens tdb hash sign ttl_days u.id d s.tokens ≡ (ok resp.tokens, t.tokens))
      × (resp ≡ session_response url u resp.tokens)
  Registers (err e, t) =
      ((udb.rows t.users ≡ udb.rows s.users) × (t.tokens ≡ s.tokens))
      ⊎ ((u : UserRow) × Added u t
          × (issue_tokens tdb hash sign ttl_days u.id d s.tokens ≡ (err e, t.tokens)))

  abbrev with_users : udb.Store → Accounts tdb udb
  with_users t = record s { users = t }

  started :
      (u : UserRow) (t : udb.Store)
      → Added u (with_users t)
      → Registers (
          start_session tdb udb compare_password hash_password dummy url hash sign ttl_days u d
            (with_users t))
  started u t added = go (issue_tokens tdb hash sign ttl_days u.id d s.tokens) refl
    where
      go :
          (x : Outcome TokenPair × tdb.Store)
          → issue_tokens tdb hash sign ttl_days u.id d s.tokens ≡ x
          → Registers (
              ((λ (_ : Accounts tdb udb). (x.0, record (with_users t) { tokens = x.1 }))
                  >>= λ tokens. pure (session_response url u tokens))
                (with_users t))
      go (ok tokens, t') e = (u, added', e, refl)
        where
          added' : Added u (record (with_users t) { tokens = t' })
          added' = record { row = added.row; listing = added.listing; free = added.free }
      go (err x, t') e =
          inr (u, record { row = added.row; listing = added.listing; free = added.free }, e)

  created :
      (x : Outcome UserRow × udb.Store)
      → Creates user_clash
          (new_user dto (hash_password dto.password))
          (udb.next_id s.users)
          (udb.rows s.users)
          x.0
          (udb.next_id x.1)
          (udb.rows x.1)
      → Registers (
          ((λ (_ : Accounts tdb udb). (x.0, with_users x.1)) >>= λ u.
          start_session tdb udb compare_password hash_password dummy url hash sign ttl_days u d)
            s)
  created (err e, t) (p, le, same) = inl (same, refl)
  created (ok u, t) (i, lo, hi, is, listing, free) =
      let numbered : u.id ≡ i = ap (λ (r : UserRow). r.id) is in
      started u t (record {
        row = is ∙ ap (new_user dto (hash_password dto.password)) (sym numbered);
        listing = listing;
        free = free;
      })

  -- A registration that answers has added the user, with the address, the name and the hash of the
  -- password, behind the other users, none of whom has that address or that name, and answers with
  -- tokens that were issued to that user. One that throws has changed nothing, or it has added the
  -- user and then failed to issue the tokens.
  pub register_lem :
      Registers
        (register tdb udb compare_password hash_password dummy url hash sign ttl_days dto d s)
  unfolding register find_by_email find_by_username
  register_lem = by_email (udb.find_first (λ u. codes_eq u.email dto.email) s.users)
    where
      create_user : M (Accounts tdb udb) AuthResponse
      create_user =
          on_users tdb udb (udb.create (new_user dto (hash_password dto.password))) >>= λ u.
          start_session tdb udb compare_password hash_password dummy url hash sign ttl_days u d

      named : Option UserRow → M (Accounts tdb udb) AuthResponse
      named o = throw_if (is_present o) username_exists >>= λ _. create_user

      by_username :
          (x : Outcome (Option UserRow))
          → Registers (((λ (_ : Accounts tdb udb). (x, s)) >>= named) s)
      by_username (err e) = inl (refl, refl)
      by_username (ok (some u)) = inl (refl, refl)
      by_username (ok none) =
          created (udb.create (new_user dto (hash_password dto.password)) s.users)
            (udb.create_lem (new_user dto (hash_password dto.password)) s.users)

      addressed : Option UserRow → M (Accounts tdb udb) AuthResponse
      addressed o = throw_if (is_present o) email_exists >>= λ _.
          find_by_username tdb udb dto.username >>= named

      by_email :
          (x : Outcome (Option UserRow))
          → Registers (((λ (_ : Accounts tdb udb). (x, s)) >>= addressed) s)
      by_email (err e) = inl (refl, refl)
      by_email (ok (some u)) = inl (refl, refl)
      by_email (ok none) =
          by_username (udb.find_first (λ u. codes_eq u.username dto.username) s.users)
