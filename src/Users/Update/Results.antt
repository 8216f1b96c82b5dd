-- ===== src/Users/Update/Results.antt =====
-- What the update of a profile does to the users' rows and to the stored objects, on every outcome.
use mathlib.Core.List.{Memᴰ}
use realworld_tutorial.Base.{
  ℕ, ◌≡◌, refl, sym, subst, ◌⊎◌, inl, inr, Bool, true, false, Option, none, some, [], ◌∷◌, ◌==◌,
  All, if◌then◌else◌, Codes, Exception, Outcome, ok, err, M, pure, throw_if, ◌>>=◌, lift_fst,
}
use realworld_tutorial.Base.Prisma.{Delegate, Transactor, Finds, UpdatesOne}
use realworld_tutorial.Users.{UserRow, user_clash}
use realworld_tutorial.Users.Avatar.{
  ProcessedImage, SameUsers, update_user, atomic_update_avatar, finish_swap, clear_avatar,
}
use realworld_tutorial.Users.Avatar.Replacement.{
  Swaps, Cleans, Replaces, atomic-Swaps, cleanup-Cleans, replace_avatar_lem,
}
use realworld_tutorial.Auth.Accounts.{is_present}
use realworld_tutorial.Users.Update.{
  UserResponse, UpdateUserDto, username_in_use, update_data, user_response, has_name_of,
  check_username, or_old, write_update, update_profile, find_by_username_excluding,
}

-- A field after an update: it is the value that is sent, or the old one if none is.
abbrev pub IsSent {ℓ} : {A : Type ℓ} → Option A → A → A → Type ℓ
IsSent none old new = new ≡ old
IsSent (some x) old new = new ≡ x

or_old-IsSent {ℓ} : {A : Type ℓ} (o : Option A) (old : A) → IsSent o old (or_old old o)
or_old-IsSent none old = refl
or_old-IsSent (some x) old = refl

-- A row after an update, but for its image.
pub record IsUpdated (dto : UpdateUserDto) (r u : UserRow) : Type 0 where
  pub same_id : u.id ≡ r.id
  pub same_email : u.email ≡ r.email
  pub same_password : u.password ≡ r.password
  pub username_sent : IsSent dto.username r.username u.username
  pub bio_sent : IsSent dto.bio r.bio u.bio

update_data-IsUpdated :
    (dto : UpdateUserDto) (r : UserRow) (image : Option Codes)
    → IsUpdated dto r (record (update_data dto r) { image = image })
update_data-IsUpdated dto r image = record {
  same_id = refl;
  same_email = refl;
  same_password = refl;
  username_sent = or_old-IsSent dto.username r.username;
  bio_sent = or_old-IsSent dto.bio r.bio;
}

module _ (udb : Delegate UserRow user_clash) (url : Codes → Codes)
    (tx : Transactor udb.Store (SameUsers udb)) {O : Type 0} (put : Codes → Codes → M O (Unit {0}))
    (del : Codes → M O (Unit {0})) (lower : Codes → Codes) (id : ℕ) (dto : UpdateUserDto)
    (s : udb.Store × O) where
  -- No other user has the name that is asked for.
  abbrev pub NameIsFree : Option Codes → Type 0
  NameIsFree none = Unit
  NameIsFree (some []) = Unit
  NameIsFree (some (c ∷ name)) = All (λ u. has_name_of (c ∷ name) id u ≡ false) (udb.rows s.0)

  -- What clearing the avatar has done when it ends in a certain way.
  abbrev pub Clears : Outcome UserRow × (udb.Store × O) → Type 0
  Clears (ok u, t) =
      (previous : Option Codes) × Swaps udb id (update_data dto) none s.0 (ok (u, previous), t.0)
      × Cleans udb tx put del previous s.1 t.1
  Clears (err e, t) = (udb.rows t.0 ≡ udb.rows s.0) × (t.1 ≡ s.1)

  abbrev pub Patches : Outcome UserRow × (udb.Store × O) → Type 0
  Patches (r, t) =
      UpdatesOne (λ u. u.id == id) (update_data dto) (udb.rows s.0) r (udb.rows t.0) × (t.1 ≡ s.1)

  -- What writing an update has done: a new avatar, none any more, or the one that was there.
  abbrev pub Writes :
      Option (Outcome ProcessedImage × Codes) → Outcome UserRow × (udb.Store × O) → Type 0
  Writes (some (process, uuid)) x =
      Replaces udb tx put del lower process uuid id (update_data dto) s x
  Writes none x = if dto.clears_image then Clears x else Patches x

  clear_avatar-Clears : Clears (clear_avatar udb tx put del id (update_data dto) s)
  unfolding clear_avatar
  clear_avatar-Clears =
      go (atomic_update_avatar udb tx put del id (update_data dto) none s.0)
        (atomic-Swaps udb tx put del id (update_data dto) none s.0)
    where
      go :
          (x : Outcome (UserRow × Option Codes) × udb.Store)
          → Swaps udb id (update_data dto) none s.0 x
          → Clears (((λ (v : udb.Store × O). (x.0, (x.1, v.1))) >>= finish_swap udb tx put del) s)
      go (ok (u, previous), t) h =
          let (o, ran, cleans) = cleanup-Cleans udb tx put del previous t s.1 in
          subst
            (λ (x : Outcome (Unit {0}) × (udb.Store × O)).
              Clears (((λ (_ : udb.Store × O). x) >>= λ _. pure u) (t, s.1)))
            (sym ran) (previous, h, cleans)
      go (err e, t) h = (h, refl)

  write_update-Writes :
      (file : Option (Outcome ProcessedImage × Codes))
      → Writes file (write_update udb url tx put del lower id dto file s)
  unfolding update_user
  write_update-Writes (some (process, uuid)) =
      replace_avatar_lem udb tx put del lower process uuid id (update_data dto) s
  write_update-Writes none = split dto.clears_image
    where
      call : Bool → Outcome UserRow × (udb.Store × O)
      call b =
          (if b
              then clear_avatar udb tx put del id (update_data dto)
              else lift_fst (update_user udb id (update_data dto)))
            s

      split : (b : Bool) → if b then Clears (call b) else Patches (call b)
      split true = clear_avatar-Clears
      split false = ((udb.update_lem (λ u. u.id == id) (update_data dto) s.0).0, refl)

  -- A write that throws has changed no row.
  Writes-err :
      (file : Option (Outcome ProcessedImage × Codes)) (e : Exception) (t : udb.Store × O)
      → Writes file (err e, t)
      → udb.rows t.0 ≡ udb.rows s.0
  Writes-err (some (process, uuid)) e t h = h.0
  Writes-err none e t h = split dto.clears_image h
    where
      split :
          (b : Bool)
          → (if b then Clears (err e, t) else Patches (err e, t))
          → udb.rows t.0 ≡ udb.rows s.0
      split true k = k.0
      split false k = k.0.1

  -- The row that is answered comes from a row with the id.
  abbrev pub FromRow : UserRow → Type 0
  FromRow u = (r : UserRow) × Memᴰ r (udb.rows s.0) × ((r.id == id) ≡ true) × IsUpdated dto r u

  from_row :
      (image : UserRow → Option Codes) (u r : UserRow)
      → Memᴰ r (udb.rows s.0)
      → (r.id == id) ≡ true
      → u ≡ record (update_data dto r) { image = image r }
      → FromRow u
  from_row image u r m e is =
      (r, m, e, subst (IsUpdated dto r) (sym is) (update_data-IsUpdated dto r (image r)))

  Writes-FromRow :
      (file : Option (Outcome ProcessedImage × Codes)) (u : UserRow) (t : udb.Store × O)
      → Writes file (ok u, t)
      → FromRow u
  Writes-FromRow (some (process, uuid)) u t
        (p, key, o, previous, processed, built, stored, (rows, (r, m, e, is), q), cleans) =
      from_row (λ _. some key) u r m e is
  Writes-FromRow none u t h = split dto.clears_image h
    where
      split : (b : Bool) → (if b then Clears (ok u, t) else Patches (ok u, t)) → FromRow u
      split true (previous, (rows, (r, m, e, is), q), cleans) = from_row (λ _. none) u r m e is
      split false ((r, m, e, is, rows), same) =
          from_row (λ r. if dto.clears_image then none else r.image) u r m e is

  -- What an update that ends in a certain way has done.
  abbrev pub UpdatesProfile :
      Option (Outcome ProcessedImage × Codes) → Outcome UserResponse × (udb.Store × O) → Type 0
  UpdatesProfile file (ok resp, t) =
      NameIsFree dto.username
      × ((u : UserRow) × Writes file (ok u, t) × FromRow u × (resp ≡ user_response url u))
  UpdatesProfile file (err e, t) =
      (udb.rows t.0 ≡ udb.rows s.0) × ((t ≡ s) ⊎ (NameIsFree dto.username × Writes file (err e, t)))

  written :
      (file : Option (Outcome ProcessedImage × Codes))
      → NameIsFree dto.username
      → UpdatesProfile file (
          (write_update udb url tx put del lower id dto file >>= λ user.
          pure (user_response url user))
            s)
  written file free =
      go (write_update udb url tx put del lower id dto file s) (write_update-Writes file)
    where
      go :
          (x : Outcome UserRow × (udb.Store × O))
          → Writes file x
          → UpdatesProfile file
              (((λ (_ : udb.Store × O). x) >>= λ user. pure (user_response url user)) s)
      go (ok u, t) h = (free, (u, h, Writes-FromRow file u t h, refl))
      go (err e, t) h = (Writes-err file e t h, inr (free, h))

  -- An update that answers has found that no other user has the name that it sets, where it sets one
  -- that is not empty, and answers with the user's row as it was written, its name and bio as far as
  -- they were sent and its address, password and id as they were: with a new avatar that was
  -- uploaded before, or with none where the request clears it, the object of the old one being deleted
  -- as far as the storage allows, or with the avatar that was there. One that throws has changed no
  -- row, and no object either but for what a failed replacement of the avatar leaves.
  pub update_profile_lem :
      (file : Option (Outcome ProcessedImage × Codes))
      → UpdatesProfile file (update_profile udb url tx put del lower id dto file s)
  unfolding update_profile find_by_username_excluding
  update_profile_lem file = checked dto.username (written file)
    where
      rest : Unit {0} → M (udb.Store × O) UserResponse
      rest _ = write_update udb url tx put del lower id dto file >>= λ user.
          pure (user_response url user)

      looked_up :
          (c : ℕ) (name : Codes)
          → (All (λ u. has_name_of (c ∷ name) id u ≡ false) (udb.rows s.0)
              → UpdatesProfile file (rest tt s))
          → (x : Outcome (Option UserRow)) → Finds (has_name_of (c ∷ name) id) (udb.rows s.0) x
          → UpdatesProfile file (
              (lift_fst
                    ((λ (_ : udb.Store). (x, s.0)) >>= λ o. throw_if (is_present o) username_in_use)
                  >>= rest)
                s)
      looked_up c name k (ok none) h = k h
      looked_up c name k (ok (some u)) h = (refl, inl refl)
      looked_up c name k (err e) h = (refl, inl refl)

      checked :
          (o : Option Codes)
          → (NameIsFree o → UpdatesProfile file (rest tt s))
          → UpdatesProfile file ((lift_fst (check_username udb url id o) >>= rest) s)
      checked none k = k tt
      checked (some []) k = k tt
      checked (some (c ∷ name)) k =
          looked_up c name k (udb.find_first (has_name_of (c ∷ name) id) s.0)
            (udb.find_first_lem (has_name_of (c ∷ name) id) s.0)
