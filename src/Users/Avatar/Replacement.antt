-- ===== src/Users/Avatar/Replacement.antt =====
-- What the replacement of an avatar does to the users' rows and to the stored objects, on every outcome.
use mathlib.Core.List.{Memᴰ}
use realworld_tutorial.Base.{
  ℕ, ◌≡◌, refl, sym, ap, subst, ◌⊎◌, inl, inr, Bool, true, false, Option, none, some, map, ◌==◌,
  All-mem, ◌++◌, Codes, codes, Exception, Outcome, ok, err, M, pure, throw, reads, catch_with,
  ◌>>=◌, ◌>>◌, lift_fst, lift_fst-eq,
}
use realworld_tutorial.Base.Decimal.{decimal}
use realworld_tutorial.Base.Prisma.{Delegate, Transactor, Finds, UpdatesOne, patch}
use realworld_tutorial.Base.Prisma.Commits.{transact-eq-ok, transact-eq-err}
use realworld_tutorial.Users.{UserRow, user_clash}
use realworld_tutorial.Users.Avatar.{
  ProcessedImage, build_storage_key, upload_failed, image_of, with_image, SameUsers, lock_image,
  update_user, swap_image, atomic_update_avatar, cleanup_failed_upload, cleanup_previous_avatar,
  finish_swap, store_image, replace_avatar, deletion_failed,
}

module _ (udb : Delegate UserRow user_clash) (id : ℕ) (set : UserRow → UserRow)
    (image : Option Codes) (s : udb.Store) where
  -- What `set` makes of a row, with the new image.
  abbrev pub renewed : UserRow → UserRow
  renewed r = record (set r) { image = image }

  -- The rows after the image was exchanged, with the user's row that is answered, and the image that
  -- was there before.
  abbrev pub Swaps : Outcome (UserRow × Option Codes) × udb.Store → Type 0
  Swaps (ok (u, previous), t) =
      (udb.rows t ≡ map (patch (λ u. u.id == id) renewed) (udb.rows s))
      × ((r : UserRow) × Memᴰ r (udb.rows s) × ((r.id == id) ≡ true) × (u ≡ renewed r))
      × ((q : UserRow) × Memᴰ q (udb.rows s) × ((q.id == id) ≡ true) × (previous ≡ q.image))
  Swaps (err e, t) = udb.rows t ≡ udb.rows s

  updated-Swaps :
      (o : Option UserRow)
      → Finds (λ u. u.id == id) (udb.rows s) (ok o)
      → (x : Outcome UserRow × udb.Store)
      → UpdatesOne (λ u. u.id == id) (with_image set image) (udb.rows s) x.0 (udb.rows x.1)
      → Swaps (((λ (_ : udb.Store). x) >>= λ u. pure (u, image_of o)) s)
  updated-Swaps none f (err e, t) (d, same) = same
  updated-Swaps none f (ok u, t) (q, m, e, is, listing) =
      let missed : (q.id == id) ≡ false = All-mem (λ u. (u.id == id) ≡ false) (udb.rows s) q f m in
      absurd (apart (q.id == id) e missed)
    where
      apart : (b : Bool) → b ≡ true → b ≡ false → ⊥
      apart b p r = cc
  updated-Swaps (some p) f (err e, t) (d, same) = same
  updated-Swaps (some p) f (ok u, t) (q, m, e, is, listing) =
      (listing, (q, m, e, is), (p, f.0, f.1, refl))

  pub swap_image-Swaps : Swaps (swap_image udb id set image s)
  unfolding swap_image lock_image update_user
  swap_image-Swaps =
      go (udb.find_first (λ u. u.id == id) s) (udb.find_first_lem (λ u. u.id == id) s)
    where
      go :
          (x : Outcome (Option UserRow))
          → Finds (λ u. u.id == id) (udb.rows s) x
          → Swaps (
              (((λ (_ : udb.Store). (x, s)) >>= λ found. pure (image_of found)) >>= λ previous.
              update_user udb id (with_image set image) >>= λ user. pure (user, previous))
                s)
      go (err e) f = refl
      go (ok o) f =
          updated-Swaps o f (udb.update (λ u. u.id == id) (with_image set image) s)
            ((udb.update_lem (λ u. u.id == id) (with_image set image) s).0)

module _ (udb : Delegate UserRow user_clash) (tx : Transactor udb.Store (SameUsers udb))
    {O : Type 0} (put : Codes → Codes → M O (Unit {0})) (del : Codes → M O (Unit {0})) where
  pub atomic-Swaps :
      (id : ℕ) (set : UserRow → UserRow) (image : Option Codes) (s : udb.Store)
      → Swaps udb id set image s (atomic_update_avatar udb tx put del id set image s)
  atomic-Swaps id set image s =
      go (tx.transact (Unit {0}) (UserRow × Option Codes) body (s, tt)) refl
    where
      body : M (udb.Store × Unit {0}) (UserRow × Option Codes)
      body = lift_fst (swap_image udb id set image)

      go :
          (x : Outcome (UserRow × Option Codes) × (udb.Store × Unit {0}))
          → tx.transact (Unit {0}) (UserRow × Option Codes) body (s, tt) ≡ x
          → Swaps udb id set image s (x.0, x.1.0)
      go (ok a, (t, _)) e =
          let (ran, _) =
            lift_fst-eq (swap_image udb id set image) (s, tt) (ok a) (t, tt)
              (transact-eq-ok tx body s tt a (t, tt) e) in
          subst (Swaps udb id set image s) ran (swap_image-Swaps udb id set image s)
      go (err x, (t, _)) e = (transact-eq-err tx body s tt x (t, tt) e).0

  -- The objects after the deletion of the previous image was tried, where there is one.
  abbrev pub Cleans : Option Codes → O → O → Type 0
  Cleans none o o' = o' ≡ o
  Cleans (some key) o o' = o' ≡ (del key o).1

  pub cleanup-Cleans :
      (previous : Option Codes) (s : udb.Store) (o : O)
      → (o' : O) × (cleanup_previous_avatar udb tx put del previous (s, o) ≡ (ok tt, (s, o')))
        × Cleans previous o o'
  cleanup-Cleans none s o = (o, refl, refl)
  cleanup-Cleans (some key) s o = ((del key o).1, go (del key o), refl)
    where
      go :
          (x : Outcome (Unit {0}) × O)
          → ◌≡◌ {A = Outcome (Unit {0}) × (udb.Store × O)}
              (catch_with
                (catch_with (λ (v : udb.Store × O). (x.0, (v.0, x.1))) (λ _. throw deletion_failed))
                (λ _. pure tt)
                (s, o))
              (ok tt, (s, x.1))
      go (ok _, o') = refl
      go (err e, o') = refl

  module _ (lower : Codes → Codes) (process : Outcome ProcessedImage) (uuid : Codes) (id : ℕ)
      (set : UserRow → UserRow) (s : udb.Store × O) where
    -- What the replacement of an avatar has done when it ends in a certain way.
    abbrev pub Replaces : Outcome UserRow × (udb.Store × O) → Type 0
    Replaces (ok u, t) =
        (p : ProcessedImage) × (key : Codes) × (o : O) × (previous : Option Codes) × (process
          ≡ ok p)
        × (build_storage_key lower uuid (codes "avatars/" ++ decimal id) p.extension ≡ ok key)
        × (put key p.data' s.1 ≡ (ok tt, o))
        × Swaps udb id set (some key) s.0 (ok (u, previous), t.0)
        × Cleans previous o t.1
    Replaces (err e, t) =
        (udb.rows t.0 ≡ udb.rows s.0)
        × ((t.1 ≡ s.1)
            ⊎ ((p : ProcessedImage) × (key : Codes) × ((t.1 ≡ (put key p.data' s.1).1)
                    × (e ≡ upload_failed)
                  ⊎ ((o : O) × (put key p.data' s.1 ≡ (ok tt, o)) × (t.1 ≡ (del key o).1)))))

    module _ (p : ProcessedImage) (key : Codes) (processed : process ≡ ok p)
        (built : build_storage_key lower uuid (codes "avatars/" ++ decimal id) p.extension
          ≡ ok key) where
      finished :
          (o : O)
          → put key p.data' s.1 ≡ (ok tt, o)
          → (u : UserRow) (previous : Option Codes) (t : udb.Store)
          → Swaps udb id set (some key) s.0 (ok (u, previous), t)
          → Replaces (finish_swap udb tx put del (u, previous) (t, o))
      finished o stored u previous t h =
          let (o', ran, cleans) = cleanup-Cleans previous t o in
          subst
            (λ (x : Outcome (Unit {0}) × (udb.Store × O)).
              Replaces (((λ (_ : udb.Store × O). x) >> pure u) (t, o)))
            (sym ran) (p, key, o, previous, processed, built, stored, h, cleans)

      undone :
          (o : O)
          → put key p.data' s.1 ≡ (ok tt, o)
          → (e : Exception) (t : udb.Store) → udb.rows t ≡ udb.rows s.0
          → Replaces (
              (((cleanup_failed_upload udb tx put del key >> throw {A = UserRow × Option Codes} e))
                  >>= finish_swap udb tx put del)
                (t, o))
      undone o stored e t same =
          let (o', ran, cleans) = cleanup-Cleans (some key) t o in
          subst
            (λ (x : Outcome (Unit {0}) × (udb.Store × O)). Replaces (
              (((λ (_ : udb.Store × O). x) >> throw {A = UserRow × Option Codes} e)
                  >>= finish_swap udb tx put del)
                (t, o)))
            (sym ran) (same, inr (p, key, inr (o, stored, cleans)))

      swapped :
          (o : O)
          → put key p.data' s.1 ≡ (ok tt, o)
          → (x : Outcome (UserRow × Option Codes) × udb.Store) → Swaps udb id set (some key) s.0 x
          → Replaces (
              (catch_with
                    (λ (v : udb.Store × O). (x.0, (x.1, v.1)))
                    (λ e. cleanup_failed_upload udb tx put del key >> throw e)
                  >>= finish_swap udb tx put del)
                (s.0, o))
      swapped o stored (ok (u, previous), t) h = finished o stored u previous t h
      swapped o stored (err e, t) h = undone o stored e t h

      stored-Replaces : Replaces (store_image udb tx put del lower id set p key s)
      stored-Replaces = go (put key p.data' s.1) refl
        where
          rest : Unit {0} → M (udb.Store × O) UserRow
          rest _ =
              catch_with (lift_fst (atomic_update_avatar udb tx put del id set (some key)))
                (λ e. cleanup_failed_upload udb tx put del key >> throw e)
              >>= finish_swap udb tx put del

          go :
              (x : Outcome (Unit {0}) × O)
              → put key p.data' s.1 ≡ x
              → Replaces (
                  (catch_with (λ (v : udb.Store × O). (x.0, (v.0, x.1))) (λ _. throw upload_failed)
                      >>= rest)
                    s)
          go (ok _, o) e =
              swapped o e (atomic_update_avatar udb tx put del id set (some key) s.0)
                (atomic-Swaps id set (some key) s.0)
          go (err y, o) e =
              (refl, inr (p, key, inl (ap (λ (x : Outcome (Unit {0}) × O). x.1) (sym e), refl)))

    -- A replacement that answers has uploaded the processed image under a new key, has written that key
    -- to the user's row, with what else the request sets, and has then tried to delete the object of the
    -- image that was there before; it answers with the row as it was written. One that throws has left all rows as they were, and it has either
    -- stored nothing, or failed in the upload with a 502, or tried to delete what it had uploaded.
    pub replace_avatar_lem : Replaces (replace_avatar udb tx put del lower process uuid id set s)
    unfolding replace_avatar
    replace_avatar_lem = go process refl
      where
        rest : ProcessedImage → M (udb.Store × O) UserRow
        rest p =
            reads (λ _. build_storage_key lower uuid (codes "avatars/" ++ decimal id) p.extension)
            >>= λ key. store_image udb tx put del lower id set p key

        keyed :
            (p : ProcessedImage)
            → process ≡ ok p
            → (y : Outcome Codes)
            → build_storage_key lower uuid (codes "avatars/" ++ decimal id) p.extension ≡ y
            → Replaces (
                ((λ (v : udb.Store × O). (y, v)) >>= λ key.
                store_image udb tx put del lower id set p key)
                  s)
        keyed p e (ok key) b = stored-Replaces p key e b
        keyed p e (err x) b = (refl, inl refl)

        go :
            (x : Outcome ProcessedImage)
            → process ≡ x
            → Replaces (((λ (v : udb.Store × O). (x, v)) >>= rest) s)
        go (ok p) e =
            keyed p e (build_storage_key lower uuid (codes "avatars/" ++ decimal id) p.extension)
              refl
        go (err y) e = (refl, inl refl)
