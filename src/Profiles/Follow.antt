-- ===== src/Profiles/Follow.antt =====
-- What following a user does to the users' rows, on every outcome.
use mathlib.Core.List.{Memᴰ}
use realworld_tutorial.Base.{
  ℕ, ◌≡◌, refl, sym, ap, subst, ◌≢◌, ◌⊎◌, inl, inr, Bool, true, false, map, arith, ◌==◌, Bool-cases,
  Codes, Exception, Outcome, ok, err, M, pure, throw_if, ◌>>=◌, ◌>>◌, >>=-cases,
}
use realworld_tutorial.Base.Prisma.{Delegate, patch}
use realworld_tutorial.Users.{UserRow, user_clash}
use realworld_tutorial.Profiles.{
  ProfileResponse, profile_response, follow_self, connect_follower, is_followed_by, is_following,
  follow, require_profile, follow_unless, follow_user,
}
use realworld_tutorial.Profiles.Edges.{
  Named, Says, Edits, require_profile-keeps, require_profile-Named, is_following-keeps,
  is_following-Says, edge-Edits,
}

module _ (db : Delegate UserRow user_clash) where
  module _ (url : Codes → Codes) (viewer : ℕ) (username : Codes) (s : db.Store) where
    -- What following has done when it ends in a certain way.
    abbrev pub Follows : Outcome ProfileResponse × db.Store → Type 0
    Follows (ok resp, t) =
        (q : UserRow) × Named db username s q
        × (q.id ≢ viewer)
        × (resp ≡ profile_response url q true)
        × ((db.rows t ≡ map (patch (λ u. u.id == q.id) (connect_follower viewer)) (db.rows s))
            ⊎ ((db.rows t ≡ db.rows s)
                × ((u : UserRow) × Memᴰ u (db.rows s) × (is_followed_by viewer q.id u ≡ true))))
    Follows (err e, t) = db.rows t ≡ db.rows s

    follow_unless-Follows :
        (q : UserRow)
        → Named db username s q
        → q.id ≢ viewer
        → (b : Bool) → Says db viewer q.id s b
        → Follows (follow_unless db url viewer q b s)
    unfolding follow
    follow_unless-Follows q named other true (u, m, e) =
        (q, named, other, refl, inr (refl, (u, m, e)))
    follow_unless-Follows q named other false unseen =
        go (follow db viewer q.id s) (edge-Edits db viewer q.id (connect_follower viewer) s)
      where
        go :
            (x : Outcome UserRow × db.Store)
            → Edits db q.id (connect_follower viewer) s x
            → Follows (((λ (_ : db.Store). x) >> pure (profile_response url q true)) s)
        go (ok r, t) h = (q, named, other, refl, inl h)
        go (err e, t) h = h

    -- A user who follows another by name follows that user afterwards, is not that user, and no other
    -- row has changed; whoever did follow already changes no row; a call that throws changes no row.
    pub follow_user_lem : Follows (follow_user db url viewer username s)
    unfolding follow_user
    follow_user_lem =
        >>=-cases Follows (require_profile db username) rest s (λ e t h. ap db.rows (kept t h))
          (λ q t h.
            subst (λ z. Follows (rest q z)) (sym (kept' q t h))
              (guarded q (require_profile-Named db username s q t h)))
      where
        rest : UserRow → M db.Store ProfileResponse
        rest q = throw_if (q.id == viewer) follow_self >>= λ _.
            is_following db viewer q.id >>= follow_unless db url viewer q

        kept : {e : Exception} (t : db.Store) → require_profile db username s ≡ (err e, t) → t ≡ s
        kept t h =
            subst (λ (x : Outcome UserRow × db.Store). x.1 ≡ s) h
              (require_profile-keeps db username s)

        kept' : (q : UserRow) (t : db.Store) → require_profile db username s ≡ (ok q, t) → t ≡ s
        kept' q t h =
            subst (λ (x : Outcome UserRow × db.Store). x.1 ≡ s) h
              (require_profile-keeps db username s)

        asked :
            (q : UserRow)
            → Named db username s q
            → q.id ≢ viewer
            → Follows ((is_following db viewer q.id >>= follow_unless db url viewer q) s)
        asked q named other =
            >>=-cases Follows (is_following db viewer q.id) (follow_unless db url viewer q) s
              (λ e t h. ap db.rows (
                subst (λ (x : Outcome Bool × db.Store). x.1 ≡ s) h
                  (is_following-keeps db viewer q.id s)))
              (λ b t h.
                subst (λ z. Follows (follow_unless db url viewer q b z))
                  (sym (
                    subst (λ (x : Outcome Bool × db.Store). x.1 ≡ s) h
                      (is_following-keeps db viewer q.id s)))
                  (follow_unless-Follows q named other b
                    (is_following-Says db viewer q.id s b t h)))

        guarded : (q : UserRow) → Named db username s q → Follows (rest q s)
        guarded q named = elim (Bool-cases (q.id == viewer)) [
          | inl b ↦ rw b refl
          | inr b ↦ rw b (asked q named (λ same. ground arith))
        ]
