-- ===== src/Profiles/Unfollow.antt =====
-- What unfollowing a user does to the users' rows, on every outcome.
use realworld_tutorial.Base.{
  ℕ, ◌≡◌, refl, sym, ap, subst, ◌⊎◌, inl, inr, Bool, true, false, map, ◌==◌, All, Codes, Exception,
  Outcome, ok, err, M, pure, ◌>>=◌, ◌>>◌, >>=-cases,
}
use realworld_tutorial.Base.Prisma.{Delegate, patch}
use realworld_tutorial.Users.{UserRow, user_clash}
use realworld_tutorial.Profiles.{
  ProfileResponse, profile_response, disconnect_follower, is_followed_by, is_following, unfollow,
  require_profile, unfollow_if, unfollow_user,
}
use realworld_tutorial.Profiles.Edges.{
  Named, Says, Edits, require_profile-keeps, require_profile-Named, is_following-keeps,
  is_following-Says, edge-Edits,
}

module _ (db : Delegate UserRow user_clash) where
  module _ (url : Codes → Codes) (viewer : ℕ) (username : Codes) (s : db.Store) where
    -- What unfollowing has done when it ends in a certain way.
    abbrev pub Unfollows : Outcome ProfileResponse × db.Store → Type 0
    Unfollows (ok resp, t) =
        (q : UserRow) × Named db username s q
        × (resp ≡ profile_response url q false)
        × ((db.rows t ≡ map (patch (λ u. u.id == q.id) (disconnect_follower viewer)) (db.rows s))
            ⊎ ((db.rows t ≡ db.rows s)
                × All (λ u. is_followed_by viewer q.id u ≡ false) (db.rows s)))
    Unfollows (err e, t) = db.rows t ≡ db.rows s

    unfollow_if-Unfollows :
        (q : UserRow)
        → Named db username s q
        → (b : Bool) → Says db viewer q.id s b
        → Unfollows (unfollow_if db url viewer q b s)
    unfolding unfollow
    unfollow_if-Unfollows q named false unseen = (q, named, refl, inr (refl, unseen))
    unfollow_if-Unfollows q named true (u, m, e) =
        go (unfollow db viewer q.id s) (edge-Edits db viewer q.id (disconnect_follower viewer) s)
      where
        go :
            (x : Outcome UserRow × db.Store)
            → Edits db q.id (disconnect_follower viewer) s x
            → Unfollows (((λ (_ : db.Store). x) >> pure (profile_response url q false)) s)
        go (ok r, t) h = (q, named, refl, inl h)
        go (err e, t) h = h

    -- A user who unfollows another by name is struck from that user's followers, and no other row has
    -- changed; whoever did not follow changes no row; a call that throws changes no row.
    pub unfollow_user_lem : Unfollows (unfollow_user db url viewer username s)
    unfolding unfollow_user
    unfollow_user_lem =
        >>=-cases Unfollows (require_profile db username) rest s (λ e t h. ap db.rows (kept t h))
          (λ q t h.
            subst (λ z. Unfollows (rest q z)) (sym (kept' q t h))
              (asked q (require_profile-Named db username s q t h)))
      where
        rest : UserRow → M db.Store ProfileResponse
        rest q = is_following db viewer q.id >>= unfollow_if db url viewer q

        kept : {e : Exception} (t : db.Store) → require_profile db username s ≡ (err e, t) → t ≡ s
        kept t h =
            subst (λ (x : Outcome UserRow × db.Store). x.1 ≡ s) h
              (require_profile-keeps db username s)

        kept' : (q : UserRow) (t : db.Store) → require_profile db username s ≡ (ok q, t) → t ≡ s
        kept' q t h =
            subst (λ (x : Outcome UserRow × db.Store). x.1 ≡ s) h
              (require_profile-keeps db username s)

        asked :
            (q : UserRow)
            → Named db username s q
            → Unfollows ((is_following db viewer q.id >>= unfollow_if db url viewer q) s)
        asked q named =
            >>=-cases Unfollows (is_following db viewer q.id) (unfollow_if db url viewer q) s
              (λ e t h. ap db.rows (
                subst (λ (x : Outcome Bool × db.Store). x.1 ≡ s) h
                  (is_following-keeps db viewer q.id s)))
              (λ b t h.
                subst (λ z. Unfollows (unfollow_if db url viewer q b z))
                  (sym (
                    subst (λ (x : Outcome Bool × db.Store). x.1 ≡ s) h
                      (is_following-keeps db viewer q.id s)))
                  (unfollow_if-Unfollows q named b (is_following-Says db viewer q.id s b t h)))
