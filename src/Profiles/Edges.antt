-- ===== src/Profiles/Edges.antt =====
-- The queries of the profiles: whom a name finds, and what changes of a relation leave alone.
use mathlib.Core.List.{Memᴰ}
use realworld_tutorial.Base.{
  ℕ, ◌≡◌, refl, ap, ◌∙◌, subst, inl, inr, Bool, true, false, Option, none, some, List, [], ◌∷◌, map,
  ◌==◌, All, Bool-cases, Codes, codes_eq, codes_eq_iff, Outcome, ok, err, pure, reads, ◌>>◌,
  >>=-cases, >>=-eq-ok,
}
use realworld_tutorial.Base.Prisma.{Delegate, Finds, UpdatesOne, patch}
use realworld_tutorial.Users.{UserRow, user_clash}
use realworld_tutorial.Profiles.{
  is_followed_by, find_by_username, is_found, is_following, found_profile, require_profile,
}

map-patch_self : (p : UserRow → Bool) (rows : List UserRow) → map (patch p (λ u. u)) rows ≡ rows
map-patch_self p [] = refl
map-patch_self p (u ∷ us) = elim (Bool-cases (p u)) [
  | inl e ↦ rw e (ap (λ vs. u ∷ vs) (map-patch_self p us))
  | inr e ↦ rw e (ap (λ vs. u ∷ vs) (map-patch_self p us))
]

module _ (db : Delegate UserRow user_clash) where
  -- The user whom a request names.
  pub record Named (username : Codes) (s : db.Store) (q : UserRow) : Type 0 where
    pub present : Memᴰ q (db.rows s)
    pub named : q.username ≡ username

  pub require_profile-keeps :
      (username : Codes) (s : db.Store) → (require_profile db username s).1 ≡ s
  unfolding require_profile find_by_username
  require_profile-keeps username s =
      >>=-cases (λ x. x.1 ≡ s) (find_by_username db username) (found_profile db) s (λ e t h. cc)
        found
    where
      found :
          (o : Option UserRow) (t : db.Store)
          → find_by_username db username s ≡ (ok o, t)
          → (found_profile db o t).1 ≡ s
      found none t h = cc
      found (some u) t h = cc

  pub require_profile-Named :
      (username : Codes) (s : db.Store) (q : UserRow) (t : db.Store)
      → require_profile db username s ≡ (ok q, t)
      → Named username s q
  unfolding require_profile find_by_username
  require_profile-Named username s q t h =
      let (o, u, e, k) = >>=-eq-ok (find_by_username db username) (found_profile db) s h in
      go o u (ap (λ (x : Outcome (Option UserRow) × db.Store). x.0) e) k
    where
      go :
          (o : Option UserRow) (u : db.Store)
          → db.find_first (λ v. codes_eq v.username username) s ≡ ok o
          → found_profile db o u ≡ (ok q, t)
          → Named username s q
      go none u e k = cc
      go (some v) u e k =
          let same : v ≡ q = cc in
          let (m, n) =
            subst
              (λ (x : Outcome (Option UserRow)).
                Finds (λ w. codes_eq w.username username) (db.rows s) x)
              e (db.find_first_lem (λ w. codes_eq w.username username) s) in
          subst (Named username s) same
            (record { present = m; named = (codes_eq_iff v.username username).0 n })

  -- What `isFollowing` says of the rows.
  abbrev pub Says : ℕ → ℕ → db.Store → Bool → Type 0
  Says viewer target s true =
      (u : UserRow) × Memᴰ u (db.rows s) × (is_followed_by viewer target u ≡ true)
  Says viewer target s false = All (λ u. is_followed_by viewer target u ≡ false) (db.rows s)

  pub is_following-keeps :
      (viewer target : ℕ) (s : db.Store) → (is_following db viewer target s).1 ≡ s
  unfolding is_following
  is_following-keeps viewer target s =
      >>=-cases (λ x. x.1 ≡ s) (reads (db.find_first (is_followed_by viewer target)))
        (λ o. pure (is_found db o)) s (λ e t h. cc) (λ o t h. cc)

  pub is_following-Says :
      (viewer target : ℕ) (s : db.Store) (b : Bool) (t : db.Store)
      → is_following db viewer target s ≡ (ok b, t)
      → Says viewer target s b
  unfolding is_following
  is_following-Says viewer target s b t h =
      let (o, u, e, k) =
        >>=-eq-ok (reads (db.find_first (is_followed_by viewer target))) (λ o. pure (is_found db o))
          s h in
      let answer : is_found db o ≡ b = cc in
      subst (Says viewer target s) answer (
        go o (
          subst
            (λ (x : Outcome (Option UserRow)). Finds (is_followed_by viewer target) (db.rows s) x)
            (ap (λ (x : Outcome (Option UserRow) × db.Store). x.0) e)
            (db.find_first_lem (is_followed_by viewer target) s)))
    where
      go :
          (o : Option UserRow)
          → Finds (is_followed_by viewer target) (db.rows s) (ok o)
          → Says viewer target s (is_found db o)
      go none f = f
      go (some u) (m, e) = (u, m, e)

  -- The rows after a relation was changed, or after that has failed.
  abbrev pub Edits : ℕ → (UserRow → UserRow) → db.Store → Outcome UserRow × db.Store → Type 0
  Edits target f s (ok _, t) = db.rows t ≡ map (patch (λ u. u.id == target) f) (db.rows s)
  Edits target f s (err e, t) = db.rows t ≡ db.rows s

  updated-Edits :
      (target : ℕ) (f : UserRow → UserRow) (s t : db.Store)
      → db.rows t ≡ db.rows s
      → (x : Outcome UserRow) (u : db.Store)
      → UpdatesOne (λ u. u.id == target) f (db.rows t) x (db.rows u)
      → Edits target f s (x, u)
  updated-Edits target f s t same (ok r) u (q, m, e, is, listing) =
      listing ∙ ap (map (patch (λ u. u.id == target) f)) same
  updated-Edits target f s t same (err e) u (d, listing) = listing ∙ same

  touched :
      (follower : ℕ) (s : db.Store) (x : Outcome UserRow) (t : db.Store)
      → UpdatesOne (λ u. u.id == follower) (λ u. u) (db.rows s) x (db.rows t)
      → db.rows t ≡ db.rows s
  touched follower s (ok r) t (q, m, e, is, listing) =
      listing ∙ map-patch_self (λ u. u.id == follower) (db.rows s)
  touched follower s (err e) t (d, listing) = listing

  pub edge-Edits :
      (follower target : ℕ) (f : UserRow → UserRow) (s : db.Store)
      → Edits target f s
          ((db.update (λ u. u.id == follower) (λ u. u) >> db.update (λ u. u.id == target) f) s)
  edge-Edits follower target f s = go (db.update (λ u. u.id == follower) (λ u. u) s) (
      touched follower s (db.update (λ u. u.id == follower) (λ u. u) s).0
        (db.update (λ u. u.id == follower) (λ u. u) s).1
        (db.update_lem (λ u. u.id == follower) (λ u. u) s).0)
    where
      go :
          (x : Outcome UserRow × db.Store)
          → db.rows x.1 ≡ db.rows s
          → Edits target f s (((λ (_ : db.Store). x) >> db.update (λ u. u.id == target) f) s)
      go (err e, t) h = h
      go (ok r, t) h =
          updated-Edits target f s t h (db.update (λ u. u.id == target) f t).0
            (db.update (λ u. u.id == target) f t).1 ((db.update_lem (λ u. u.id == target) f t).0)
