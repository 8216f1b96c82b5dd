-- ===== src/Favorites/Unmarking.antt =====
-- What unmarking an article as a favorite does to the tables and the events, on every outcome.
use realworld_tutorial.Base.{
  ℕ, ◌≡◌, refl, sym, ap, ◌∙◌, subst, ◌⊎◌, inl, inr, Bool, not, true, false, List, if◌then◌else◌,
  Codes, Outcome, ok, err, pure, ◌>>=◌,
}
use realworld_tutorial.Base.Prisma.{Delegate}
use realworld_tutorial.Users.{UserRow, user_clash}
use realworld_tutorial.Articles.Repository.{ArticleRow, slug_clash, ArticleRecord, World}
use realworld_tutorial.Articles.Service.{ArticleResponse, to_response}
use realworld_tutorial.Articles.Frames.{Unwritten, Unwritten-eq}
use realworld_tutorial.Favorites.{
  disconnect_fan, is_favorite, disconnect, require_viewed, write_edge, unfavorite_if, unfavorite,
}
use realworld_tutorial.Favorites.Edges.{
  has_fan, without_fan, is_favorite-has_fan, Viewed, Requires, require_viewed-Requires, Edited,
  Collided, Writes, write_edge-Writes,
}

module _ (adb : Delegate ArticleRow slug_clash) (udb : Delegate UserRow user_clash)
    (sort : List Codes → List Codes) (url : Codes → Codes) (user_id : ℕ) (slug : Codes) where
  -- What unmarking has done when it ends in a certain way.
  abbrev pub Unfavors : World adb udb → Outcome ArticleResponse × World adb udb → Type 0
  Unfavors w (ok resp, v) =
      (x : ArticleRecord) × (seen : Viewed adb udb sort url user_id slug v x) × (resp
        ≡ to_response url x)
      × (((has_fan user_id seen.row ≡ false) × (v ≡ w))
          ⊎ Edited adb udb sort url user_id slug (without_fan user_id) w v
          ⊎ Collided adb udb sort url user_id slug (without_fan user_id) w v)
  Unfavors w (err e, v) = Unwritten adb udb w v

  answered :
      (w : World adb udb) (x : Outcome ArticleRecord × World adb udb)
      → Writes adb udb sort url user_id slug (disconnect_fan user_id) w x
      → Unfavors w (((λ (_ : World adb udb). x) >>= λ y. pure (to_response url y)) w)
  answered w (err e, v) h = h
  answered w (ok x, v) h = (x, h.0, refl, inr (h.1))

  -- An unmarking that answers has either found the article unmarked by the user and changed nothing,
  -- or it has struck the user from the fans of the article that the slug names, with no other row, no
  -- user and no event changed; only where the database has reported a collision for the write is no row
  -- changed. The answer is the article as the user then sees it, with its author. One that throws has changed no row,
  -- and none announces anything.
  pub unfavorite_lem : (w : World adb udb) → Unfavors w (unfavorite adb udb sort url user_id slug w)
  unfolding unfavorite disconnect
  unfavorite_lem w =
      go (require_viewed adb udb sort url user_id slug w)
        (require_viewed-Requires adb udb sort url user_id slug w)
    where
      decided :
          (x : ArticleRecord)
          → Viewed adb udb sort url user_id slug w x
          → (b : Bool) → is_favorite x ≡ b
          → Unfavors w (
              (if not b
                  then pure (to_response url x)
                  else (write_edge adb udb sort url user_id slug
                        (disconnect adb udb sort url slug user_id)
                      >>= λ y. pure (to_response url y)))
                w)
      decided x seen false b = (
        x,
        seen,
        refl,
        inl (
          sym (is_favorite-has_fan sort user_id seen.row seen.author)
              ∙ ap is_favorite (sym seen.seen)
              ∙ b,
          refl,
        ),
      )
      decided x seen true b =
          answered w
            (write_edge adb udb sort url user_id slug (disconnect adb udb sort url slug user_id) w)
            (write_edge-Writes adb udb sort url user_id slug (disconnect_fan user_id) (λ r. refl) w)

      go :
          (x : Outcome ArticleRecord × World adb udb)
          → Requires adb udb sort url user_id slug w x
          → Unfavors w
              (((λ (_ : World adb udb). x) >>= unfavorite_if adb udb sort url user_id slug) w)
      go (err e, v) h = Unwritten-eq adb udb w v h
      go (ok x, v) (h, seen) =
          subst (λ z. Unfavors w (unfavorite_if adb udb sort url user_id slug x z)) (sym h)
            (decided x seen (is_favorite x) refl)
