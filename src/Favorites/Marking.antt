-- ===== src/Favorites/Marking.antt =====
-- What marking an article as a favorite does to the tables and the events, on every outcome.
use realworld_tutorial.Base.{
  ℕ, ◌≡◌, refl, sym, ap, ◌∙◌, subst, ◌⊎◌, inl, inr, Bool, true, false, Option, List, ◌==◌,
  append_one, if◌then◌else◌, Codes, Outcome, ok, err, pure, ◌>>=◌,
}
use realworld_tutorial.Base.Prisma.{Delegate}
use realworld_tutorial.Users.{UserRow, user_clash}
use realworld_tutorial.Articles.Repository.{ArticleRow, slug_clash, ArticleRecord, World}
use realworld_tutorial.Articles.Service.{ArticleResponse, to_response, emit}
use realworld_tutorial.Articles.Frames.{Unwritten, Unwritten-eq}
use realworld_tutorial.Favorites.{
  connect_fan, favorited_event, is_favorite, connect, require_viewed, write_edge, announce,
  favorite_unless, favorite,
}
use realworld_tutorial.Favorites.Edges.{
  has_fan, with_fan, is_favorite-has_fan, Viewed, Requires, require_viewed-Requires, Edited,
  Collided, Writes, write_edge-Writes,
}

module _ (adb : Delegate ArticleRow slug_clash) (udb : Delegate UserRow user_clash)
    (sort : List Codes → List Codes) (url : Codes → Codes) (user_id : ℕ) (slug : Codes) where
  -- What marking has done when it ends in a certain way.
  abbrev pub Favors : World adb udb → Outcome ArticleResponse × World adb udb → Type 0
  Favors w (ok resp, v) =
      ((x : ArticleRecord) × (seen : Viewed adb udb sort url user_id slug w x) × (has_fan user_id
            seen.row
          ≡ true)
        × (v ≡ w)
        × (resp ≡ to_response url x))
      ⊎ ((x : ArticleRecord) × (actor : Option UserRow) × (u : World adb udb) × Viewed adb udb sort
            url user_id slug u x
          × ((y : ArticleRecord) × (before : Viewed adb udb sort url user_id slug w y) × (has_fan
                  user_id before.row
                ≡ false))
          × (Edited adb udb sort url user_id slug (with_fan user_id) w u
              ⊎ Collided adb udb sort url user_id slug (with_fan user_id) w u)
          × (v ≡ record u { events = append_one u.events (favorited_event user_id x actor) })
          × (resp ≡ to_response url x))
  Favors w (err e, v) =
      Edited adb udb sort url user_id slug (with_fan user_id) w v ⊎ Unwritten adb udb w v

  -- What the code's test says of the row that the slug names.
  tested :
      (w : World adb udb) (x : ArticleRecord) (seen : Viewed adb udb sort url user_id slug w x)
      → has_fan user_id seen.row ≡ is_favorite x
  tested w x seen =
      sym (is_favorite-has_fan sort user_id seen.row seen.author) ∙ ap is_favorite (sym seen.seen)

  announced :
      (w : World adb udb) (y : ArticleRecord)
      → (before : Viewed adb udb sort url user_id slug w y) → has_fan user_id before.row ≡ false
      → (x : Outcome ArticleRecord × World adb udb)
      → Writes adb udb sort url user_id slug (connect_fan user_id) w x
      → Favors w (((λ (_ : World adb udb). x) >>= announce adb udb sort url user_id) w)
  announced w y before new (err e, v) h = inr h
  announced w y before new (ok x, v) h = go (udb.find_first (λ u. u.id == user_id) v.users)
    where
      go :
          (y : Outcome (Option UserRow))
          → Favors w (
              ((λ (_ : World adb udb). (y, v)) >>= λ actor.
              emit adb udb (favorited_event user_id x actor) >>= λ _. pure (to_response url x))
                v)
      go (ok actor) = inr (x, actor, v, h.0, (y, before, new), h.1, refl, refl)
      go (err e) = elim (h.1) [ inl m ↦ inl m | inr hit ↦ inr hit.unwritten ]

  -- A marking that answers has either found the user among the fans of the article that the slug names
  -- and changed and announced nothing, or it has found the user not among them, has added the user to
  -- them, with no other row changed, and has announced that article once; only where the database has
  -- reported a collision for the write is no row changed. The answer is the article as the user then
  -- sees it, with its author. One that throws has announced nothing.
  pub favorite_lem : (w : World adb udb) → Favors w (favorite adb udb sort url user_id slug w)
  unfolding favorite connect
  favorite_lem w =
      go (require_viewed adb udb sort url user_id slug w)
        (require_viewed-Requires adb udb sort url user_id slug w)
    where
      decided :
          (x : ArticleRecord)
          → Viewed adb udb sort url user_id slug w x
          → (b : Bool) → is_favorite x ≡ b
          → Favors w (
              (if b
                  then pure (to_response url x)
                  else (write_edge adb udb sort url user_id slug
                        (connect adb udb sort url slug user_id)
                      >>= announce adb udb sort url user_id))
                w)
      decided x seen true b = inl (x, seen, tested w x seen ∙ b, refl, refl)
      decided x seen false b =
          announced w x seen (tested w x seen ∙ b)
            (write_edge adb udb sort url user_id slug (connect adb udb sort url slug user_id) w)
            (write_edge-Writes adb udb sort url user_id slug (connect_fan user_id) (λ r. refl) w)

      go :
          (x : Outcome ArticleRecord × World adb udb)
          → Requires adb udb sort url user_id slug w x
          → Favors w
              (((λ (_ : World adb udb). x) >>= favorite_unless adb udb sort url user_id slug) w)
      go (err e, v) h = inr (Unwritten-eq adb udb w v h)
      go (ok x, v) (h, seen) =
          subst (λ z. Favors w (favorite_unless adb udb sort url user_id slug x z)) (sym h)
            (decided x seen (is_favorite x) refl)
