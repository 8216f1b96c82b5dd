-- ===== src/Articles/Update.antt =====
-- What `update` of the articles does to the tables, on every outcome.
use realworld_tutorial.Base.{
  ℕ, ◌≡◌, refl, sym, ap, ◌∙◌, subst, inl, inr, Bool, true, false, not, Option, none, some, List,
  Codes, codes_eq, trim, Outcome, ok, err, M, ◌>>=◌, ◌==◌, map, Bool-cases, throw_if, pure,
}
use realworld_tutorial.Base.Prisma.{Delegate, UpdatesOne, patch}
use realworld_tutorial.Users.{UserRow, user_clash}
use realworld_tutorial.Articles.Slug.{execute}
use realworld_tutorial.Articles.Slug.Retry.{execute-settles, Settled}
use realworld_tutorial.Articles.Tags.{UpdateArticleDto, has_effective_update, map_option}
use realworld_tutorial.Articles.Repository.{
  ArticleRow, slug_clash, ArticleRecord, World, update_article, set_article,
}
use realworld_tutorial.Articles.Service.{
  require_owned_article, create_candidate, write_over, write_update, update, update_data,
  to_response, ArticleResponse, empty_article_update,
}
use realworld_tutorial.Articles.Frames.{
  Unwritten, Unwritten-refl, Unwritten-trans, Unwritten-eq, update-err, write_select-Written,
  write_select-Unwritten, create_candidate-Silent,
}
use realworld_tutorial.Articles.Owner.{
  Owned, require_owned_article-Owned, require_owned_article-Silent,
}

module _ (adb : Delegate ArticleRow slug_clash) (udb : Delegate UserRow user_clash) where
  module _ (lower nfd : Codes → Codes) (sort : List Codes → List Codes) (url : Codes → Codes) where
    -- The rows after a write of `update` that ends in a certain way.
    abbrev pub Overwrites :
        ℕ
        → ArticleRow
        → UpdateArticleDto
        → World adb udb
        → Outcome ArticleRecord
        → World adb udb
        → Type 0
    Overwrites now r dto w (ok x) v =
        (slug : Option Codes) × (adb.rows v.articles
          ≡ map
              (patch (λ q. q.id == r.id)
                (set_article now (record (update_data lower dto) { slug = slug })))
              (adb.rows w.articles))
        × (v.users ≡ w.users)
        × (v.events ≡ w.events)
    Overwrites now r dto w (err e) v = Unwritten adb udb w v

    write_over-Overwrites :
        (now user_id : ℕ) (r : ArticleRow) (dto : UpdateArticleDto) (w : World adb udb)
        (slug : Option Codes) (t : World adb udb) (x : Outcome ArticleRecord) (u : World adb udb)
        → Unwritten adb udb w t
        → write_over adb udb lower nfd sort url now user_id r.id dto slug t ≡ (x, u)
        → Overwrites now r dto w x u
    unfolding update_article
    write_over-Overwrites now user_id r dto w slug t (ok x) u h k =
        let set_it = set_article now (record (update_data lower dto) { slug = slug }) in
        let q =
          write_select-Written adb udb sort (some user_id) (adb.update (λ p. p.id == r.id) set_it) t
            x u k in
        let (old, m, e, is, listing) =
          subst
            (λ (y : Outcome ArticleRow × adb.Store).
              UpdatesOne (λ p. p.id == r.id) set_it (adb.rows t.articles) y.0 (adb.rows y.1))
            q.wrote ((adb.update_lem (λ p. p.id == r.id) set_it t.articles).0) in
        (
          slug,
          rw q.state (listing ∙ ap (map (patch (λ p. p.id == r.id) set_it)) h.same_rows),
          ap (λ (z : World adb udb). z.users) q.state ∙ h.same_users,
          ap (λ (z : World adb udb). z.events) q.state ∙ h.same_events,
        )
    write_over-Overwrites now user_id r dto w slug t (err e) u h k =
        let set_it = set_article now (record (update_data lower dto) { slug = slug }) in
        Unwritten-trans adb udb w t u h (
          write_select-Unwritten adb udb sort (some user_id) (adb.update (λ p. p.id == r.id) set_it)
            t (λ y a. update-err adb udb (λ p. p.id == r.id) set_it t.articles y a) e u k)

    renamed-Overwrites :
        (now user_id : ℕ) (r : ArticleRow) (dto : UpdateArticleDto) (title : Codes)
        (w : World adb udb) (x : Outcome ArticleRecord) (v : World adb udb)
        → execute
            (create_candidate adb udb lower nfd sort url title (some r.id))
            (λ slug. write_over adb udb lower nfd sort url now user_id r.id dto (some slug))
            w
          ≡ (x, v)
        → Overwrites now r dto w x v
    renamed-Overwrites now user_id r dto title w x v e = go x settled
      where
        candidate : M (World adb udb) Codes
        candidate = create_candidate adb udb lower nfd sort url title (some r.id)

        write : Codes → M (World adb udb) ArticleRecord
        write = λ slug. write_over adb udb lower nfd sort url now user_id r.id dto (some slug)

        settled : Settled candidate write (Unwritten adb udb w) x v
        settled =
            execute-settles candidate write (Unwritten adb udb w)
              (λ s h. Unwritten-trans adb udb w s (candidate s).1 h (
                Unwritten-eq adb udb s (candidate s).1
                  (create_candidate-Silent adb udb lower nfd sort url title (some r.id) s)))
              (λ slug t y u. write_over-Overwrites now user_id r dto w (some slug) t (err y) u) w x
              v e (Unwritten-refl adb udb w)

        go :
            (y : Outcome ArticleRecord)
            → Settled candidate write (Unwritten adb udb w) y v
            → Overwrites now r dto w y v
        go (ok a) (slug, t, same, k) =
            write_over-Overwrites now user_id r dto w (some slug) t (ok a) v same k
        go (err y) h = h

    write_update-Overwrites :
        (now user_id : ℕ) (r : ArticleRow) (dto : UpdateArticleDto) (title : Option Codes)
        (w : World adb udb) (x : Outcome ArticleRecord) (v : World adb udb)
        → write_update adb udb lower nfd sort url now user_id r dto title w ≡ (x, v)
        → Overwrites now r dto w x v
    write_update-Overwrites now user_id r dto none w x v e =
        write_over-Overwrites now user_id r dto w none w x v (Unwritten-refl adb udb w) e
    write_update-Overwrites now user_id r dto (some title) w x v e =
        elim (Bool-cases (codes_eq title r.title)) [
          | inl b ↦
              write_over-Overwrites now user_id r dto w none w x v (Unwritten-refl adb udb w)
                (rw b at e)
          | inr b ↦ renamed-Overwrites now user_id r dto title w x v (rw b at e)
        ]

    -- What an update that ends in a certain way has done.
    abbrev pub Changes :
        ℕ
        → ℕ
        → Codes
        → UpdateArticleDto
        → World adb udb
        → Outcome ArticleResponse
        → World adb udb
        → Type 0
    Changes now user_id slug dto w (ok resp) v =
        (r : ArticleRow) × (x : ArticleRecord) × Owned adb udb user_id slug w r
        × (has_effective_update dto ≡ true)
        × Overwrites now r dto w (ok x) v
        × (resp ≡ to_response url x)
    Changes now user_id slug dto w (err e) v = Unwritten adb udb w v

    -- An update that answers was asked for at least one field, by the user whose article the slug
    -- names; it has written the fields that were given, trimmed and normalized, to the rows with that
    -- article's id, and to no other row; an update that throws has changed nothing.
    pub update_lem :
        (now user_id : ℕ) (slug : Codes) (dto : UpdateArticleDto) (w : World adb udb)
        → (let y = update adb udb lower nfd sort url now user_id slug dto w in
            Changes now user_id slug dto w y.0 y.1)
    unfolding update
    update_lem now user_id slug dto w = go (require_owned_article adb udb user_id slug w) refl
      where
        wrote :
            (r : ArticleRow)
            → Owned adb udb user_id slug w r
            → has_effective_update dto ≡ true
            → (x : Outcome ArticleRecord × World adb udb)
            → write_update adb udb lower nfd sort url now user_id r dto
                (map_option trim dto.title)
                w
              ≡ x
            → (let y = ((λ (_ : World adb udb). x) >>= λ a. pure (to_response url a)) w in
                Changes now user_id slug dto w y.0 y.1)
        wrote r own some_field (err e, v) k =
            write_update-Overwrites now user_id r dto (map_option trim dto.title) w (err e) v k
        wrote r own some_field (ok x, v) k = (
          r,
          x,
          own,
          some_field,
          write_update-Overwrites now user_id r dto (map_option trim dto.title) w (ok x) v k,
          refl,
        )

        guarded :
            (r : ArticleRow)
            → Owned adb udb user_id slug w r
            → (b : Bool) → has_effective_update dto ≡ b
            → (let y =
                  (throw_if (not b) empty_article_update >>= λ _.
                  write_update adb udb lower nfd sort url now user_id r dto
                    (map_option trim dto.title)
                  >>= λ a. pure (to_response url a))
                    w in
                Changes now user_id slug dto w y.0 y.1)
        guarded r own true e =
            wrote r own e
              (write_update adb udb lower nfd sort url now user_id r dto (map_option trim dto.title)
                w)
              refl
        guarded r own false e = Unwritten-refl adb udb w

        rest : ArticleRow → M (World adb udb) ArticleResponse
        rest r = throw_if (not (has_effective_update dto)) empty_article_update >>= λ _.
            write_update adb udb lower nfd sort url now user_id r dto (map_option trim dto.title)
            >>= λ a. pure (to_response url a)

        go :
            (x : Outcome ArticleRow × World adb udb)
            → require_owned_article adb udb user_id slug w ≡ x
            → (let y = ((λ (_ : World adb udb). x) >>= rest) w in
                Changes now user_id slug dto w y.0 y.1)
        go (err e, v) h = Unwritten-eq adb udb w v (
            subst (λ (x : Outcome ArticleRow × World adb udb). x.1 ≡ w) h
              (require_owned_article-Silent adb udb user_id slug w))
        go (ok r, v) h =
            let (own, stay) = require_owned_article-Owned adb udb user_id slug w r v h in
            subst (λ u. (let y = rest r u in Changes now user_id slug dto w y.0 y.1)) (sym stay)
              (guarded r own (has_effective_update dto) refl)
