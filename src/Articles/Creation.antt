-- ===== src/Articles/Creation.antt =====
-- What `create` of the articles does to the tables, on every outcome.
use realworld_tutorial.Base.{
  ℕ, ◌≡◌, refl, sym, ap, ◌∙◌, subst, false, none, List, Codes, codes_eq, trim, Exception, Outcome,
  ok, err, M, ◌>>=◌, append_one, All, pure,
}
use realworld_tutorial.Base.Prisma.{Delegate, Creates}
use realworld_tutorial.Users.{UserRow, user_clash}
use realworld_tutorial.Articles.Slug.{execute}
use realworld_tutorial.Articles.Slug.Retry.{execute-settles, Settled}
use realworld_tutorial.Articles.Repository.{
  ArticleRow, slug_clash, ArticleRecord, World, article_record, create_article, new_article,
  article_created,
}
use realworld_tutorial.Articles.Service.{
  create_candidate, write_new, to_response, create, CreateArticleDto, ArticleResponse, new_data,
  emit, created_event,
}
use realworld_tutorial.Articles.Frames.{
  Unwritten, IsAuthor, found-IsAuthor, Unwritten-refl, Unwritten-trans, Unwritten-eq, create-err,
  Written, write_select-Written, write_select-Unwritten, create_candidate-Silent,
}

module _ (adb : Delegate ArticleRow slug_clash) (udb : Delegate UserRow user_clash) where
  module _ (lower nfd : Codes → Codes) (sort : List Codes → List Codes) (url : Codes → Codes) where
    -- What a creation that ends in a certain way has done.
    abbrev pub Adds :
        ℕ → ℕ → CreateArticleDto → World adb udb → Outcome ArticleResponse → World adb udb → Type 0
    Adds now user_id dto w (ok resp) v =
        (fresh : ArticleRow) × (author : UserRow) × (slug : Codes) × (adb.rows v.articles
          ≡ append_one (adb.rows w.articles) fresh)
        × (fresh ≡ new_article now (new_data lower user_id dto slug) fresh.id)
        × All (λ q. codes_eq q.slug slug ≡ false) (adb.rows w.articles)
        × (v.users ≡ w.users)
        × IsAuthor adb udb user_id author w.users
        × (v.events
            ≡ append_one w.events
                (article_created fresh.id fresh.slug fresh.title user_id author.username))
        × (resp ≡ to_response url (article_record sort none fresh author))
    Adds now user_id dto w (err e) v = Unwritten adb udb w v

    write_new-Unwritten :
        (now user_id : ℕ) (dto : CreateArticleDto) (w : World adb udb) (slug : Codes)
        (t : World adb udb) (e : Exception) (u : World adb udb)
        → Unwritten adb udb w t
        → write_new adb udb lower nfd sort url now user_id dto slug t ≡ (err e, u)
        → Unwritten adb udb w u
    unfolding create_article
    write_new-Unwritten now user_id dto w slug t e u h k =
        let make = new_article now (new_data lower user_id dto slug) in
        Unwritten-trans adb udb w t u h (
          write_select-Unwritten adb udb sort none (adb.create make) t
            (λ x a. create-err adb udb make t.articles x a) e u k)

    added :
        (now user_id : ℕ) (dto : CreateArticleDto) (w t u : World adb udb) (slug : Codes)
        (x : ArticleRecord)
        → Unwritten adb udb w t
        → write_new adb udb lower nfd sort url now user_id dto slug t ≡ (ok x, u)
        → Adds now user_id dto w (ok (to_response url x)) (record u {
          events = append_one u.events (created_event adb udb lower nfd sort url user_id x);
        })
    unfolding create_article article_record new_article
    added now user_id dto w t u slug x h k =
        let make = new_article now (new_data lower user_id dto slug) in
        let q = write_select-Written adb udb sort none (adb.create make) t x u k in
        let (i, lo, hi, is, listing, free) =
          subst
            (λ (y : Outcome ArticleRow × adb.Store).
              Creates slug_clash make (adb.next_id t.articles) (adb.rows t.articles) y.0
                (adb.next_id y.1) (adb.rows y.1))
            q.wrote (adb.create_lem make t.articles) in
        let named : q.row.slug ≡ slug = ap (λ (r : ArticleRow). r.slug) is in
        let numbered : q.row.id ≡ i = ap (λ (r : ArticleRow). r.id) is in
        (
          q.row,
          q.author,
          slug,
          rw q.state (listing ∙ ap (λ rows. append_one rows q.row) h.same_rows),
          is ∙ ap make (sym numbered),
          subst (λ z. All (λ r. codes_eq r.slug z ≡ false) (adb.rows w.articles)) named
              (subst (λ rows. All (λ r. codes_eq r.slug q.row.slug ≡ false) rows) h.same_rows free),
          ap (λ (z : World adb udb). z.users) q.state ∙ h.same_users,
          subst (IsAuthor adb udb user_id q.author) h.same_users (
              subst (λ id. IsAuthor adb udb id q.author t.users)
                (ap (λ (r : ArticleRow). r.author_id) is)
                (found-IsAuthor adb udb q.row.author_id q.author t.users q.found)),
          event q h,
          ap (to_response url) q.answer,
        )
      where
        event :
            (q : Written adb udb sort none
              (adb.create (new_article now (new_data lower user_id dto slug)))
              t
              x
              u)
            → Unwritten adb udb w t
            → append_one u.events (created_event adb udb lower nfd sort url user_id x)
              ≡ append_one w.events
                  (article_created q.row.id q.row.slug q.row.title user_id q.author.username)
        event q' h' =
            let kept : u.events ≡ w.events =
              ap (λ (z : World adb udb). z.events) q'.state ∙ h'.same_events in
            ap (append_one u.events)
              (ap (created_event adb udb lower nfd sort url user_id) q'.answer)
            ∙ ap
                (λ es.
                  append_one es
                    (article_created q'.row.id q'.row.slug q'.row.title user_id q'.author.username))
                kept

    -- A creation that answers has added one row, with the given texts trimmed, the given tags
    -- normalized and a slug that no row had, has announced that row, with the user as its author, and
    -- answers with it; a creation that throws has changed nothing and announced nothing.
    pub create_lem :
        (now user_id : ℕ) (dto : CreateArticleDto) (w : World adb udb)
        → (let y = create adb udb lower nfd sort url now user_id dto w in
            Adds now user_id dto w y.0 y.1)
    unfolding create
    create_lem now user_id dto w = go (execute candidate write w) refl
      where
        candidate : M (World adb udb) Codes
        candidate = create_candidate adb udb lower nfd sort url (trim dto.title) none

        write : Codes → M (World adb udb) ArticleRecord
        write = write_new adb udb lower nfd sort url now user_id dto

        settled :
            (x : Outcome ArticleRecord) (v : World adb udb)
            → execute candidate write w ≡ (x, v)
            → Settled candidate write (Unwritten adb udb w) x v
        settled x v e =
            execute-settles candidate write (Unwritten adb udb w)
              (λ s h. Unwritten-trans adb udb w s (candidate s).1 h (
                Unwritten-eq adb udb s (candidate s).1
                  (create_candidate-Silent adb udb lower nfd sort url (trim dto.title) none s)))
              (write_new-Unwritten now user_id dto w) w x v e (Unwritten-refl adb udb w)

        go :
            (x : Outcome ArticleRecord × World adb udb)
            → execute candidate write w ≡ x
            → (let y =
                  ((λ (_ : World adb udb). x) >>= λ a.
                  emit adb udb (created_event adb udb lower nfd sort url user_id a) >>= λ _.
                  pure (to_response url a))
                    w in
                Adds now user_id dto w y.0 y.1)
        go (err e, v) h = settled (err e) v h
        go (ok x, v) h =
            let (slug, t, same, k) = settled (ok x) v h in added now user_id dto w t v slug x same k
