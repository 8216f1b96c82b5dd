-- ===== src/Articles/Frames.antt =====
-- What the queries of the articles leave as it was.
use mathlib.Core.List.{Memᴰ}
use realworld_tutorial.Base.{
  ℕ, ◌≡◌, refl, sym, ap, ◌∙◌, subst, Bool, Option, none, some, List, Codes, Exception, Outcome, ok,
  err, M, reads, ◌>>=◌, pure, map, Respects, Respects-bind, ◌==◌, arith,
}
use realworld_tutorial.Base.Prisma.{Delegate, Finds, Creates, UpdatesOne}
use realworld_tutorial.Users.{UserRow, user_clash}
use realworld_tutorial.Articles.Slug.{pick_candidate, to_base_slug}
use realworld_tutorial.Articles.Repository.{
  ArticleRow, slug_clash, ArticleRecord, World, article_record, finish_write, write_select,
  with_author, commit, find_slugs_by_base, has_base,
}
use realworld_tutorial.Articles.Service.{create_candidate, picked}

module _ (adb : Delegate ArticleRow slug_clash) (udb : Delegate UserRow user_clash) where
  -- The rows, the users and the events of two states are the same.
  pub record Unwritten (w v : World adb udb) : Type 0 where
    pub same_rows : adb.rows v.articles ≡ adb.rows w.articles
    pub same_users : v.users ≡ w.users
    pub same_events : v.events ≡ w.events

  pub Unwritten-refl : (w : World adb udb) → Unwritten w w
  Unwritten-refl w = record { same_rows = refl; same_users = refl; same_events = refl }

  pub Unwritten-trans : (w v u : World adb udb) → Unwritten w v → Unwritten v u → Unwritten w u
  Unwritten-trans w v u h k = record {
    same_rows = k.same_rows ∙ h.same_rows;
    same_users = k.same_users ∙ h.same_users;
    same_events = k.same_events ∙ h.same_events;
  }

  pub Unwritten-eq : (w v : World adb udb) → v ≡ w → Unwritten w v
  Unwritten-eq w v e = subst (λ x. Unwritten w x) (sym e) (Unwritten-refl w)

  -- The author of a row, as the database has found it.
  abbrev pub IsAuthor : ℕ → UserRow → udb.Store → Type 0
  IsAuthor id author s = Memᴰ author (udb.rows s) × (author.id ≡ id)

  pub found-IsAuthor :
      (id : ℕ) (author : UserRow) (s : udb.Store)
      → udb.find_first (λ u. u.id == id) s ≡ ok (some author)
      → IsAuthor id author s
  found-IsAuthor id author s h =
      let (m, e) =
        subst (Finds (λ u. u.id == id) (udb.rows s)) h (udb.find_first_lem (λ u. u.id == id) s) in
      (m, ground arith)

  pub create-err :
      (make : ℕ → ArticleRow) (s : adb.Store) (e : Exception) (a : adb.Store)
      → adb.create make s ≡ (err e, a)
      → adb.rows a ≡ adb.rows s
  create-err make s e a h =
      (subst
        (λ (x : Outcome ArticleRow × adb.Store).
          Creates slug_clash make (adb.next_id s) (adb.rows s) x.0 (adb.next_id x.1) (adb.rows x.1))
        h (adb.create_lem make s)).2

  pub update-err :
      (p : ArticleRow → Bool) (f : ArticleRow → ArticleRow) (s : adb.Store) (e : Exception)
      (a : adb.Store)
      → adb.update p f s ≡ (err e, a)
      → adb.rows a ≡ adb.rows s
  update-err p f s e a h =
      (subst
        (λ (x : Outcome ArticleRow × adb.Store). UpdatesOne p f (adb.rows s) x.0 (adb.rows x.1)) h
        ((adb.update_lem p f s).0)).1

  module _ (sort : List Codes → List Codes) (viewer : Option ℕ) (m : M adb.Store ArticleRow)
      (w : World adb udb) where
    -- A write and its select that answer: the write has answered, and the row's author was found.
    pub record Written (x : ArticleRecord) (v : World adb udb) : Type 0 where
      pub row : ArticleRow
      pub table : adb.Store
      pub author : UserRow
      pub wrote : m w.articles ≡ (ok row, table)
      pub found : udb.find_first (λ u. u.id == row.author_id) w.users ≡ ok (some author)
      pub answer : x ≡ article_record sort viewer row author
      pub state : v ≡ record w { articles = table }

    joined :
        (r : ArticleRow) (a : adb.Store) (x : ArticleRecord) (v : World adb udb)
        → m w.articles ≡ (ok r, a)
        → (j : Outcome (Option UserRow)) → udb.find_first (λ u. u.id == r.author_id) w.users ≡ j
        → commit adb udb sort w a (with_author adb udb sort viewer r j) ≡ (ok x, v)
        → Written x v
    joined r a x v e (ok (some u)) f h = record {
      row = r;
      table = a;
      author = u;
      wrote = e;
      found = f;
      answer = cc;
      state = cc;
    }
    joined r a x v e (ok none) f h = cc
    joined r a x v e (err y) f h = cc

    pub write_select-Written :
        (x : ArticleRecord) (v : World adb udb)
        → write_select adb udb sort viewer m w ≡ (ok x, v)
        → Written x v
    write_select-Written x v = go (m w.articles) refl
      where
        go :
            (q : Outcome ArticleRow × adb.Store)
            → m w.articles ≡ q
            → finish_write adb udb sort viewer w q ≡ (ok x, v)
            → Written x v
        go (ok r, a) e h =
            joined r a x v e (udb.find_first (λ u. u.id == r.author_id) w.users) refl h
        go (err y, a) e h = cc

    unjoined :
        (r : ArticleRow) (a : adb.Store) (y : Exception) (v : World adb udb)
        → (j : Outcome (Option UserRow))
        → commit adb udb sort w a (with_author adb udb sort viewer r j) ≡ (err y, v)
        → v ≡ w
    unjoined r a y v (ok (some u)) h = cc
    unjoined r a y v (ok none) h = cc
    unjoined r a y v (err z) h = cc

    pub write_select-Unwritten :
        ((e : Exception) (a : adb.Store)
          → m w.articles ≡ (err e, a)
          → adb.rows a ≡ adb.rows w.articles)
        → (y : Exception) (v : World adb udb) → write_select adb udb sort viewer m w ≡ (err y, v)
        → Unwritten w v
    write_select-Unwritten keeps y v = go (m w.articles) refl
      where
        go :
            (q : Outcome ArticleRow × adb.Store)
            → m w.articles ≡ q
            → finish_write adb udb sort viewer w q ≡ (err y, v)
            → Unwritten w v
        go (ok r, a) e h =
            Unwritten-eq w v
              (unjoined r a y v (udb.find_first (λ u. u.id == r.author_id) w.users) h)
        go (err z, a) e h =
            subst (λ x. Unwritten w x) (ap (λ (p : Outcome ArticleRecord × World adb udb). p.1) h)
              (record { same_rows = keeps z a e; same_users = refl; same_events = refl })

  abbrev pub Silent : {A : Type 0} → M (World adb udb) A → Type 0
  Silent m = Respects (λ w v. v ≡ w) m

  pub Silent-bind :
      {A B : Type 0} (m : M (World adb udb) A) (f : A → M (World adb udb) B)
      → Silent m
      → ((a : A) → Silent (f a))
      → Silent (m >>= f)
  Silent-bind m f = Respects-bind (λ w v. v ≡ w) (λ s t u e d. d ∙ e) m f

  picked-Silent : (o : Option Codes) → Silent (picked adb udb o)
  picked-Silent none w = refl
  picked-Silent (some s) w = refl

  -- Drawing a candidate writes nothing.
  pub create_candidate-Silent :
      (lower nfd : Codes → Codes) (sort : List Codes → List Codes) (url : Codes → Codes)
      (title : Codes) (exclude : Option ℕ)
      → Silent (create_candidate adb udb lower nfd sort url title exclude)
  unfolding create_candidate find_slugs_by_base
  create_candidate-Silent lower nfd sort url title exclude =
      let base = to_base_slug lower nfd title in
      Silent-bind (find_slugs_by_base adb udb base exclude)
        (λ used. picked adb udb (pick_candidate used base))
        (Silent-bind (reads (λ w. adb.find_many (has_base base exclude) w.articles))
          (λ rows. pure (map (λ (r : ArticleRow). r.slug) rows)) (λ w. refl) (λ rows w. refl))
        (λ used. picked-Silent (pick_candidate used base))
