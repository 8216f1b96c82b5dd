-- ===== src/Favorites/Edges.antt =====
-- What marking and unmarking share: the reading of the article that a slug names, and the write of one
-- row of the articles, with the answer where it collides.
use mathlib.Core.List.{Memᴰ}
use realworld_tutorial.Base.{
  mem-map, ℕ, ◌≡◌, refl, sym, ap, ◌∙◌, subst, ◌⊎◌, inl, inr, Bool, true, not, append_one, [], ◌∷◌,
  arith, ltb, length, keep, some_is, Option, none, some, List, map, ◌==◌, if◌then◌else◌, Bool-cases,
  Codes, codes_eq, codes_eq_iff, Exception, Outcome, ok, err, pure, throw, catch_with, ◌>>=◌, M,
}
use realworld_tutorial.Base.Prisma.{Delegate, Finds, UpdatesOne, patch}
use realworld_tutorial.Users.{UserRow, user_clash}
use realworld_tutorial.Articles.Repository.{
  ArticleRow, slug_clash, ArticleRecord, World, article_record, find_by_slug, join_found,
  with_author, write_select,
}
use realworld_tutorial.Articles.Frames.{
  Unwritten, IsAuthor, found-IsAuthor, Unwritten-trans, Unwritten-eq, update-err,
  write_select-Written, write_select-Unwritten,
}
use realworld_tutorial.Favorites.{
  is_collision, is_favorite, found_record, require_viewed, write_edge,
}

length-keep : (p : ℕ → Bool) (ids : List ℕ) → ltb 0 (length (keep p ids)) ≡ some_is p ids
length-keep p [] = refl
length-keep p (i ∷ ids) = elim (Bool-cases (p i)) [
  | inl e ↦ rw e (ground arith)
  | inr e ↦ rw e (length-keep p ids)
]

-- Whether the row of an article has a user among its fans.
abbrev pub has_fan : ℕ → ArticleRow → Bool
has_fan user_id r = some_is (λ i. i == user_id) r.favorited_by

-- The row with the user among its fans, once, and without.
abbrev pub with_fan : ℕ → ArticleRow → ArticleRow
with_fan user_id r = record r {
  favorited_by = if has_fan user_id r then r.favorited_by else append_one r.favorited_by user_id;
}

abbrev pub without_fan : ℕ → ArticleRow → ArticleRow
without_fan user_id r = record r { favorited_by = keep (λ i. not (i == user_id)) r.favorited_by }

-- The code's test on the article as a user sees it says whether the row has the user among its fans.
pub is_favorite-has_fan :
    (sort : List Codes → List Codes) (user_id : ℕ) (r : ArticleRow) (author : UserRow)
    → is_favorite (article_record sort (some user_id) r author) ≡ has_fan user_id r
unfolding article_record
is_favorite-has_fan sort user_id r author = length-keep (λ i. i == user_id) r.favorited_by

module _ (adb : Delegate ArticleRow slug_clash) (udb : Delegate UserRow user_clash)
    (sort : List Codes → List Codes) (url : Codes → Codes) (user_id : ℕ) (slug : Codes) where
  -- The article as the user sees it: the row that the slug names, with its author.
  pub record Viewed (w : World adb udb) (x : ArticleRecord) : Type 0 where
    pub row : ArticleRow
    pub author : UserRow
    pub present : Memᴰ row (adb.rows w.articles)
    pub named : row.slug ≡ slug
    pub authored : IsAuthor adb udb row.author_id author w.users
    pub seen : x ≡ article_record sort (some user_id) row author

  abbrev pub Requires : World adb udb → Outcome ArticleRecord × World adb udb → Type 0
  Requires w (ok x, v) = (v ≡ w) × Viewed w x
  Requires w (err e, v) = v ≡ w

  pub require_viewed-Requires :
      (w : World adb udb) → Requires w (require_viewed adb udb sort url user_id slug w)
  unfolding require_viewed find_by_slug
  require_viewed-Requires w =
      go (adb.find_first (λ r. codes_eq r.slug slug) w.articles)
        (adb.find_first_lem (λ r. codes_eq r.slug slug) w.articles)
    where
      joined :
          (r : ArticleRow)
          → Memᴰ r (adb.rows w.articles)
          → codes_eq r.slug slug ≡ true
          → (j : Outcome (Option UserRow)) → udb.find_first (λ u. u.id == r.author_id) w.users ≡ j
          → Requires w (
              (((λ (_ : World adb udb). (with_author adb udb sort (some user_id) r j, w)) >>= λ x.
              pure (some x))
                  >>= found_record adb udb sort url)
                w)
      joined r m e (ok (some u)) f = (
        refl,
        record {
          row = r;
          author = u;
          present = m;
          named = (codes_eq_iff r.slug slug).0 e;
          authored = found-IsAuthor adb udb r.author_id u w.users f;
          seen = refl;
        },
      )
      joined r m e (ok none) f = refl
      joined r m e (err x) f = refl

      go :
          (x : Outcome (Option ArticleRow))
          → Finds (λ r. codes_eq r.slug slug) (adb.rows w.articles) x
          → Requires w (
              (((λ (_ : World adb udb). (x, w)) >>= join_found adb udb sort (some user_id))
                  >>= found_record adb udb sort url)
                w)
      go (err e) h = refl
      go (ok none) h = refl
      go (ok (some r)) (m, e) =
          joined r m e (udb.find_first (λ u. u.id == r.author_id) w.users) refl

  module _ (f : ArticleRow → ArticleRow) where
    abbrev pub write_row : M (World adb udb) ArticleRecord
    write_row = write_select adb udb sort (some user_id) (adb.update (λ r. codes_eq r.slug slug) f)

    -- The rows after the one that the slug names was written.
    pub record Edited (w v : World adb udb) : Type 0 where
      pub listing :
          adb.rows v.articles ≡ map (patch (λ r. codes_eq r.slug slug) f) (adb.rows w.articles)
      pub same_users : v.users ≡ w.users
      pub same_events : v.events ≡ w.events

    -- The database reports that another request has written the same edge, and nothing was written.
    pub record Collided (w v : World adb udb) : Type 0 where
      pub reported : Exception
      pub after : World adb udb
      pub threw : write_row w ≡ (err reported, after)
      pub collision : is_collision reported ≡ true
      pub unwritten : Unwritten adb udb w v

    -- What the write has done when it ends in a certain way.
    abbrev pub Writes : World adb udb → Outcome ArticleRecord × World adb udb → Type 0
    Writes w (ok x, v) = Viewed v x × (Edited w v ⊎ Collided w v)
    Writes w (err e, v) = Unwritten adb udb w v

    pub write_edge-Writes :
        ((r : ArticleRow) → (f r).slug ≡ r.slug)
        → (w : World adb udb) → Writes w (write_edge adb udb sort url user_id slug write_row w)
    write_edge-Writes keeps w = go (write_row w) refl
      where
        p : ArticleRow → Bool
        p r = codes_eq r.slug slug

        reread :
            (v : World adb udb)
            → Collided w v
            → (x : Outcome ArticleRecord × World adb udb) → Requires v x
            → Writes w x
        reread v hit (ok x, u) (e, seen) = (
          subst (λ z. Viewed z x) (sym e) seen,
          inr (record {
            reported = hit.reported;
            after = hit.after;
            threw = hit.threw;
            collision = hit.collision;
            unwritten = Unwritten-trans adb udb w v u hit.unwritten (Unwritten-eq adb udb v u e);
          }),
        )
        reread v hit (err x, u) e =
            Unwritten-trans adb udb w v u hit.unwritten (Unwritten-eq adb udb v u e)

        patched : (r : ArticleRow) → p r ≡ true → patch p f r ≡ f r
        patched r e = rw e refl

        go :
            (x : Outcome ArticleRecord × World adb udb)
            → write_row w ≡ x
            → Writes w (
                catch_with
                  (λ (_ : World adb udb). x)
                  (λ e.
                    if is_collision e
                    then require_viewed adb udb sort url user_id slug
                    else throw e)
                  w)
        go (ok x, v) h =
            let q = write_select-Written adb udb sort (some user_id) (adb.update p f) w x v h in
            let (old, m, e, is, listing) =
              subst
                (λ (y : Outcome ArticleRow × adb.Store).
                  UpdatesOne p f (adb.rows w.articles) y.0 (adb.rows y.1))
                q.wrote ((adb.update_lem p f w.articles).0) in
            let rows = ap (λ (z : World adb udb). adb.rows z.articles) q.state ∙ listing in
            (
              record {
                row = q.row;
                author = q.author;
                present =
                    subst (λ rs. Memᴰ q.row rs) (sym rows)
                      (subst (λ r. Memᴰ r (map (patch p f) (adb.rows w.articles)))
                        (patched old e ∙ sym is) (mem-map (patch p f) (adb.rows w.articles) old m));
                named =
                    ap (λ (r : ArticleRow). r.slug) is
                    ∙ keeps old
                    ∙ (codes_eq_iff old.slug slug).0 e;
                authored =
                    subst (IsAuthor adb udb q.row.author_id q.author)
                      (sym (ap (λ (z : World adb udb). z.users) q.state))
                      (found-IsAuthor adb udb q.row.author_id q.author w.users q.found);
                seen = q.answer;
              },
              inl (record {
                listing = rows;
                same_users = ap (λ (z : World adb udb). z.users) q.state;
                same_events = ap (λ (z : World adb udb). z.events) q.state;
              }),
            )
        go (err e, v) h =
            let same =
              write_select-Unwritten adb udb sort (some user_id) (adb.update p f) w
                (λ y a. update-err adb udb p f w.articles y a) e v h in
            elim (Bool-cases (is_collision e)) [
              | inl b ↦ rw b (
                  reread v
                    (record { reported = e; after = v; threw = h; collision = b; unwritten = same })
                    (require_viewed adb udb sort url user_id slug v) (require_viewed-Requires v))
              | inr b ↦ rw b same
            ]
