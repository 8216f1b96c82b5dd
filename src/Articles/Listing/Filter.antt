-- ===== src/Articles/Listing/Filter.antt =====
-- What the conditions of the listings ask of an article.
use mathlib.Core.List.{Memᴰ}
use realworld_tutorial.Base.{
  ℕ, ◌≡◌, refl, subst, ◌↔◌, Bool, true, ◌&&◌, Option, none, some, List, [], ◌∷◌, arith, ◌==◌,
  some_is, some_is-mem, mem-some_is, Codes, codes_eq, codes_eq_iff, includes,
}
use realworld_tutorial.Users.{UserRow}
use realworld_tutorial.Articles.Tags.{ListArticlesQuery, includes-mem}
use realworld_tutorial.Articles.Repository.{ArticleRow}
use realworld_tutorial.Articles.Listing.{has_tag, has_author, has_fan, list_where, feed_where}

abbrev pub IsTagged : Option Codes → ArticleRow → Type 0
IsTagged none r = Unit
IsTagged (some tag) r = Memᴰ tag r.tag_list

abbrev pub IsWrittenBy : List UserRow → Option Codes → ArticleRow → Type 0
IsWrittenBy users none r = Unit
IsWrittenBy users (some username) r =
    (u : UserRow) × Memᴰ u users × (u.id ≡ r.author_id) × (u.username ≡ username)

abbrev pub IsLikedBy : List UserRow → Option Codes → ArticleRow → Type 0
IsLikedBy users none r = Unit
IsLikedBy users (some username) r =
    (u : UserRow) × Memᴰ u users × (u.username ≡ username) × Memᴰ u.id r.favorited_by

-- Each condition that the filter has.
abbrev pub PassesFilter : ListArticlesQuery → List UserRow → ArticleRow → Type 0
PassesFilter f users r =
    IsTagged f.tag r × IsWrittenBy users f.author r × IsLikedBy users f.favorited r

-- The user follows the author.
abbrev pub IsFed : ℕ → List UserRow → ArticleRow → Type 0
IsFed user_id users r =
    (u : UserRow) × Memᴰ u users × (u.id ≡ r.author_id) × Memᴰ user_id u.followed_by

and_iff : (a b : Bool) → ((a && b) ≡ true) ↔ ((a ≡ true) × (b ≡ true))
and_iff a b = ground arith

mem-includes : (xs : List Codes) (a : Codes) → Memᴰ a xs → includes xs a ≡ true
mem-includes [] a m = elim m [ ]
mem-includes (x ∷ xs) a (Memᴰ.head e) = ground (arith, codes_eq_iff x a, e)
mem-includes (x ∷ xs) a (Memᴰ.tail m) = ground (arith, mem-includes xs a m)

has_tag_iff : (o : Option Codes) (r : ArticleRow) → (has_tag o r ≡ true) ↔ IsTagged o r
has_tag_iff none r = (λ _. tt, λ _. refl)
has_tag_iff (some tag) r = (includes-mem r.tag_list tag, mem-includes r.tag_list tag)

ids_iff : (i : ℕ) (ids : List ℕ) → (some_is (λ j. j == i) ids ≡ true) ↔ Memᴰ i ids
ids_iff i ids = (
  λ h.
      let (j, m, e) = some_is-mem (λ j. j == i) ids h in
      subst (λ k. Memᴰ k ids) {x = j} {y = i} (ground arith) m,
  λ m. mem-some_is (λ j. j == i) ids i m (ground arith),
)

same_number : (a b : ℕ) → a ≡ b → (a == b) ≡ true
same_number a b h = ground arith

has_author_iff :
    (users : List UserRow) (o : Option Codes) (r : ArticleRow)
    → (has_author users o r ≡ true) ↔ IsWrittenBy users o r
has_author_iff users none r = (λ _. tt, λ _. refl)
has_author_iff users (some username) r = (
  λ h.
      let (u, m, e) = some_is-mem p users h in
      let (same_id, same_name) =
        (and_iff (u.id == r.author_id) (codes_eq u.username username)).0 e in
      (u, m, ground arith, (codes_eq_iff u.username username).0 same_name),
  λ h. mem-some_is p users h.0 h.1 (
      (and_iff (h.0.id == r.author_id) (codes_eq h.0.username username)).1
        (same_number h.0.id r.author_id h.2, (codes_eq_iff h.0.username username).1 h.3)),
)
  where
    p : UserRow → Bool
    p u = u.id == r.author_id && codes_eq u.username username

has_fan_iff :
    (users : List UserRow) (o : Option Codes) (r : ArticleRow)
    → (has_fan users o r ≡ true) ↔ IsLikedBy users o r
has_fan_iff users none r = (λ _. tt, λ _. refl)
has_fan_iff users (some username) r = (
  λ h.
      let (u, m, e) = some_is-mem p users h in
      let (same_name, fan) =
        (and_iff (codes_eq u.username username) (some_is (λ i. i == u.id) r.favorited_by)).0 e in
      (u, m, (codes_eq_iff u.username username).0 same_name, (ids_iff u.id r.favorited_by).0 fan),
  λ h. mem-some_is p users h.0 h.1 (
      (and_iff (codes_eq h.0.username username) (some_is (λ i. i == h.0.id) r.favorited_by)).1
        ((codes_eq_iff h.0.username username).1 h.2, (ids_iff h.0.id r.favorited_by).1 h.3)),
)
  where
    p : UserRow → Bool
    p u = codes_eq u.username username && some_is (λ i. i == u.id) r.favorited_by

pub list_where_iff :
    (f : ListArticlesQuery) (users : List UserRow) (r : ArticleRow)
    → (list_where f users r ≡ true) ↔ PassesFilter f users r
list_where_iff f users r = (
  λ h.
      let (front, fan) =
        (and_iff (has_tag f.tag r && has_author users f.author r) (has_fan users f.favorited r)).0
          h in
      let (tag, author) = (and_iff (has_tag f.tag r) (has_author users f.author r)).0 front in
      (
        (has_tag_iff f.tag r).0 tag,
        (has_author_iff users f.author r).0 author,
        (has_fan_iff users f.favorited r).0 fan,
      ),
  λ h. (and_iff (has_tag f.tag r && has_author users f.author r) (has_fan users f.favorited r)).1 (
    (and_iff (has_tag f.tag r) (has_author users f.author r)).1
        ((has_tag_iff f.tag r).1 h.0, (has_author_iff users f.author r).1 h.1),
    (has_fan_iff users f.favorited r).1 h.2,
  ),
)

pub feed_where_iff :
    (user_id : ℕ) (users : List UserRow) (r : ArticleRow)
    → (feed_where user_id users r ≡ true) ↔ IsFed user_id users r
feed_where_iff user_id users r = (
  λ h.
      let (u, m, e) = some_is-mem p users h in
      let (same_id, follows) =
        (and_iff (u.id == r.author_id) (some_is (λ i. i == user_id) u.followed_by)).0 e in
      (u, m, ground arith, (ids_iff user_id u.followed_by).0 follows),
  λ h. mem-some_is p users h.0 h.1 (
      (and_iff (h.0.id == r.author_id) (some_is (λ i. i == user_id) h.0.followed_by)).1
        (same_number h.0.id r.author_id h.2, (ids_iff user_id h.0.followed_by).1 h.3)),
)
  where
    p : UserRow → Bool
    p u = u.id == r.author_id && some_is (λ i. i == user_id) u.followed_by
