-- ===== src/Articles/Tags.antt =====
-- src/articles/articles.helper.ts: tags and filters. `toLowerCase` is a parameter.
use mathlib.Core.List.{Memᴰ}
use realworld_tutorial.Base.{
  ◌≡◌, refl, sym, subst, ◌≢◌, ◌↔◌, ◌⊎◌, inl, inr, Bool, true, false, Option, none, some, List, [],
  ◌∷◌, map, arith, keep, append_one, if◌then◌else◌, Codes, codes_eq_iff, includes, trim, Bool-cases,
  mem-append_left, mem-append_one, mem-append_one_inv, mem-map, map-mem, mem-keep, keep-mem,
}

pub record UpdateArticleDto : Type 0 where
  pub title : Option Codes
  pub description : Option Codes
  pub body : Option Codes
  pub tag_list : Option (List Codes)

-- `value !== undefined`
abbrev pub is_defined {ℓ} : {A : Type ℓ} → Option A → Bool
is_defined none = false
is_defined (some a) = true

abbrev pub any_true : List Bool → Bool
any_true [] = false
any_true (b ∷ bs) = if b then true else any_true bs

unfoldable pub has_effective_update : UpdateArticleDto → Bool
has_effective_update dto = any_true (
    is_defined dto.title
    ∷ is_defined dto.description
    ∷ is_defined dto.body
    ∷ is_defined dto.tag_list
    ∷ [])

-- `new Set(...)` and its members in the order of their first insertion.
unfoldable pub add_to_set : List Codes → Codes → List Codes
add_to_set xs a = if includes xs a then xs else append_one xs a

unfoldable pub set_from : List Codes → List Codes → List Codes
unfolding add_to_set
set_from xs [] = xs
set_from xs (a ∷ as') = set_from (add_to_set xs a) as'

-- `Boolean` on a string.
abbrev pub is_truthy : Codes → Bool
is_truthy [] = false
is_truthy (c ∷ s) = true

unfoldable pub normalize_tag : (Codes → Codes) → Codes → Codes
normalize_tag lower tag = lower (trim tag)

unfoldable pub normalize_tags : (Codes → Codes) → List Codes → List Codes
unfolding set_from normalize_tag
normalize_tags lower tags = set_from [] (keep is_truthy (map (normalize_tag lower) tags))

pub record ListArticlesQuery : Type 0 where
  pub tag : Option Codes
  pub author : Option Codes
  pub favorited : Option Codes

abbrev pub truthy_or_none : Option Codes → Option Codes
truthy_or_none none = none
truthy_or_none (some s) = if is_truthy s then some s else none

abbrev pub map_option : (Codes → Codes) → Option Codes → Option Codes
map_option f none = none
map_option f (some s) = some (f s)

-- The filter that the query asks for has the query's own shape; the pages are read apart.
unfoldable pub build_article_filter : (Codes → Codes) → ListArticlesQuery → ListArticlesQuery
unfolding normalize_tag
build_article_filter lower query = record query {
  tag = truthy_or_none (map_option (normalize_tag lower) query.tag);
}

-- No member stands twice.
abbrev pub Distinct : List Codes → Type 0
Distinct [] = Unit
Distinct (x ∷ xs) = (includes xs x ≡ false) × Distinct xs

pub includes-mem : (xs : List Codes) (a : Codes) → includes xs a ≡ true → Memᴰ a xs
includes-mem [] a h = cc
includes-mem (x ∷ xs) a h = elim (Bool-cases (includes xs a)) [
  | inl e ↦ Memᴰ.tail (includes-mem xs a e)
  | inr e ↦ Memᴰ.head (ground (arith, codes_eq_iff x a))
]

includes-append_one :
    (xs : List Codes) (a b : Codes)
    → includes xs b ≡ false
    → a ≢ b
    → includes (append_one xs a) b ≡ false
includes-append_one [] a b h n = ground (arith, codes_eq_iff a b)
includes-append_one (x ∷ xs) a b h n = ground (arith, includes-append_one xs a b)

Distinct-append_one :
    (xs : List Codes) (a : Codes) → Distinct xs → includes xs a ≡ false → Distinct (append_one xs a)
Distinct-append_one [] a d h = (refl, tt)
Distinct-append_one (x ∷ xs) a (p, d) h = (
  includes-append_one xs a x p (λ e. ground (arith, codes_eq_iff x a)),
  Distinct-append_one xs a d (ground arith),
)

add_to_set-Distinct : (xs : List Codes) (a : Codes) → Distinct xs → Distinct (add_to_set xs a)
unfolding add_to_set
add_to_set-Distinct xs a d = elim (Bool-cases (includes xs a)) [
  | inl e ↦ rw e d
  | inr e ↦ rw e (Distinct-append_one xs a d e)
]

add_to_set-mem : (xs : List Codes) (a b : Codes) → Memᴰ b (add_to_set xs a) ↔ (Memᴰ b xs ⊎ (b ≡ a))
unfolding add_to_set
add_to_set-mem xs a b = elim (Bool-cases (includes xs a)) [
  | inl e ↦ rw e (
    inl,
    λ h. elim h [ inl m ↦ m | inr q ↦ subst (λ x. Memᴰ x xs) (sym q) (includes-mem xs a e) ],
  )
  | inr e ↦ rw e (
    mem-append_one_inv xs a b,
    λ h. elim h [
      | inl m ↦ mem-append_left xs (a ∷ []) b m
      | inr q ↦ subst (λ x. Memᴰ x (append_one xs a)) (sym q) (mem-append_one xs a)
    ],
  )
]

pub set_from-Distinct : (xs ys : List Codes) → Distinct xs → Distinct (set_from xs ys)
unfolding set_from
set_from-Distinct xs [] d = d
set_from-Distinct xs (y ∷ ys) d =
    set_from-Distinct (add_to_set xs y) ys (add_to_set-Distinct xs y d)

pub set_from-mem :
    (xs ys : List Codes) (b : Codes) → Memᴰ b (set_from xs ys) ↔ (Memᴰ b xs ⊎ Memᴰ b ys)
unfolding set_from
set_from-mem xs [] b = (inl, λ h. elim h [ inl m ↦ m | inr m ↦ elim m [ ] ])
set_from-mem xs (y ∷ ys) b =
    let (to, from) = set_from-mem (add_to_set xs y) ys b in
    let (split, join) = add_to_set-mem xs y b in
    (
      λ m. elim (to m) [
        | inr n ↦ inr (Memᴰ.tail n)
        | inl n ↦ elim (split n) [ inl k ↦ inl k | inr e ↦ inr (Memᴰ.head e) ]
      ],
      λ h. elim h [
        | inl m ↦ from (inl (join (inl m)))
        | inr (Memᴰ.head e) ↦ from (inl (join (inr e)))
        | inr (Memᴰ.tail n) ↦ from (inr n)
      ],
    )

-- The tags that are stored stand once each, and they are the tags given, trimmed and in lower case,
-- less those of which nothing is left.
pub normalize_tags_lem :
    (lower : Codes → Codes) (tags : List Codes)
    → Distinct (normalize_tags lower tags)
      × ((t : Codes)
          → Memᴰ t (normalize_tags lower tags) ↔ (
              ((raw : Codes) × Memᴰ raw tags × (t ≡ normalize_tag lower raw))
              × (is_truthy t ≡ true)))
unfolding normalize_tags
normalize_tags_lem lower tags = (set_from-Distinct [] given tt, λ t. (there t, back t))
  where
    given : List Codes
    given = keep is_truthy (map (normalize_tag lower) tags)

    there :
        (t : Codes)
        → Memᴰ t (set_from [] given)
        → ((raw : Codes) × Memᴰ raw tags × (t ≡ normalize_tag lower raw)) × (is_truthy t ≡ true)
    there t m = elim ((set_from-mem [] given t).0 m) [
      | inl n ↦ elim n [ ]
      | inr n ↦
          let (k, e) = keep-mem is_truthy (map (normalize_tag lower) tags) t n in
          (map-mem (normalize_tag lower) tags t k, e)
    ]

    back :
        (t : Codes)
        → (((raw : Codes) × Memᴰ raw tags × (t ≡ normalize_tag lower raw)) × (is_truthy t ≡ true))
        → Memᴰ t (set_from [] given)
    back t ((raw, m, e), h) = (set_from-mem [] given t).1 (
        inr (
          mem-keep is_truthy (map (normalize_tag lower) tags) t
            (subst (λ x. Memᴰ x (map (normalize_tag lower) tags)) (sym e)
              (mem-map (normalize_tag lower) tags raw m))
            h))
