-- ===== src/Api/Pagination.antt =====
-- src/prisma/prisma.extension.ts: the pages of a listing. The listing is what the query selects, in
-- its order; `count` and `findMany` with `skip` and `take` read it. `Math.ceil` of a quotient is
-- written over natural numbers, for a limit that is not zero.
use native.Mathlib.Nat.{le-div_iff_mul-le, suc-mul}
use realworld_tutorial.Base.{
  ℕ, zero, suc, ◌+◌, ◌-◌, ◌*◌, ◌/◌, ◌≤◌, ◌<◌, ◌≡◌, refl, sym, ap, ◌∙◌, ◌↔◌, Bool, true, List, [],
  ◌∷◌, ◌++◌, arith, ltb, ltb→lt, length, Option, none, some,
}

pub record PaginationMeta : Type 0 where
  pub total : ℕ
  pub page : ℕ
  pub last_page : ℕ
  pub limit : ℕ
  pub has_next_page : Bool
  pub has_prev_page : Bool

abbrev pub default_page : ℕ
default_page = 1

abbrev pub default_limit : ℕ
default_limit = 10

abbrev pub pagination_skip : ℕ → ℕ → ℕ
pagination_skip page limit = (page - 1) * limit

abbrev pub ceil_div : ℕ → ℕ → ℕ
ceil_div total limit = (total + (limit - 1)) / limit

unfoldable pub build_pagination_meta : ℕ → ℕ → ℕ → PaginationMeta
build_pagination_meta total page limit =
    let last_page = ceil_div total limit in
    record {
      total = total;
      page = page;
      last_page = last_page;
      limit = limit;
      has_next_page = ltb page last_page;
      has_prev_page = ltb 1 page;
    }

abbrev pub take {ℓ} : {A : Type ℓ} → ℕ → List A → List A
take zero xs = []
take (suc n) [] = []
take (suc n) (x ∷ xs) = x ∷ take n xs

abbrev pub drop {ℓ} : {A : Type ℓ} → ℕ → List A → List A
drop zero xs = xs
drop (suc n) [] = []
drop (suc n) (x ∷ xs) = drop n xs

pub record Paginated (A : Type 0) : Type 0 where
  pub data' : List A
  pub meta : PaginationMeta

abbrev pub or_default : Option ℕ → ℕ → ℕ
or_default none d = d
or_default (some n) d = n

unfoldable pub paginate : {A : Type 0} → List A → Option ℕ → Option ℕ → Paginated A
unfolding build_pagination_meta
paginate listing page limit =
    let p = or_default page default_page in
    let l = or_default limit default_limit in
    record {
      data' = take l (drop (pagination_skip p l) listing);
      meta = build_pagination_meta (length listing) p l;
    }

module _ {A : Type 0} where
  take-drop : (n : ℕ) (xs : List A) → take n xs ++ drop n xs ≡ xs
  take-drop zero xs = refl
  take-drop (suc n) [] = refl
  take-drop (suc n) (x ∷ xs) = ap (λ ys. x ∷ ys) (take-drop n xs)

  drop-all : (n : ℕ) (xs : List A) → length xs ≤ n → drop n xs ≡ []
  drop-all zero [] h = refl
  drop-all zero (x ∷ xs) h = absurd (omega arith)
  drop-all (suc n) [] h = refl
  drop-all (suc n) (x ∷ xs) h = drop-all n xs (omega arith)

  drop-drop : (m n : ℕ) (xs : List A) → drop m (drop n xs) ≡ drop (n + m) xs
  drop-drop m zero xs = let e : m ≡ 0 + m = omega arith in ap (λ k. drop k xs) e
  drop-drop zero (suc n) [] = sym (drop-all (suc n + 0) [] (omega arith))
  drop-drop (suc m) (suc n) [] = sym (drop-all (suc n + suc m) [] (omega arith))
  drop-drop m (suc n) (x ∷ xs) = drop-drop m n xs ∙ ap (λ k. drop k (x ∷ xs)) counted
    where
      counted : suc (n + m) ≡ suc n + m
      counted = omega arith

  append_assoc : (xs ys zs : List A) → (xs ++ ys) ++ zs ≡ xs ++ (ys ++ zs)
  append_assoc [] ys zs = refl
  append_assoc (x ∷ xs) ys zs = ap (λ ws. x ∷ ws) (append_assoc xs ys zs)

  append_nil : (xs : List A) → xs ++ [] ≡ xs
  append_nil [] = refl
  append_nil (x ∷ xs) = ap (λ ws. x ∷ ws) (append_nil xs)

  -- The pages from the first to the `k`th, one after another.
  abbrev pub pages_to : List A → ℕ → ℕ → List A
  pages_to listing limit zero = []
  pages_to listing limit (suc k) =
      pages_to listing limit k ++ (paginate listing (some (suc k)) (some limit)).data'

  pages_to-drop :
      (listing : List A) (limit k : ℕ)
      → pages_to listing limit k ++ drop (k * limit) listing ≡ listing
  unfolding paginate
  pages_to-drop listing limit zero =
      let e : 0 * limit ≡ 0 = omega arith in ap (λ k. drop k listing) e
  pages_to-drop listing limit (suc k) =
      append_assoc (pages_to listing limit k)
        (take limit (drop (pagination_skip (suc k) limit) listing)) (drop (suc k * limit) listing)
      ∙ ap (λ ys. pages_to listing limit k ++ ys) (page skipped)
      ∙ pages_to-drop listing limit k
    where
      skipped : pagination_skip (suc k) limit ≡ k * limit
      skipped = ap (λ n. n * limit) (omega arith)

      page :
          pagination_skip (suc k) limit ≡ k * limit
          → take limit (drop (pagination_skip (suc k) limit) listing)
              ++ drop (suc k * limit) listing
            ≡ drop (k * limit) listing
      page e = rw e (
          ap (λ ys. take limit (drop (k * limit) listing) ++ ys)
            (ap (λ n. drop n listing) (suc-mul k limit) ∙ sym (drop-drop limit (k * limit) listing))
          ∙ take-drop limit (drop (k * limit) listing))

-- The last page is the first that reaches the end of the listing.
ceil_div-lt :
    (total limit page : ℕ) → 0 < limit → (page < ceil_div total limit) ↔ (page * limit < total)
ceil_div-lt total limit page h =
    let (to, from) = le-div_iff_mul-le {k = limit} {x = suc page} {y = total + (limit - 1)} h in
    (λ lt. omega (arith, to lt, suc-mul page limit), λ lt. from (omega (arith, suc-mul page limit)))

-- The pages from the first to the last, one after another, are the listing, for a limit that is not
-- zero; the page after one is announced exactly if the listing goes on behind it, and the page before
-- one exactly if it is not the first.
pub paginate_lem :
    {A : Type 0} (listing : List A) (limit page : ℕ)
    → 0 < limit
    → (pages_to listing limit (paginate listing (some page) (some limit)).meta.last_page ≡ listing)
      × (((paginate listing (some page) (some limit)).meta.has_next_page ≡ true)
          ↔ (page * limit < length listing))
      × (((paginate listing (some page) (some limit)).meta.has_prev_page ≡ true) ↔ (1 < page))
unfolding paginate build_pagination_meta
paginate_lem listing limit page h = (
  sym (append_nil (pages_to listing limit last))
      ∙ ap (λ ys. pages_to listing limit last ++ ys) (sym (drop-all (last * limit) listing reached))
      ∙ pages_to-drop listing limit last,
  (
    λ e. (ceil_div-lt (length listing) limit page h).0 (ltb→lt page last e),
    λ e. lt→ltb page last ((ceil_div-lt (length listing) limit page h).1 e),
  ),
  (λ e. ground arith, λ e. ground arith),
)
  where
    last : ℕ
    last = ceil_div (length listing) limit

    reached : length listing ≤ last * limit
    reached = omega (arith, (ceil_div-lt (length listing) limit last h).1)

    lt→ltb : (a b : ℕ) → a < b → ltb a b ≡ true
    lt→ltb a b k = ground arith
