-- ===== src/Articles/Slug.antt =====
-- src/articles/article-slug.service.ts: the slug of a title, a candidate that is not taken, and the
-- retries around a write. `toLowerCase` and `normalize('NFD')` read Unicode's tables and are
-- parameters; the rest of `toBaseSlug` is written out, over code units.
pub mod Shape
pub mod Candidate
pub mod Retry
use realworld_tutorial.Base.{
  ℕ, zero, suc, ◌+◌, Bool, true, false, not, ◌&&◌, ◌||◌, Option, none, some, List, [], ◌∷◌, ◌++◌,
  map, ◌==◌, leb, keep, length, if◌then◌else◌, Codes, codes, codes_eq, includes, has_infix, trim,
  drop_leading, drop_trailing, Exception, http, prisma, error, Target, fields, as_text, absent,
  Outcome, ok, err, M, ◌>>=◌, throw, pure, catch_with, str_eq, some_is,
}
use realworld_tutorial.Base.Decimal.{decimal}

abbrev pub slug_fallback : Codes
slug_fallback = codes "article"

abbrev pub max_retries : ℕ
max_retries = 3

-- `[a-z0-9]`
abbrev pub is_slug_char : ℕ → Bool
is_slug_char c = (leb b'a' c && leb c b'z') || (leb b'0' c && leb c b'9')

abbrev pub is_dash : ℕ → Bool
is_dash c = c == b'-'

-- `.replace(/đ/g, 'd')`
abbrev pub replace_d : ℕ → ℕ
replace_d c = if c == 0x111 then b'd' else c

-- `[\u0300-\u036f]`
abbrev pub is_mark : ℕ → Bool
is_mark c = leb 0x300 c && leb c 0x36f

-- `.replace(/[^a-z0-9]+/g, '-')`: the flag says that the unit before stood in a run.
unfoldable pub dash_runs : Bool → Codes → Codes
dash_runs in_run [] = []
dash_runs in_run (c ∷ s) =
    let rest = dash_runs (not (is_slug_char c)) s in
    if is_slug_char c then c ∷ rest else if in_run then rest else b'-' ∷ rest

-- `.replace(/^-+|-+$/g, '')`
abbrev pub strip_dashes : Codes → Codes
strip_dashes s = drop_trailing is_dash (drop_leading is_dash s)

-- `slug || ARTICLE_SLUG_FALLBACK`
abbrev pub or_fallback : Codes → Codes
or_fallback [] = slug_fallback
or_fallback (c ∷ s) = c ∷ s

unfoldable pub to_base_slug : (Codes → Codes) → (Codes → Codes) → Codes → Codes
unfolding dash_runs
to_base_slug lower nfd title = or_fallback (
    strip_dashes
      (dash_runs false (keep (λ c. not (is_mark c)) (nfd (map replace_d (lower (trim title)))))))

-- `${base}-${suffix}`
abbrev pub with_suffix : Codes → ℕ → Codes
with_suffix base n = base ++ (b'-' ∷ decimal n)

-- The `while` loop of `createCandidate`, on fuel; `none` means that the fuel ran out.
unfoldable pub next_suffix : List Codes → Codes → ℕ → ℕ → Option ℕ
next_suffix used base zero n = none
next_suffix used base (suc fuel) n =
    let rest = next_suffix used base fuel (n + 1) in
    if includes used (with_suffix base n) then rest else some n

abbrev suffixed : Codes → Option ℕ → Option Codes
suffixed base none = none
suffixed base (some n) = some (with_suffix base n)

-- `createCandidate` on the slugs that `findSlugsByBase` lists.
unfoldable pub pick_candidate : List Codes → Codes → Option Codes
unfolding next_suffix
pick_candidate used base =
    let later = suffixed base (next_suffix used base (suc (length used)) 2) in
    if includes used base then later else some base

-- `isSlugConflict`; `String(undefined)` is "undefined".
abbrev pub target_has_slug : Target → Bool
target_has_slug (fields names) = some_is (λ n. str_eq n "slug") names
target_has_slug (as_text s) = has_infix (codes "slug") (codes s)
target_has_slug absent = has_infix (codes "slug") (codes "undefined")

unfoldable pub is_slug_conflict : Exception → Bool
is_slug_conflict (http code message) = false
is_slug_conflict (prisma code target) = str_eq code "P2002" && target_has_slug target
is_slug_conflict (error message) = false

abbrev pub slug_conflict : Exception
slug_conflict = http 409 "common.error.articleSlugConflict"

module _ {S T : Type 0} (candidate : M S Codes) (write : Codes → M S T) where
  -- The `catch`: only a slug that was taken in the meantime leads to another attempt.
  abbrev pub retry : M S T → Exception → M S T
  retry again e = if is_slug_conflict e then again else throw e

  -- The loop of `execute`: the attempts that are left, and a candidate and a write for each.
  unfoldable pub execute_from : ℕ → M S T
  unfolding is_slug_conflict
  execute_from zero = throw slug_conflict
  execute_from (suc n) = do slug ← candidate; catch_with (write slug) (retry (execute_from n))

  unfoldable pub execute : M S T
  unfolding execute_from
  execute = execute_from max_retries
