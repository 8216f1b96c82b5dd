-- ===== src/Auth/Token/Lifetime.antt =====
-- `resolveRefreshTtlDays` of src/auth/token/token.service.ts: the lifetime of a refresh token, from what is
-- configured. A number is natural here, which the greatest of them are not in JavaScript.
use realworld_tutorial.Base.{
  ℕ, ◌+◌, ◌*◌, ◌-◌, ◌<◌, ◌≡◌, refl, ap, ◌∙◌, true, false, Option, none, some, [], ◌∷◌, All, arith,
  ltb, ◌==◌, if◌then◌else◌, Codes, is_space, drop_leading,
}
use realworld_tutorial.Base.Decimal.{
  decimal, read_from, read_from-decimal, decimal-IsDigits, is_digit,
}

-- What `Number.parseInt` gives: the value of the digits behind white space and a sign, or no number.
pub data Parsed : Type 0 where
  not_a_number : Parsed
  natural negative : ℕ → Parsed

abbrev pub add_digit : Option ℕ → ℕ → ℕ
add_digit none c = c - 48
add_digit (some n) c = n * 10 + (c - 48)

-- The value of the digits at the beginning, behind those that have been read.
unfoldable pub read_digits : Option ℕ → Codes → Option ℕ
read_digits acc [] = acc
read_digits acc (c ∷ s) =
    let rest = read_digits (some (add_digit acc c)) s in if is_digit c then rest else acc

abbrev pub with_sign : (ℕ → Parsed) → Option ℕ → Parsed
with_sign sign none = not_a_number
with_sign sign (some n) = sign n

abbrev pub parse_signed : Codes → Parsed
parse_signed [] = not_a_number
parse_signed (c ∷ s) =
    if c == 45
    then with_sign negative (read_digits none s)
    else if c == 43
    then with_sign natural (read_digits none s)
    else with_sign natural (read_digits none (c ∷ s))

abbrev pub parse_int : Codes → Parsed
parse_int s = parse_signed (drop_leading is_space s)

abbrev pub default_refresh_token_ttl_days : ℕ
default_refresh_token_ttl_days = 30

abbrev pub positive_or_default : Parsed → ℕ
positive_or_default not_a_number = default_refresh_token_ttl_days
positive_or_default (negative n) = default_refresh_token_ttl_days
positive_or_default (natural n) = if ltb 0 n then n else default_refresh_token_ttl_days

abbrev pub configured_text : Option Codes → Codes
configured_text none = []
configured_text (some s) = s

unfoldable pub resolve_refresh_ttl_days : Option Codes → ℕ
unfolding read_digits
resolve_refresh_ttl_days configured = positive_or_default (parse_int (configured_text configured))

positive_or_default-positive : (x : Parsed) → 0 < positive_or_default x
positive_or_default-positive not_a_number = omega arith
positive_or_default-positive (negative n) = omega arith
positive_or_default-positive (natural n) = ground arith

read_digits-read_from :
    (a : ℕ) (s : Codes)
    → All (λ c. is_digit c ≡ true) s
    → read_digits (some a) s ≡ some (read_from a s)
unfolding read_digits read_from
read_digits-read_from a [] h = refl
read_digits-read_from a (c ∷ s) (e, h) = rw e (read_digits-read_from (a * 10 + (c - 48)) s h)

parse_int-digits :
    (s : Codes)
    → All (λ c. is_digit c ≡ true) s
    → 0 < read_from 0 s
    → parse_int s ≡ natural (read_from 0 s)
unfolding read_digits read_from
parse_int-digits [] h p = absurd (omega arith)
parse_int-digits (c ∷ s) (e, h) p =
    let blank : is_space c ≡ false = ground arith in
    let minus : (c == 45) ≡ false = ground arith in
    let plus : (c == 43) ≡ false = ground arith in
    let first : c - 48 ≡ 0 * 10 + (c - 48) = omega arith in
    rw blank (
      rw minus (
        rw plus (
          rw e (
            ap (with_sign natural) (read_digits-read_from (c - 48) s h)
            ∙ ap (λ k. natural (read_from k s)) first))))

-- The lifetime is never zero, and a lifetime that is configured in digits is the one that is used.
pub resolve_refresh_ttl_days_lem :
    ((o : Option Codes) → 0 < resolve_refresh_ttl_days o)
    × ((n : ℕ) → 0 < n → resolve_refresh_ttl_days (some (decimal n)) ≡ n)
unfolding resolve_refresh_ttl_days
resolve_refresh_ttl_days_lem = (
  λ o. positive_or_default-positive (parse_int (configured_text o)),
  λ n p.
      let e : ltb 0 n ≡ true = ground arith in
      ap positive_or_default (
        parse_int-digits (decimal n) (decimal-IsDigits n) (rw (read_from-decimal n) p)
        ∙ ap natural (read_from-decimal n))
      ∙ rw e refl,
)
