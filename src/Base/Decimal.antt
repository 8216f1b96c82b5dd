-- ===== src/Base/Decimal.antt =====
-- `String(n)` of a natural number: its decimal digits, and that it tells numbers apart.
use Prim.Native.Nat.{ℕ, zero, suc, ◌+◌, ◌*◌, ◌/◌, ◌%◌, ◌≤◌, ◌-◌}
use mathlib.Core.Path.{◌≡◌, refl, sym, ap, ◌∙◌}
use mathlib.Core.List.{List, [], ◌∷◌}
use mathlib.Core.Logic.{inl, inr}
use mathlib.Core.Bool.{Bool, true, ◌&&◌}
use native.Mathlib.Omega.{arith}
use realworld_tutorial.Base.Tests.{ltb, leb, if◌then◌else◌, Bool-cases}
use realworld_tutorial.Base.Lists.{append_one, All, All-append}

-- The least digit stands last. The number itself is fuel enough: it falls with every digit.
digits_from : ℕ → ℕ → List ℕ
digits_from zero n = (n + 48) ∷ []
digits_from (suc f) n =
    let rest = digits_from f (n / 10) in
    if ltb n 10 then (n + 48) ∷ [] else append_one rest (n % 10 + 48)

unfoldable pub decimal : ℕ → List ℕ
unfolding digits_from
decimal n = digits_from n n

-- The number that digits stand for, read from the left.
unfoldable pub read_from : ℕ → List ℕ → ℕ
read_from acc [] = acc
read_from acc (c ∷ s) = read_from (acc * 10 + (c - 48)) s

read_from-append_one :
    (acc : ℕ) (s : List ℕ) (c : ℕ)
    → read_from acc (append_one s c) ≡ read_from acc s * 10 + (c - 48)
unfolding read_from
read_from-append_one acc [] c = refl
read_from-append_one acc (d ∷ s) c = read_from-append_one (acc * 10 + (d - 48)) s c

read-digits_from : (f n : ℕ) → n ≤ f → read_from 0 (digits_from f n) ≡ n
unfolding digits_from read_from
read-digits_from zero n h = omega arith
read-digits_from (suc f) n h = elim (Bool-cases (ltb n 10)) [
  | inl small ↦ rw small (omega arith)
  | inr large ↦
      let big : 10 ≤ n = ground arith in
      rw large (
        read_from-append_one 0 (digits_from f (n / 10)) (n % 10 + 48)
        ∙ ap (λ k. k * 10 + (n % 10 + 48 - 48)) (read-digits_from f (n / 10) (omega arith))
        ∙ omega arith)
]

pub decimal_injective : (m n : ℕ) → decimal m ≡ decimal n → m ≡ n
unfolding decimal
decimal_injective m n e =
    sym (read-digits_from m m (omega arith))
    ∙ ap (read_from 0) e
    ∙ read-digits_from n n (omega arith)

abbrev pub is_digit : ℕ → Bool
is_digit c = leb 48 c && leb c 57

digits_from-IsDigits : (f n : ℕ) → n ≤ f → All (λ c. is_digit c ≡ true) (digits_from f n)
unfolding digits_from
digits_from-IsDigits zero n h = (ground arith, tt)
digits_from-IsDigits (suc f) n h = elim (Bool-cases (ltb n 10)) [
  | inl small ↦ rw small (ground arith, tt)
  | inr large ↦
      let big : 10 ≤ n = ground arith in
      rw large (
        All-append (λ c. is_digit c ≡ true) (digits_from f (n / 10)) ((n % 10 + 48) ∷ [])
          (digits_from-IsDigits f (n / 10) (omega arith)) (ground arith, tt))
]

-- A number is written with digits.
pub decimal-IsDigits : (n : ℕ) → All (λ c. is_digit c ≡ true) (decimal n)
unfolding decimal
decimal-IsDigits n = digits_from-IsDigits n n (omega arith)

-- The digits of a number stand for it.
pub read_from-decimal : (n : ℕ) → read_from 0 (decimal n) ≡ n
unfolding decimal
read_from-decimal n = read-digits_from n n (omega arith)
