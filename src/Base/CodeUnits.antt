-- ===== src/Base/CodeUnits.antt =====
-- JavaScript strings as lists of code units, and the operations on them that the source uses.
use Prim.Native.Char.{code}
use Prim.Native.String.{String}
use Prim.Native.Nat.{ℕ, zero, suc, ◌≤◌}
use mathlib.Core.Path.{◌≡◌}
use mathlib.Core.Logic.{◌↔◌}
use mathlib.Core.Bool.{Bool, true, false, ◌&&◌, ◌||◌}
use mathlib.Core.List.{List, [], ◌∷◌}
use mathlib.Core.Option.{Option, none, some}
use native.Mathlib.Omega.{arith}
use realworld_tutorial.Base.Lists.{length}
use realworld_tutorial.Base.Tests.{◌==◌, leb, if◌then◌else◌}

abbrev pub Codes : Type 0
Codes = List ℕ

-- The code points of a literal.
abbrev pub codes : String → Codes
codes String.[] = []
codes (String.◌∷◌ c s) = code c ∷ codes s

abbrev pub codes_eq : Codes → Codes → Bool
codes_eq [] [] = true
codes_eq [] (d ∷ t) = false
codes_eq (c ∷ s) [] = false
codes_eq (c ∷ s) (d ∷ t) = c == d && codes_eq s t

pub codes_eq_iff : (s t : Codes) → (codes_eq s t ≡ true) ↔ (s ≡ t)
codes_eq_iff [] [] = ground arith
codes_eq_iff [] (d ∷ t) = ground arith
codes_eq_iff (c ∷ s) [] = ground arith
codes_eq_iff (c ∷ s) (d ∷ t) = ground (arith, codes_eq_iff s t)

-- `includes` on an array of strings, and `has` on a set of them.
abbrev pub includes : List Codes → Codes → Bool
includes [] s = false
includes (t ∷ ts) s = codes_eq t s || includes ts s

-- `startsWith`
abbrev pub starts_with : Codes → Codes → Bool
starts_with [] s = true
starts_with (c ∷ p) [] = false
starts_with (c ∷ p) (d ∷ s) = c == d && starts_with p s

-- `includes` on a string.
abbrev pub has_infix : Codes → Codes → Bool
has_infix p [] = starts_with p []
has_infix p (c ∷ s) = starts_with p (c ∷ s) || has_infix p s

-- White space and line terminators, as `trim` and `\s` read them.
abbrev pub is_space : ℕ → Bool
is_space c =
    (leb 9 c && leb c 13)
    || c == 32
    || c == 160
    || c == 0x1680
    || (leb 0x2000 c && leb c 0x200a)
    || c == 0x2028
    || c == 0x2029
    || c == 0x202f
    || c == 0x205f
    || c == 0x3000
    || c == 0xfeff

-- A run of such units at the beginning, or at the end, is left out.
abbrev pub drop_leading : (ℕ → Bool) → Codes → Codes
drop_leading p [] = []
drop_leading p (c ∷ s) = let rest = drop_leading p s in if p c then rest else c ∷ s

abbrev pub drop_trailing : (ℕ → Bool) → Codes → Codes
drop_trailing p [] = []
drop_trailing p (c ∷ s) = elim (drop_trailing p s) [
  | [] ↦ if p c then [] else c ∷ []
  | d ∷ t ↦ c ∷ d ∷ t
]

abbrev pub trim : Codes → Codes
trim s = drop_trailing is_space (drop_leading is_space s)

-- `slice(0, n)`
abbrev pub slice_to : ℕ → Codes → Codes
slice_to zero s = []
slice_to (suc n) [] = []
slice_to (suc n) (c ∷ s) = c ∷ slice_to n s

pub length-slice_to : (n : ℕ) (s : Codes) → length (slice_to n s) ≤ n
length-slice_to zero s = omega arith
length-slice_to (suc n) [] = omega arith
length-slice_to (suc n) (c ∷ s) = omega (arith, length-slice_to n s)

-- JavaScript's `||` with a text that may not be set.
abbrev pub text_or : Option Codes → Codes → Codes
text_or none d = d
text_or (some []) d = d
text_or (some (c ∷ s)) d = c ∷ s
