-- ===== src/Email/Escaping.antt =====
-- The five replacements that follow each other, as one pass over the text.
use realworld_tutorial.Base.{
  ℕ, not, ◌&&◌, ◌≡◌, refl, sym, ap, ◌∙◌, subst, inl, inr, Bool, true, false, ◌||◌, arith, [], ◌∷◌,
  ◌++◌, ◌==◌, if◌then◌else◌, Bool-cases, All, All-append, Codes, codes, codes_eq, Option, none,
  some,
}
use realworld_tutorial.Email.{replace_all, escape_html}

-- The entity that stands for a unit, or the unit itself.
abbrev pub entity : ℕ → Codes
entity c =
    if c == 38
    then codes "&amp;"
    else if c == 60
    then codes "&lt;"
    else if c == 62
    then codes "&gt;"
    else if c == 34
    then codes "&quot;"
    else if c == 39
    then codes "&#39;"
    else c ∷ []

abbrev pub entities : Codes → Codes
entities [] = []
entities (c ∷ s) = entity c ++ entities s

-- `<`, `>` and the two quotes, which end a text or an attribute of a page.
abbrev pub is_markup : ℕ → Bool
is_markup c = c == 60 || c == 62 || c == 34 || c == 39

-- The unit that an entity's name stands for.
abbrev pub named_unit : Codes → ℕ
named_unit name =
    if codes_eq name (codes "amp")
    then 38
    else if codes_eq name (codes "lt")
    then 60
    else if codes_eq name (codes "gt")
    then 62
    else if codes_eq name (codes "quot")
    then 34
    else 39

-- A page's reader: outside an entity, or behind an ampersand and the beginning of a name.
abbrev pub decode_from : Option Codes → Codes → Codes
decode_from none [] = []
decode_from none (c ∷ s) =
    let inside = decode_from (some []) s in
    let outside = decode_from none s in if c == 38 then inside else c ∷ outside
decode_from (some name) [] = []
decode_from (some name) (c ∷ s) =
    let more = decode_from (some (name ++ (c ∷ []))) s in
    let done = decode_from none s in if c == 59 then named_unit name ∷ done else more

abbrev pub decode : Codes → Codes
decode = decode_from none

append_assoc : (a b c : Codes) → (a ++ b) ++ c ≡ a ++ (b ++ c)
append_assoc [] b c = refl
append_assoc (x ∷ a) b c = ap (λ r. x ∷ r) (append_assoc a b c)

replace_all-append :
    (c : ℕ) (e a b : Codes) → replace_all c e (a ++ b) ≡ replace_all c e a ++ replace_all c e b
unfolding replace_all
replace_all-append c e [] b = refl
replace_all-append c e (x ∷ a) b = elim (Bool-cases (x == c)) [
  | inl h ↦ rw h (
      ap (λ r. e ++ r) (replace_all-append c e a b)
      ∙ sym (append_assoc e (replace_all c e a) (replace_all c e b)))
  | inr h ↦ rw h (ap (λ r. x ∷ r) (replace_all-append c e a b))
]

escape_html-append : (a b : Codes) → escape_html (a ++ b) ≡ escape_html a ++ escape_html b
unfolding escape_html
escape_html-append a b = simp (replace_all-append)

-- A claim about every unit holds if it holds at the five that are escaped, and at every other.
by_unit :
    (P : ℕ → Type 0)
    → P 38
    → P 60
    → P 62
    → P 34
    → P 39
    → ((c : ℕ)
        → (c == 38) ≡ false
        → (c == 60) ≡ false
        → (c == 62) ≡ false
        → (c == 34) ≡ false
        → (c == 39) ≡ false
        → P c)
    → (c : ℕ) → P c
by_unit P amp lt gt quot apos other c = elim (Bool-cases (c == 38)) [
  | inl h ↦ at_unit 38 h amp
  | inr h1 ↦ elim (Bool-cases (c == 60)) [
    | inl h ↦ at_unit 60 h lt
    | inr h2 ↦ elim (Bool-cases (c == 62)) [
      | inl h ↦ at_unit 62 h gt
      | inr h3 ↦ elim (Bool-cases (c == 34)) [
        | inl h ↦ at_unit 34 h quot
        | inr h4 ↦ elim (Bool-cases (c == 39)) [
          | inl h ↦ at_unit 39 h apos
          | inr h5 ↦ other c h1 h2 h3 h4 h5
        ]
      ]
    ]
  ]
]
  where
    at_unit : (k : ℕ) → (c == k) ≡ true → P k → P c
    at_unit k h = subst P {x = k} {y = c} (ground arith)

escape_html-single : (c : ℕ) → escape_html (c ∷ []) ≡ entity c
unfolding escape_html replace_all
escape_html-single =
    by_unit (λ c. escape_html (c ∷ []) ≡ entity c) refl refl refl refl refl
      (λ c h1 h2 h3 h4 h5. simp (h1, h2, h3, h4, h5))

-- The five replacements give what one pass gives that puts an entity for each ampersand, angle bracket
-- and quote of the text: no replacement touches what another one has put in.
pub escape_html_lem : (s : Codes) → escape_html s ≡ entities s
unfolding escape_html replace_all
escape_html_lem [] = refl
escape_html_lem (c ∷ s) =
    escape_html-append (c ∷ []) s
    ∙ ap (λ r. r ++ escape_html s) (escape_html-single c)
    ∙ ap (λ r. entity c ++ r) (escape_html_lem s)

abbrev is_plain : Codes → Bool
is_plain [] = true
is_plain (c ∷ s) = not (is_markup c) && is_plain s

is_plain-All : (s : Codes) → is_plain s ≡ true → All (λ d. is_markup d ≡ false) s
is_plain-All [] h = tt
is_plain-All (c ∷ s) h = (ground arith, is_plain-All s (ground arith))

entity-Plain : (c : ℕ) → All (λ d. is_markup d ≡ false) (entity c)
entity-Plain =
    by_unit (λ c. All (λ d. is_markup d ≡ false) (entity c)) (is_plain-All (codes "&amp;") refl)
      (is_plain-All (codes "&lt;") refl) (is_plain-All (codes "&gt;") refl)
      (is_plain-All (codes "&quot;") refl) (is_plain-All (codes "&#39;") refl)
      (λ c h1 h2 h3 h4 h5. rw (h1, h2, h3, h4, h5) (rw (h2, h3, h4, h5) refl, tt))

entities-Plain : (s : Codes) → All (λ d. is_markup d ≡ false) (entities s)
entities-Plain [] = tt
entities-Plain (c ∷ s) =
    All-append (λ d. is_markup d ≡ false) (entity c) (entities s) (entity-Plain c)
      (entities-Plain s)

decode-entity : (c : ℕ) (t : Codes) → decode (entity c ++ t) ≡ c ∷ decode t
decode-entity =
    by_unit (λ c. (t : Codes) → decode (entity c ++ t) ≡ c ∷ decode t) (λ t. refl) (λ t. refl)
      (λ t. refl) (λ t. refl) (λ t. refl) (λ c h1 h2 h3 h4 h5 t. simp (h1, h2, h3, h4, h5))

decode-entities : (s : Codes) → decode (entities s) ≡ s
decode-entities [] = refl
decode-entities (c ∷ s) = decode-entity c (entities s) ∙ ap (λ r. c ∷ r) (decode-entities s)

-- The escaped text has no angle bracket and no quote, and a reader that puts the unit for each entity
-- gets the text back.
pub decode-escape_html :
    (s : Codes) → (decode (escape_html s) ≡ s) × All (λ d. is_markup d ≡ false) (escape_html s)
decode-escape_html s = rw (escape_html_lem s) (decode-entities s, entities-Plain s)
