-- ===== src/Api/Validation/Paths.antt =====
-- Where the messages of the errors stand in the answer.
use realworld_tutorial.Base.{
  ◌≡◌, refl, sym, ap, ◌∙◌, subst, ◌↔◌, ◌≢◌, ◌⊎◌, inl, inr, false, Option, none, some, List, [], ◌∷◌,
  Bool-cases, Codes, codes, codes_eq, codes_eq_iff,
}
use realworld_tutorial.Api.Filter.{
  ErrorValue, ErrorObject, message_text, nested, no_entries, put, lookup, lookup-put,
  lookup-put_other, handle_exception, handle_http_exception, response, text,
}
use realworld_tutorial.Api.Validation.{
  ValidationError, ValidationErrors, validation_error, no_errors, more, property, message_of,
  error_value, assign_all, generate_errors, exception_factory,
}

-- The value at the end of a path of keys, if it is a text.
abbrev pub descend : List Codes → ErrorValue → Option Codes
descend [] (message_text s) = some s
descend [] (nested o) = none
descend (k ∷ ks) (message_text s) = none
descend (k ∷ ks) (nested o) = elim (lookup k o) [ none ↦ none | some v ↦ descend ks v ]

abbrev pub IsIn : ValidationError → ValidationErrors → Type 0
IsIn d no_errors = ⊥
IsIn d (more e es) = (d ≡ e) ⊎ IsIn d es

-- No error of the list has a property.
abbrev pub IsApart : Codes → ValidationErrors → Type 0
IsApart p no_errors = Unit
IsApart p (more e es) = (codes_eq (property e) p ≡ false) × IsApart p es

-- At no place do two errors have one property.
abbrev pub IsKeyed : ValidationErrors → Type 0
IsKeyed no_errors = Unit
IsKeyed (more (validation_error p cs children) es) = IsApart p es × IsKeyed children × IsKeyed es

abbrev pub children : ValidationError → ValidationErrors
children (validation_error p cs es) = es

abbrev pub constraints : ValidationError → List Codes
constraints (validation_error p cs es) = cs

-- From an error, the path of properties leads to an error below it.
abbrev pub LeadsTo : List Codes → ValidationError → ValidationError → Type 0
LeadsTo [] d e = e ≡ d
LeadsTo (k ∷ ks) d e =
    (b : ValidationError) × IsIn b (children d) × (property b ≡ k) × LeadsTo ks b e

-- The same from a list of errors.
abbrev pub IsAt : Codes → List Codes → ValidationErrors → ValidationError → Type 0
IsAt k ks errors e = (d : ValidationError) × IsIn d errors × (property d ≡ k) × LeadsTo ks d e

children-IsKeyed :
    (d : ValidationError) (es : ValidationErrors) → IsKeyed es → IsIn d es → IsKeyed (children d)
children-IsKeyed d no_errors h m = elim m [ ]
children-IsKeyed d (more (validation_error p cs ch) es) (a, k, h) (inl e) =
    subst (λ z. IsKeyed (children z)) (sym e) k
children-IsKeyed d (more (validation_error p cs ch) es) (a, k, h) (inr m) =
    children-IsKeyed d es h m

module _ (format : Codes → Codes) where
  assign_all-apart :
      (p : Codes) (acc : ErrorObject) (es : ValidationErrors)
      → IsApart p es
      → lookup p (assign_all format acc es) ≡ lookup p acc
  unfolding assign_all
  assign_all-apart p acc no_errors h = refl
  assign_all-apart p acc (more e es) (a, h) =
      assign_all-apart p (put (property e) (error_value format e) acc) es h
      ∙ lookup-put_other (property e) p (error_value format e) acc a

  assign_all-IsIn :
      (d : ValidationError) (acc : ErrorObject) (es : ValidationErrors)
      → IsKeyed es
      → IsIn d es
      → lookup (property d) (assign_all format acc es) ≡ some (error_value format d)
  unfolding assign_all
  assign_all-IsIn d acc no_errors h m = elim m [ ]
  assign_all-IsIn d acc (more (validation_error p cs ch) es) (a, k, h) (inl e) =
      let v = error_value format (validation_error p cs ch) in
      subst
        (λ z.
          lookup (property z) (assign_all format (put p v acc) es) ≡ some (error_value format z))
        (sym e) (assign_all-apart p (put p v acc) es a ∙ lookup-put p v acc)
  assign_all-IsIn d acc (more (validation_error p cs ch) es) (a, k, h) (inr m) =
      assign_all-IsIn d (put p (error_value format (validation_error p cs ch)) acc) es h m

  -- A value that is found was there before, or it is that of an error.
  assign_all-found :
      (k : Codes) (v : ErrorValue) (acc : ErrorObject) (es : ValidationErrors)
      → lookup k (assign_all format acc es) ≡ some v
      → (lookup k acc ≡ some v)
        ⊎ ((d : ValidationError) × IsIn d es × (property d ≡ k) × (v ≡ error_value format d))
  unfolding assign_all
  assign_all-found k v acc no_errors h = inl h
  assign_all-found k v acc (more e es) h =
      elim (assign_all-found k v (put (property e) (error_value format e) acc) es h) [
        | inl f ↦ put_here f
        | inr (d, m, is, val) ↦ inr (d, inr m, is, val)
      ]
    where
      put_here :
          lookup k (put (property e) (error_value format e) acc) ≡ some v
          → (lookup k acc ≡ some v)
            ⊎ ((d : ValidationError) × IsIn d (more e es)
                × (property d ≡ k)
                × (v ≡ error_value format d))
      put_here f = elim (Bool-cases (codes_eq (property e) k)) [
        | inl b ↦
            let is : property e ≡ k = (codes_eq_iff (property e) k).0 b in
            let g =
              sym (lookup-put (property e) (error_value format e) acc)
              ∙ ap (λ z. lookup z (put (property e) (error_value format e) acc)) is
              ∙ f in
            inr (e, inl refl, is, cc)
        | inr b ↦ inl (sym (lookup-put_other (property e) k (error_value format e) acc b) ∙ f)
      ]

  -- What an error itself leaves in the answer: its text if no errors are below it.
  abbrev own_text : ValidationError → Option Codes
  own_text (validation_error p cs no_errors) = some (message_of format cs)
  own_text (validation_error p cs (more e es)) = none

  abbrev below : List Codes → Option ErrorValue → Option Codes
  below ks none = none
  below ks (some v) = descend ks v

  descend-nested :
      (k : Codes) (ks : List Codes) (o : ErrorObject)
      → descend (k ∷ ks) (nested o) ≡ below ks (lookup k o)
  descend-nested k ks o = go (lookup k o)
    where
      go :
          (v : Option ErrorValue)
          → (elim v as (λ _. Option Codes) [ none ↦ none | some w ↦ descend ks w ]) ≡ below ks v
      go none = refl
      go (some w) = refl

  -- Under the property of an error stands its value.
  descend-IsIn :
      (d : ValidationError) (ks : List Codes) (es : ValidationErrors)
      → IsKeyed es
      → IsIn d es
      → descend (property d ∷ ks) (nested (generate_errors format es))
        ≡ descend ks (error_value format d)
  descend-IsIn d ks es h m =
      descend-nested (property d) ks (generate_errors format es)
      ∙ ap (below ks) (assign_all-IsIn d no_entries es h m)

  -- At the end of a path stands the error's own text.
  descend-LeadsTo :
      (ks : List Codes) (d e : ValidationError)
      → IsKeyed (children d)
      → LeadsTo ks d e
      → descend ks (error_value format d) ≡ own_text e
  unfolding error_value
  descend-LeadsTo [] (validation_error p cs no_errors) e h l = ap own_text (sym l)
  descend-LeadsTo [] (validation_error p cs (more c es)) e h l = ap own_text (sym l)
  descend-LeadsTo (k ∷ ks) (validation_error p cs no_errors) e h (b, m, is, l) = elim m [ ]
  descend-LeadsTo (k ∷ ks) (validation_error p cs (more c es)) e h (b, m, is, l) =
      ap (λ z. descend (z ∷ ks) (nested (generate_errors format (more c es)))) (sym is)
      ∙ descend-IsIn b ks (more c es) h m
      ∙ descend-LeadsTo ks b e (children-IsKeyed b (more c es) h m) l

  -- A text that stands at a path is that of an error there, below which are no errors.
  abbrev Stems : List Codes → ValidationError → Codes → Type 0
  Stems ks d s =
      (e : ValidationError) × LeadsTo ks d e
      × (children e ≡ no_errors)
      × (s ≡ message_of format (constraints e))

  under_key :
      (k : Codes) (ks : List Codes) (es : ValidationErrors) (s : Codes)
      → IsKeyed es
      → ((d : ValidationError)
          → IsKeyed (children d)
          → descend ks (error_value format d) ≡ some s
          → Stems ks d s)
      → descend (k ∷ ks) (nested (generate_errors format es)) ≡ some s
      → (d : ValidationError) × IsIn d es × (property d ≡ k) × Stems ks d s
  under_key k ks es s h ih g =
      to (lookup k (generate_errors format es)) refl
        (sym (descend-nested k ks (generate_errors format es)) ∙ g)
    where
      to :
          (o : Option ErrorValue)
          → lookup k (generate_errors format es) ≡ o
          → below ks o ≡ some s
          → (d : ValidationError) × IsIn d es × (property d ≡ k) × Stems ks d s
      to none f g = cc
      to (some v) f g = elim (assign_all-found k v no_entries es f) [
        | inl e ↦ cc
        | inr (d, m, is, e) ↦
            (d, m, is, ih d (children-IsKeyed d es h m) (ap (descend ks) (sym e) ∙ g))
      ]

  descend-Stems :
      (ks : List Codes) (d : ValidationError) (s : Codes)
      → IsKeyed (children d)
      → descend ks (error_value format d) ≡ some s
      → Stems ks d s
  unfolding error_value
  descend-Stems [] (validation_error p cs no_errors) s h g =
      (validation_error p cs no_errors, refl, refl, cc)
  descend-Stems [] (validation_error p cs (more e es)) s h g = cc
  descend-Stems (k ∷ ks) (validation_error p cs no_errors) s h g = cc
  descend-Stems (k ∷ ks) (validation_error p cs (more c es)) s h g =
      let (d, m, is, (e, l, leaf, text')) =
        under_key k ks (more c es) s h (λ d i. descend-Stems ks d s i) g in
      (e, (d, m, is, l), leaf, text')

  own_text-leaf :
      (e : ValidationError)
      → children e ≡ no_errors
      → own_text e ≡ some (message_of format (constraints e))
  own_text-leaf (validation_error p cs no_errors) h = refl
  own_text-leaf (validation_error p cs (more c es)) h = cc

  own_text-parent : (e : ValidationError) → children e ≢ no_errors → own_text e ≡ none
  own_text-parent (validation_error p cs no_errors) h = absurd (h refl)
  own_text-parent (validation_error p cs (more c es)) h = refl

  -- The answer to a request that fails the validation has the status 422 and an object of errors, if no
  -- two errors at one place have one property. A text stands at a path of properties exactly if the path
  -- leads to an error below which there are no errors, and it is that error's text, at whatever depth.
  -- Of an error that has errors below it the texts of its own constraints are lost: at its path stands
  -- no text, whatever constraints it breaks.
  pub validation_answer_lem :
      (errors : ValidationErrors)
      → IsKeyed errors
      → (o : ErrorObject) × (handle_exception (exception_factory format errors)
          ≡ response 422 (text (codes "Validation Error")) (some o))
        × ((k : Codes) (ks : List Codes) (s : Codes)
            → (descend (k ∷ ks) (nested o) ≡ some s) ↔ (
                (e : ValidationError) × IsAt k ks errors e
                × (children e ≡ no_errors)
                × (s ≡ message_of format (constraints e))))
        × ((k : Codes) (ks : List Codes) (e : ValidationError)
            → IsAt k ks errors e
            → children e ≢ no_errors
            → descend (k ∷ ks) (nested o) ≡ none)
  unfolding handle_exception handle_http_exception
  validation_answer_lem errors h = (
    generate_errors format errors,
    refl,
    (λ k ks s. (
      λ g.
          let (d, m, is, (e, l, leaf, text')) =
            under_key k ks errors s h (λ d i. descend-Stems ks d s i) g in
          (e, (d, m, is, l), leaf, text'),
      λ (e, at, leaf, text'). own k ks e at ∙ own_text-leaf e leaf ∙ ap some (sym text'),
    )),
    λ k ks e at parent. own k ks e at ∙ own_text-parent e parent,
  )
    where
      own :
          (k : Codes) (ks : List Codes) (e : ValidationError)
          → IsAt k ks errors e
          → descend (k ∷ ks) (nested (generate_errors format errors)) ≡ own_text e
      own k ks e (d, m, is, l) =
          ap (λ z. descend (z ∷ ks) (nested (generate_errors format errors))) (sym is)
          ∙ descend-IsIn d ks errors h m
          ∙ descend-LeadsTo ks d e (children-IsKeyed d errors h m) l
