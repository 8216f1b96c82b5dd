-- ===== src/Api/Validation.antt =====
-- src/common/validation/validation-options.ts: the exception for the errors of a request that
-- class-validator found. The translation and JSON.parse are parameters.
pub mod Paths
use realworld_tutorial.Base.{
  Option, none, some, List, [], ◌∷◌, ◌++◌, map, ◌==◌, if◌then◌else◌, Codes, codes,
}
use realworld_tutorial.Api.Filter.{
  ErrorValue, ErrorObject, message_text, nested, no_entries, put, Thrown, http_exception, object,
  no_message,
}

-- An error of a property: the texts of the constraints that it breaks, or the errors below it.
mutual
  pub data ValidationError : Type 0 where
    validation_error :
        (property : Codes) (constraints : List Codes) (children : ValidationErrors)
        → ValidationError

  pub data ValidationErrors : Type 0 where
    no_errors : ValidationErrors
    more : ValidationError → ValidationErrors → ValidationErrors

abbrev pub property : ValidationError → Codes
property (validation_error p cs children) = p

abbrev pub push_unit {ℓ} : {A : Type ℓ} → A → Option (List A × List A) → Option (List A × List A)
push_unit c none = none
push_unit c (some (key, args)) = some (c ∷ key, args)

-- What stands before the first `|` and behind it.
abbrev pub split_bar : Codes → Option (Codes × Codes)
split_bar [] = none
split_bar (c ∷ s) = let rest = split_bar s in if c == 124 then some ([], s) else push_unit c rest

-- `map(...).join(', ')`
abbrev pub join_texts : List Codes → Codes
join_texts [] = []
join_texts (s ∷ []) = s
join_texts (s ∷ t ∷ ts) = s ++ (codes ", " ++ join_texts (t ∷ ts))

module _ {Args : Type 0} (parse : Codes → Option Args) where
  abbrev pub translate : (Codes → Option Args → Codes) → Codes → Option (Codes × Codes) → Codes
  translate t constraint none = constraint
  translate t constraint (some (key, args)) = t key (parse args)

  abbrev pub format_i18n_message : Option (Codes → Option Args → Codes) → Codes → Codes
  format_i18n_message none constraint = constraint
  format_i18n_message (some t) constraint = translate t constraint (split_bar constraint)

module _ (format : Codes → Codes) where
  abbrev pub message_of : List Codes → Codes
  message_of constraints = join_texts (map format constraints)

  unfoldable mutual
    pub error_value : ValidationError → ErrorValue
    error_value (validation_error p cs no_errors) = message_text (message_of cs)
    error_value (validation_error p cs (more e es)) = nested (assign_all no_entries (more e es))

    -- The `reduce` of `generateErrors`, from what has been accumulated on.
    pub assign_all : ErrorObject → ValidationErrors → ErrorObject
    assign_all acc no_errors = acc
    assign_all acc (more e es) = assign_all (put (property e) (error_value e) acc) es

  abbrev pub generate_errors : ValidationErrors → ErrorObject
  generate_errors errors = assign_all no_entries errors

  abbrev pub exception_factory : ValidationErrors → Thrown
  exception_factory errors =
      http_exception 422 (codes "Unprocessable Entity Exception")
        (object no_message (some (generate_errors errors)))
