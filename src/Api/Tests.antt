-- ===== src/Api/Tests.antt =====
-- Pages and answers to exceptions: runs, and the theorems at concrete inputs.
use realworld_tutorial.Base.{
  ℕ, ◌*◌, ◌<◌, ◌≡◌, refl, ◌↔◌, ◌≢◌, true, none, some, List, [], ◌∷◌, arith, length, Codes, codes,
}
use realworld_tutorial.Api.Pagination.{paginate, paginate_lem, pages_to}
use realworld_tutorial.Base.Decimal.{decimal}
use realworld_tutorial.Api.Validation.{
  ValidationError, ValidationErrors, validation_error, no_errors, more, error_value, assign_all,
  generate_errors, message_of, exception_factory,
}
use realworld_tutorial.Api.Validation.Paths.{
  descend, IsAt, children, constraints, validation_answer_lem,
}
use realworld_tutorial.Api.Response.{transform, wrap, field, part, normalize_email}
use realworld_tutorial.Api.Response
use realworld_tutorial.Api.Filter.{
  ErrorObject, message_text, nested, entry, no_entries, assign_errors, handle_exception,
  http_exception, object, texts, text, response, prisma_known,
}

abbrev listing : List ℕ
listing = 1 ∷ 2 ∷ 3 ∷ 4 ∷ 5 ∷ []

second_page : (paginate listing (some 2) (some 2)).data' ≡ (3 ∷ 4 ∷ [])
unfolding paginate
second_page = refl

paginate_lem_example :
    (pages_to listing 2 (paginate listing (some 2) (some 2)).meta.last_page ≡ listing)
    × (((paginate listing (some 2) (some 2)).meta.has_next_page ≡ true) ↔ (2 * 2 < length listing))
    × (((paginate listing (some 2) (some 2)).meta.has_prev_page ≡ true) ↔ (1 < 2))
paginate_lem_example = paginate_lem listing 2 2 (omega arith)

abbrev messages : List Codes
messages = codes "email" ∷ codes "password" ∷ []

unique_violation :
    handle_exception (prisma_known "P2002" (codes "slug"))
    ≡ response 409 (text (codes "Duplicate value for field: slug")) none
unfolding handle_exception
unique_violation = refl

listed :
    handle_exception (http_exception 400 (codes "Bad Request") (object (texts messages) none))
    ≡ response 400 (text (codes "Validation Error")) (
        some (
          entry
            (codes "error_0")
            (message_text (codes "email"))
            (entry (codes "error_1") (message_text (codes "password")) no_entries)))
unfolding handle_exception assign_errors decimal
listed = refl

-- An error of `email`, and one of `profile` with another below it.
abbrev errors : ValidationErrors
errors = more (validation_error (codes "email") (codes "taken" ∷ codes "short" ∷ []) no_errors) (
    more
      (validation_error (codes "profile") (codes "odd" ∷ [])
        (more (validation_error (codes "bio") (codes "long" ∷ []) no_errors) no_errors))
      no_errors)

abbrev as_is : Codes → Codes
as_is s = s

below_profile :
    descend (codes "profile" ∷ codes "bio" ∷ []) (nested (generate_errors as_is errors))
    ≡ some (codes "long")
unfolding assign_all error_value
below_profile = refl

validation_answer_lem_example :
    (o : ErrorObject) × (handle_exception (exception_factory as_is errors)
      ≡ response 422 (text (codes "Validation Error")) (some o))
    × ((k : Codes) (ks : List Codes) (s : Codes)
        → (descend (k ∷ ks) (nested o) ≡ some s) ↔ (
            (e : ValidationError) × IsAt k ks errors e
            × (children e ≡ no_errors)
            × (s ≡ message_of as_is (constraints e))))
    × ((k : Codes) (ks : List Codes) (e : ValidationError)
        → IsAt k ks errors e
        → children e ≢ no_errors
        → descend (k ∷ ks) (nested o) ≡ none)
validation_answer_lem_example =
    validation_answer_lem as_is errors ((refl, tt), tt, (tt, (tt, tt, tt), tt))

-- A page, as its two fields, on a route that sets no message.
wrapped_page :
    transform {A = ℕ} none none 200 (Response.object ((codes "data", 1) ∷ (codes "meta", 2) ∷ []))
    ≡ record {
      status_code = 200;
      message = codes "Success";
      payload = part (some 1);
      meta = some 2;
    }
unfolding transform wrap field
wrapped_page = refl

padded_email :
    normalize_email {A = ℕ} (λ s. s) (Response.text (codes " a@b.c "))
    ≡ Response.text (codes "a@b.c")
padded_email = refl
