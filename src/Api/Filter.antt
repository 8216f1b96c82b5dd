-- ===== src/Api/Filter.antt =====
-- src/common/filters/all-exceptions.filter.ts: the answer to what a request throws. The messages of
-- the library's own exceptions are their fields; the log is not modelled.
use realworld_tutorial.Base.{
  ℕ, suc, ◌≤◌, ◌<◌, String, ◌≡◌, refl, sym, ap, ◌∙◌, subst, zero, codes_eq_iff, inl, inr, true,
  false, ◌++◌, Option, none, some, List, [], ◌∷◌, ◌+◌, arith, Codes, codes, codes_eq, str_eq,
  if◌then◌else◌, Bool-cases,
}
use realworld_tutorial.Base.Decimal.{decimal, decimal_injective}

-- The `message` of an `HttpException`'s body: a list of the validation pipe, a text, or none.
pub data BodyMessage : Type 0 where
  texts : List Codes → BodyMessage
  text : Codes → BodyMessage
  no_message : BodyMessage

-- An object: its own keys and their values, texts or objects again, in the order of their first
-- assignment.
mutual
  pub data ErrorValue : Type 0 where
    message_text : Codes → ErrorValue
    nested : ErrorObject → ErrorValue

  pub data ErrorObject : Type 0 where
    no_entries : ErrorObject
    entry : Codes → ErrorValue → ErrorObject → ErrorObject

-- `acc[key] = value`
abbrev pub put : Codes → ErrorValue → ErrorObject → ErrorObject
put key value no_entries = entry key value no_entries
put key value (entry k v entries) =
    let rest = put key value entries in
    if codes_eq k key then entry k value entries else entry k v rest

abbrev pub lookup : Codes → ErrorObject → Option ErrorValue
lookup key no_entries = none
lookup key (entry k v entries) =
    let rest = lookup key entries in if codes_eq k key then some v else rest

-- `getResponse()`: an object, or else.
pub data HttpBody : Type 0 where
  object : (message : BodyMessage) (errors : Option ErrorObject) → HttpBody
  not_object : HttpBody

-- A value that is thrown; the target is what `String(exception.meta?.target)` gives.
pub data Thrown : Type 0 where
  http_exception : (status : ℕ) (message : Codes) (body : HttpBody) → Thrown
  prisma_known : (code : String) (target : Codes) → Thrown
  other_error : Thrown
  not_error : Thrown

pub record ExceptionResponse : Type 0 where
  pub status_code : ℕ
  pub message : BodyMessage
  pub errors : Option ErrorObject

-- `message || fallback`; the empty text is false and a list is true.
abbrev pub message_or : BodyMessage → Codes → BodyMessage
message_or (text []) b = text b
message_or (text (c ∷ s)) b = text (c ∷ s)
message_or no_message b = text b
message_or (texts ts) b = texts ts

abbrev pub error_key : ℕ → Codes
error_key index = codes "error_" ++ decimal index

-- The `reduce` of `arrayToErrorObject`, from an index on.
unfoldable pub assign_errors : ErrorObject → ℕ → List Codes → ErrorObject
assign_errors acc index [] = acc
assign_errors acc index (m ∷ ms) =
    assign_errors (put (error_key index) (message_text m) acc) (suc index) ms

unfoldable pub array_to_error_object : List Codes → ErrorObject
unfolding assign_errors
array_to_error_object messages = assign_errors no_entries 0 messages

abbrev pub response : ℕ → BodyMessage → Option ErrorObject → ExceptionResponse
response status message errors = record { status_code = status; message = message; errors = errors }

unfoldable pub handle_http_exception : ℕ → Codes → HttpBody → ExceptionResponse
unfolding array_to_error_object
handle_http_exception status message not_object = response status (text message) none
handle_http_exception status message (object m (some errors)) =
    response status (message_or m (codes "Validation Error")) (some errors)
handle_http_exception status message (object (texts ms) none) =
    response status (text (codes "Validation Error")) (some (array_to_error_object ms))
handle_http_exception status message (object (text s) none) =
    response status (message_or (text s) message) none
handle_http_exception status message (object no_message none) = response status (text message) none

unfoldable pub handle_prisma_exception : String → Codes → ExceptionResponse
handle_prisma_exception code target =
    if str_eq code "P2002"
    then response 409 (text (codes "Duplicate value for field: " ++ target)) none
    else if str_eq code "P2025"
    then response 404 (text (codes "Record not found in database")) none
    else response 500 (text (codes "Database operation failed")) none

abbrev pub internal_error : ExceptionResponse
internal_error = response 500 (text (codes "Internal server error")) none

unfoldable pub handle_exception : Thrown → ExceptionResponse
unfolding handle_http_exception handle_prisma_exception
handle_exception (http_exception status message body) = handle_http_exception status message body
handle_exception (prisma_known code target) = handle_prisma_exception code target
handle_exception other_error = internal_error
handle_exception not_error = internal_error

-- `messages[i]`, as the value of an object.
abbrev pub nth : ℕ → List Codes → Option ErrorValue
nth i [] = none
nth zero (m ∷ ms) = some (message_text m)
nth (suc i) (m ∷ ms) = nth i ms

error_key-injective : (i j : ℕ) → error_key i ≡ error_key j → i ≡ j
error_key-injective i j e = decimal_injective i j (cc)

error_key-eq : (i j : ℕ) → codes_eq (error_key i) (error_key j) ≡ true → i ≡ j
error_key-eq i j h = error_key-injective i j ((codes_eq_iff (error_key i) (error_key j)).0 h)

codes_eq_refl : (k : Codes) → codes_eq k k ≡ true
codes_eq_refl k = (codes_eq_iff k k).1 refl

pub lookup-put :
    (key : Codes) (value : ErrorValue) (o : ErrorObject) → lookup key (put key value o) ≡ some value
lookup-put key value no_entries = rw (codes_eq_refl key) refl
lookup-put key value (entry k v o) = elim (Bool-cases (codes_eq k key)) [
  | inl e ↦ rw e (rw e refl)
  | inr e ↦ rw e (rw e (lookup-put key value o))
]

pub lookup-put_other :
    (key other : Codes) (value : ErrorValue) (o : ErrorObject)
    → codes_eq key other ≡ false
    → lookup other (put key value o) ≡ lookup other o
lookup-put_other key other value no_entries h = rw h refl
lookup-put_other key other value (entry k v o) h = elim (Bool-cases (codes_eq k key)) [
  | inl e ↦
      let same : k ≡ key = (codes_eq_iff k key).0 e in
      let apart : codes_eq k other ≡ false = subst (λ z. codes_eq z other ≡ false) (sym same) h in
      rw e (rw apart refl)
  | inr e ↦
      rw e (ap (λ z. if codes_eq k other then some v else z) (lookup-put_other key other value o h))
]

other_key : (i j : ℕ) → i < j → codes_eq (error_key j) (error_key i) ≡ false
other_key i j h = elim (Bool-cases (codes_eq (error_key j) (error_key i))) [
  | inl e ↦ absurd (omega (arith, error_key-eq j i e))
  | inr e ↦ e
]

-- A message that stands under an index is not assigned again.
assign_errors-lookup_old :
    (acc : ErrorObject) (n : ℕ) (ms : List Codes) (i : ℕ)
    → i < n
    → lookup (error_key i) (assign_errors acc n ms) ≡ lookup (error_key i) acc
unfolding assign_errors
assign_errors-lookup_old acc n [] i h = refl
assign_errors-lookup_old acc n (m ∷ ms) i h =
    assign_errors-lookup_old (put (error_key n) (message_text m) acc) (suc n) ms i (omega arith)
    ∙ lookup-put_other (error_key n) (error_key i) (message_text m) acc (other_key i n h)

assign_errors-lookup :
    (acc : ErrorObject) (n : ℕ) (ms : List Codes) (i : ℕ)
    → lookup (error_key (n + i)) acc ≡ none
    → ((j : ℕ) → n ≤ j → lookup (error_key j) acc ≡ none)
    → lookup (error_key (n + i)) (assign_errors acc n ms) ≡ nth i ms
unfolding assign_errors
assign_errors-lookup acc n [] i h f = h
assign_errors-lookup acc n (m ∷ ms) zero h f =
    let same : n + 0 ≡ n = omega arith in
    ap
      (λ k.
        lookup (error_key k) (assign_errors (put (error_key n) (message_text m) acc) (suc n) ms))
      same
    ∙ assign_errors-lookup_old (put (error_key n) (message_text m) acc) (suc n) ms n (omega arith)
    ∙ lookup-put (error_key n) (message_text m) acc
assign_errors-lookup acc n (m ∷ ms) (suc i) h f =
    let same : n + suc i ≡ suc n + i = omega arith in
    ap
      (λ k.
        lookup (error_key k) (assign_errors (put (error_key n) (message_text m) acc) (suc n) ms))
      same
    ∙ assign_errors-lookup (put (error_key n) (message_text m) acc) (suc n) ms i
        (later (suc n + i) (omega arith)) later
  where
    later :
        (j : ℕ) → suc n ≤ j → lookup (error_key j) (put (error_key n) (message_text m) acc) ≡ none
    later j k =
        lookup-put_other (error_key n) (error_key j) (message_text m) acc (ahead j k)
        ∙ f j (omega arith)
      where
        ahead : (j : ℕ) → suc n ≤ j → codes_eq (error_key n) (error_key j) ≡ false
        ahead j k = elim (Bool-cases (codes_eq (error_key n) (error_key j))) [
          | inl e ↦ absurd (omega (arith, error_key-eq n j e))
          | inr e ↦ e
        ]

-- No message of the validation pipe is lost: the answer has the exception's status and holds each
-- message under the key with its index, and no other message.
pub handle_exception-validation :
    (status : ℕ) (message : Codes) (ms : List Codes)
    → (o : ErrorObject) × (handle_exception (http_exception status message (object (texts ms) none))
        ≡ response status (text (codes "Validation Error")) (some o))
      × ((i : ℕ) → lookup (error_key i) o ≡ nth i ms)
unfolding handle_exception handle_http_exception array_to_error_object
handle_exception-validation status message ms = (assign_errors no_entries 0 ms, refl, λ i. found i)
  where
    found : (i : ℕ) → lookup (error_key i) (assign_errors no_entries 0 ms) ≡ nth i ms
    found i =
        let same : i ≡ 0 + i = omega arith in
        ap (λ k. lookup (error_key k) (assign_errors no_entries 0 ms)) same
        ∙ assign_errors-lookup no_entries 0 ms i refl (λ j k. refl)
