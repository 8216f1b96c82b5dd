-- ===== src/Api/Response.antt =====
-- src/common/interceptors/transform.interceptor.ts and the decorators of src/common/decorators: how an
-- answer is wrapped, and what becomes of a field of a request before its checks.
use realworld_tutorial.Base.{
  ℕ, ◌≡◌, refl, ap, ◌∙◌, is_none, false, List, [], ◌∷◌, Option, none, some, if◌then◌else◌, Codes,
  codes, codes_eq, trim, text_or,
}

-- What a controller returns: an object with its fields, or a value of another kind.
pub data Returned {ℓ} (A : Type ℓ) : Type ℓ where
  object : List (Codes × A) → Returned A
  other : A → Returned A

-- The data of an answer: what was returned, or the field of it, which may be undefined.
pub data Payload {ℓ} (A : Type ℓ) : Type ℓ where
  whole : Returned A → Payload A
  part : Option A → Payload A

pub record Response {ℓ} (A : Type ℓ) : Type ℓ where
  pub status_code : ℕ
  pub message : Codes
  pub payload : Payload A
  pub meta : Option A

unfoldable pub field {ℓ} : {A : Type ℓ} → Codes → List (Codes × A) → Option A
field name [] = none
field name ((k, v) ∷ fs) = let rest = field name fs in if codes_eq k name then some v else rest

-- Reflector's getAllAndOverride: what is set on the handler, or else on its class.
abbrev pub first_set : Option Codes → Option Codes → Option Codes
first_set none on_class = on_class
first_set (some m) on_class = some m

unfoldable pub wrap {ℓ} : {A : Type ℓ} → ℕ → Codes → List (Codes × A) → Option A → Response A
wrap status_code message fs none = record {
  status_code = status_code;
  message = message;
  payload = whole (object fs);
  meta = none;
}
wrap status_code message fs (some m) = record {
  status_code = status_code;
  message = message;
  payload = part (field (codes "data") fs);
  meta = some m;
}

unfoldable pub transform {ℓ} :
    {A : Type ℓ} → Option Codes → Option Codes → ℕ → Returned A → Response A
transform on_handler on_class status_code data' =
    let message = text_or (first_set on_handler on_class) (codes "Success") in
    elim data' [
      | object fs ↦ wrap status_code message fs (field (codes "meta") fs)
      | other v ↦ record {
        status_code = status_code;
        message = message;
        payload = whole (other v);
        meta = none;
      }
    ]

-- A field of a request: a text, or a value of another kind.
pub data Field {ℓ} (A : Type ℓ) : Type ℓ where
  text : Codes → Field A
  not_text : A → Field A

abbrev pub normalize_email {ℓ} : {A : Type ℓ} → (Codes → Codes) → Field A → Field A
normalize_email lower (text s) = text (lower (trim s))
normalize_email lower (not_text v) = not_text v

text_or-first : (o : Option Codes) (c : ℕ) (s : Codes) → codes_eq (text_or o (c ∷ s)) [] ≡ false
text_or-first none c s = refl
text_or-first (some []) c s = refl
text_or-first (some (d ∷ t)) c s = refl

wrap_lem {ℓ} :
    {A : Type ℓ} (status_code : ℕ) (message : Codes) (fs : List (Codes × A)) (o : Option A)
    → ((wrap status_code message fs o).message ≡ message)
      × ((wrap status_code message fs o).meta ≡ o)
      × ((wrap status_code message fs o).payload
          ≡ (if is_none o then whole (object fs) else part (field (codes "data") fs)))
unfolding wrap
wrap_lem status_code message fs none = (refl, refl, refl)
wrap_lem status_code message fs (some m) = (refl, refl, refl)

-- An answer that is an object has a message, the meta data that the object has, and the object's own
-- data in place of the object exactly if it has meta data.
transform_lem {ℓ} :
    {A : Type ℓ} (on_handler on_class : Option Codes) (status_code : ℕ) (fs : List (Codes × A))
    → (codes_eq (transform on_handler on_class status_code (object fs)).message [] ≡ false)
      × ((transform on_handler on_class status_code (object fs)).meta ≡ field (codes "meta") fs)
      × ((transform on_handler on_class status_code (object fs)).payload ≡ (
          if is_none (field (codes "meta") fs)
          then whole (object fs)
          else part (field (codes "data") fs)))
unfolding transform
transform_lem on_handler on_class status_code fs =
    let message = text_or (first_set on_handler on_class) (codes "Success") in
    let (m, kept, data') = wrap_lem status_code message fs (field (codes "meta") fs) in
    (
      ap (λ t. codes_eq t []) m ∙ text_or-first (first_set on_handler on_class) 83 (codes "uccess"),
      kept,
      data',
    )
