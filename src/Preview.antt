-- ===== src/Preview.antt =====
-- src/content-preview/content-preview-analyzer.service.ts, and the client of
-- src/articles/article-preview-client.service.ts. gRPC carries the call; it is a parameter of the client.
pub mod Words
pub mod Analysis
mod Tests
use realworld_tutorial.Base.{
  ℕ, ◌+◌, ◌-◌, ◌/◌, Bool, true, false, not, List, [], ◌∷◌, ◌==◌, some_is, length, if◌then◌else◌,
  Codes, codes, is_space, trim, slice_to, Exception, http, error, Outcome, ok, err, M, throw,
  catch_with,
}

pub record ArticlePreview : Type 0 where
  pub excerpt : Codes
  pub word_count : ℕ
  pub reading_time_minutes : ℕ

-- `/\S/u`, which the DTO of the request asks for.
abbrev pub has_text : Codes → Bool
has_text s = some_is (λ c. not (is_space c)) s

-- `replace(/\s+/gu, ' ')`; behind a space of the run, the others are left out.
unfoldable pub collapse_from : Bool → Codes → Codes
collapse_from inside [] = []
collapse_from inside (c ∷ s) =
    let rest = collapse_from (is_space c) s in
    if is_space c then (if inside then rest else 32 ∷ rest) else c ∷ rest

abbrev pub collapse : Codes → Codes
collapse s = collapse_from false s

abbrev pub prepend : ℕ → List Codes → List Codes
prepend c [] = (c ∷ []) ∷ []
prepend c (w ∷ ws) = (c ∷ w) ∷ ws

-- `split(' ')`
unfoldable pub split_spaces : Codes → List Codes
split_spaces [] = [] ∷ []
split_spaces (c ∷ s) = let rest = split_spaces s in if c == 32 then [] ∷ rest else prepend c rest

abbrev pub is_empty : Codes → Bool
is_empty [] = true
is_empty (c ∷ s) = false

abbrev pub max_excerpt_length : ℕ
max_excerpt_length = 160

abbrev pub words_per_minute : ℕ
words_per_minute = 200

abbrev pub blank_body : Exception
blank_body = error "Body must not be blank"

abbrev pub preview_unavailable : Exception
preview_unavailable = http 503 "Article preview is unavailable"

-- `Math.ceil(n / k)`
abbrev pub ceil_div : ℕ → ℕ → ℕ
ceil_div n k = (n + (k - 1)) / k

unfoldable pub word_count_of : Codes → ℕ
unfolding split_spaces
word_count_of normalized = if is_empty normalized then 0 else length (split_spaces normalized)

abbrev pub normalize : Codes → Codes
normalize body = trim (collapse body)

unfoldable pub analyze : Codes → Outcome ArticlePreview
unfolding collapse_from word_count_of
analyze body =
    if is_empty (trim body)
    then err blank_body
    else ok (record {
      excerpt = slice_to max_excerpt_length (normalize body);
      word_count = word_count_of (normalize body);
      reading_time_minutes = ceil_div (word_count_of (normalize body)) words_per_minute;
    })

-- `ArticlePreviewClientService.analyze`: whatever the call throws is logged.
abbrev pub client_analyze {ℓ} :
    {S : Type ℓ} → (Codes → M S ArticlePreview) → Codes → M S ArticlePreview
client_analyze call body = catch_with (call body) (λ _. throw preview_unavailable)
