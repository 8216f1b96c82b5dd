-- ===== src/Images/Oriented.antt =====
-- What the metadata of an image say that `validateMetadata` has let pass.
use mathlib.Core.List.{Memᴰ}
use realworld_tutorial.Base.{
  ℕ, ◌*◌, ◌≤◌, min, String, ◌≡◌, refl, sym, inl, inr, Bool, true, false, not, ◌||◌, Option, none,
  some, List, [], ◌∷◌, arith, ltb, ◌==◌, str_eq, eq_iff, some_is, if◌then◌else◌, Bool-cases,
}
use realworld_tutorial.Images.{
  unsupported_image_format, multi_frame_image, invalid_image, image_pixel_limit_exceeded,
  image_too_small, ImageProcessingProfile, Metadata, or_one, or_zero, is_accepted_format,
  validate_metadata,
}

-- An image with these metadata may become an avatar.
pub record Acceptable (p : ImageProcessingProfile) (m : Metadata) : Type 0 where
  pub format : String
  pub has_format : m.format ≡ some format
  pub accepted : Memᴰ format p.accepted_formats
  pub frames : or_one m.pages ≤ p.max_pages
  pub width : ℕ
  pub has_width : m.oriented_width ≡ some width
  pub height : ℕ
  pub has_height : m.oriented_height ≡ some height
  pub few_pixels : width * height ≤ p.limit_input_pixels
  pub wide : p.min_shortest_side ≤ width
  pub high : p.min_shortest_side ≤ height

accepted_format :
    (formats : List String) (o : Option String)
    → is_accepted_format formats o ≡ true
    → (f : String) × (o ≡ some f) × Memᴰ f formats
accepted_format formats none h = cc
accepted_format formats (some f) h = (f, refl, find formats (ground arith))
  where
    find : (l : List String) → some_is (λ g. str_eq g f) l ≡ true → Memᴰ f l
    find [] k = cc
    find (g ∷ l) k = elim (Bool-cases (str_eq g f)) [
      | inl e ↦ Memᴰ.head (sym ((eq_iff g f).0 e))
      | inr e ↦ Memᴰ.tail (find l (ground arith))
    ]

ltb-eq-false : (a b : ℕ) → ltb a b ≡ false → b ≤ a
ltb-eq-false a b h = ground arith

min_bounds : (k w v : ℕ) → ltb (min w v) k ≡ false → (k ≤ w) × (k ≤ v)
min_bounds k w v h = ground arith

-- The sides that the tests have let pass.
sides :
    (limit k : ℕ) (o q : Option ℕ)
    → (or_zero o == 0 || or_zero q == 0) ≡ false
    → ltb limit (or_zero o * or_zero q) ≡ false
    → ltb (min (or_zero o) (or_zero q)) k ≡ false
    → (w : ℕ) × (v : ℕ) × (o ≡ some w) × (q ≡ some v) × (w * v ≤ limit) × (k ≤ w) × (k ≤ v)
sides limit k none q h pixels shortest = cc
sides limit k (some w) none h pixels shortest = absurd (apart (w == 0) h)
  where
    apart : (b : Bool) → (b || true) ≡ false → ⊥
    apart true e = cc
    apart false e = cc
sides limit k (some w) (some v) h pixels shortest =
    let (wide, high) = min_bounds k w v shortest in
    (w, v, refl, refl, ltb-eq-false limit (w * v) pixels, wide, high)

-- A row of tests that none stops.
passed :
    (a b c d e : Bool)
    → (if a
        then some unsupported_image_format
        else if b
        then some multi_frame_image
        else if c
        then some invalid_image
        else if d
        then some image_pixel_limit_exceeded
        else if e
        then some image_too_small
        else none)
      ≡ none
    → (a ≡ false) × (b ≡ false) × (c ≡ false) × (d ≡ false) × (e ≡ false)
passed true b c d e h = cc
passed false true c d e h = cc
passed false false true d e h = cc
passed false false false true e h = cc
passed false false false false true h = cc
passed false false false false false h = (refl, refl, refl, refl, refl)

pub validate_metadata-Acceptable :
    (m : Metadata) (p : ImageProcessingProfile) → validate_metadata m p ≡ none → Acceptable p m
unfolding validate_metadata
validate_metadata-Acceptable m p h =
    let (format, pages, zeros, pixels, shortest) =
      passed (not (is_accepted_format p.accepted_formats m.format))
        (ltb p.max_pages (or_one m.pages))
        (or_zero m.oriented_width == 0 || or_zero m.oriented_height == 0)
        (ltb p.limit_input_pixels (or_zero m.oriented_width * or_zero m.oriented_height))
        (ltb (min (or_zero m.oriented_width) (or_zero m.oriented_height)) p.min_shortest_side) h in
    let (f, has, mem) = accepted_format p.accepted_formats m.format (ground arith) in
    let (w, v, has_w, has_v, few, wide, high) =
      sides p.limit_input_pixels p.min_shortest_side m.oriented_width m.oriented_height zeros pixels
        shortest in
    record {
      format = f;
      has_format = has;
      accepted = mem;
      frames = ltb-eq-false p.max_pages (or_one m.pages) pages;
      width = w;
      has_width = has_w;
      height = v;
      has_height = has_v;
      few_pixels = few;
      wide = wide;
      high = high;
    }
