-- ===== src/Images.antt =====
-- src/image-processing: the worker that checks an uploaded image and turns it into an avatar, and the
-- service that runs it on the pool. sharp's reading of an image's metadata and its transformation are
-- parameters. The duration of a task, which is only logged, is not modelled.
pub mod Pool
pub mod Processing
pub mod Oriented
pub mod Acceptance
mod Tests
use realworld_tutorial.Base.{
  ℕ, ◌*◌, min, String, ◌≡◌, Bool, true, false, not, ◌&&◌, ◌||◌, Option, none, some, List, [], ◌∷◌,
  ltb, ◌==◌, str_eq, some_is, if◌then◌else◌, Codes, Exception, http, prisma, error, Outcome, ok,
  err,
}

pub data ErrorCode : Type 0 where
  invalid_image unsupported_image_format multi_frame_image image_too_small : ErrorCode
  image_pixel_limit_exceeded : ErrorCode

pub record ImageProcessingProfile : Type 0 where
  pub accepted_formats : List String
  pub min_shortest_side : ℕ
  pub limit_input_pixels : ℕ
  pub width : ℕ
  pub height : ℕ
  pub fit : String
  pub position : String
  pub output_format : String
  pub quality : ℕ
  pub animated : Bool
  pub max_pages : ℕ

abbrev pub avatar : ImageProcessingProfile
avatar = record {
  accepted_formats = "jpeg" ∷ "png" ∷ "webp" ∷ [];
  min_shortest_side = 256;
  limit_input_pixels = 16000000;
  width = 512;
  height = 512;
  fit = "cover";
  position = "centre";
  output_format = "webp";
  quality = 82;
  animated = false;
  max_pages = 1;
}

-- What the code reads of sharp's metadata; the sides are those of `autoOrient`.
pub record Metadata : Type 0 where
  pub format : Option String
  pub pages : Option ℕ
  pub oriented_width : Option ℕ
  pub oriented_height : Option ℕ

-- What sharp answers of the transformed image.
pub record Transformed : Type 0 where
  pub bytes : Codes
  pub width : ℕ
  pub height : ℕ
  pub size : ℕ

pub record ProcessedImage : Type 0 where
  pub bytes : Codes
  pub format : String
  pub mime_type : String
  pub extension : String
  pub width : ℕ
  pub height : ℕ
  pub size : ℕ

pub data WorkerResult : Type 0 where
  success : ProcessedImage → WorkerResult
  failure : ErrorCode → WorkerResult

abbrev pub sharp_pixel_limit_message : String
sharp_pixel_limit_message = "Input image exceeds pixel limit"

abbrev pub has_message : String → Exception → Bool
has_message m (error message) = str_eq message m
has_message m (http code message) = str_eq message m
has_message m (prisma code target) = false

-- The code for an image whose metadata could not be read.
abbrev pub unreadable : Exception → ErrorCode
unreadable e =
    if has_message sharp_pixel_limit_message e then image_pixel_limit_exceeded else invalid_image

abbrev pub or_one : Option ℕ → ℕ
or_one none = 1
or_one (some n) = n

-- `!width` is true of zero, too.
abbrev pub or_zero : Option ℕ → ℕ
or_zero none = 0
or_zero (some n) = n

abbrev pub is_accepted_format : List String → Option String → Bool
is_accepted_format formats none = false
is_accepted_format formats (some f) = not (str_eq f "") && some_is (λ g. str_eq g f) formats

unfoldable pub validate_metadata : Metadata → ImageProcessingProfile → Option ErrorCode
validate_metadata m p =
    let width = or_zero m.oriented_width in
    let height = or_zero m.oriented_height in
    if not (is_accepted_format p.accepted_formats m.format)
    then some unsupported_image_format
    else if ltb p.max_pages (or_one m.pages)
    then some multi_frame_image
    else if width == 0 || height == 0
    then some invalid_image
    else if ltb p.limit_input_pixels (width * height)
    then some image_pixel_limit_exceeded
    else if ltb (min width height) p.min_shortest_side
    then some image_too_small
    else none

abbrev pub move_worker_success : Transformed → WorkerResult
move_worker_success t = success (record {
  bytes = t.bytes;
  format = "webp";
  mime_type = "image/webp";
  extension = "webp";
  width = t.width;
  height = t.height;
  size = t.size;
})

module _ (read_metadata : ℕ → Codes → Outcome Metadata)
    (transform : ImageProcessingProfile → Codes → Outcome Transformed) where
  abbrev pub finish_transform : Outcome Transformed → WorkerResult
  finish_transform (ok t) = move_worker_success t
  finish_transform (err e) = failure invalid_image

  abbrev pub transform_unless : Codes → ImageProcessingProfile → Option ErrorCode → WorkerResult
  transform_unless image p (some violation) = failure violation
  transform_unless image p none = finish_transform (transform p image)

  abbrev pub check_and_transform : Codes → ImageProcessingProfile → Outcome Metadata → WorkerResult
  check_and_transform image p (err e) = failure (unreadable e)
  check_and_transform image p (ok m) = transform_unless image p (validate_metadata m p)

  unfoldable pub process_image_task : Codes → ImageProcessingProfile → WorkerResult
  unfolding validate_metadata
  process_image_task image p =
      check_and_transform image p (read_metadata p.limit_input_pixels image)
