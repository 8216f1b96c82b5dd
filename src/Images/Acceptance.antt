-- ===== src/Images/Acceptance.antt =====
-- What an image that is processed has been checked for, and why one that is refused was refused.
use realworld_tutorial.Base.{
  ℕ, ◌≤◌, ◌<◌, String, ◌≡◌, ◌≢◌, refl, sym, ◌⊎◌, inl, inr, Bool, true, false, not, Option, none,
  some, ◌∷◌, arith, leb, str_eq, eq_iff, some_is, if◌then◌else◌, Codes, Exception, Outcome, ok, err,
  M, throw, catch_with, ◌>>=◌, ◌>>◌,
}
use realworld_tutorial.Images.{
  ErrorCode, ImageProcessingProfile, avatar, Metadata, Transformed, ProcessedImage, WorkerResult,
  success, failure, validate_metadata, move_worker_success, transform_unless, check_and_transform,
  finish_transform, process_image_task,
}
use realworld_tutorial.Images.Pool.{
  Pool, Delivery, answered, failed, timed_out, run_task, assert_worker_path, deliver, shutting_down,
  at_capacity, worker_not_found,
}
use realworld_tutorial.Images.Processing.{
  invalid_image_message, processing_unavailable, unknown_profile, is_unprocessable, accept_result,
  process_with, process_image,
}
use realworld_tutorial.Images.Oriented.{Acceptable, validate_metadata-Acceptable}

module _ (read_metadata : ℕ → Codes → Outcome Metadata)
    (transform : ImageProcessingProfile → Codes → Outcome Transformed) (exists : String → Bool)
    (worker_path : String) (queue_size : ℕ) (delivery : Delivery) (input : Codes) where
  -- A pool that takes the task, and hands over what the worker answers.
  pub record Delivers (pool : Pool) : Type 0 where
    pub is_open : pool.closing ≡ false
    pub has_room : queue_size < pool.max_queue
    pub delivers : delivery ≡ answered

  -- The image that was checked and the one that was made of it.
  pub record Made (image : ProcessedImage) : Type 0 where
    pub metadata : Metadata
    pub read : read_metadata avatar.limit_input_pixels input ≡ ok metadata
    pub acceptable : Acceptable avatar metadata
    pub result : Transformed
    pub ran : transform avatar input ≡ ok result
    pub is : success image ≡ move_worker_success result

  -- The pool does not take the task, or it gets no answer.
  abbrev pub Undelivered : Pool → Type 0
  Undelivered pool =
      (pool.closing ≡ true)
      ⊎ (pool.max_queue ≤ queue_size)
      ⊎ (exists worker_path ≡ false)
      ⊎ (delivery ≢ answered)

  abbrev pub Refused : Type 0
  Refused = (c : ErrorCode) × (process_image_task read_metadata transform input avatar ≡ failure c)

  -- What a processing that ends in a certain way has found.
  abbrev pub Processes : String → Pool → Outcome ProcessedImage × Pool → Type 0
  Processes name pool (ok image, pool') =
      (name ≡ "avatar") × Delivers pool × Made image × (pool'.closing ≡ pool.closing)
  Processes name pool (err e, pool') =
      (pool'.closing ≡ pool.closing)
      × (((e ≡ unknown_profile) × (name ≢ "avatar"))
          ⊎ ((e ≡ invalid_image_message) × Delivers pool × Refused)
          ⊎ ((e ≡ processing_unavailable) × Undelivered pool))

  process_image_task-Made :
      (image : ProcessedImage)
      → process_image_task read_metadata transform input avatar ≡ success image
      → Made image
  unfolding process_image_task
  process_image_task-Made image h = by_read (read_metadata avatar.limit_input_pixels input) refl h
    where
      by_transform :
          (m : Metadata)
          → read_metadata avatar.limit_input_pixels input ≡ ok m
          → validate_metadata m avatar ≡ none
          → (x : Outcome Transformed) → transform avatar input ≡ x
          → finish_transform read_metadata transform x ≡ success image
          → Made image
      by_transform m e v (ok t) f k = record {
        metadata = m;
        read = e;
        acceptable = validate_metadata-Acceptable m avatar v;
        result = t;
        ran = f;
        is = sym k;
      }
      by_transform m e v (err y) f k = cc

      by_check :
          (m : Metadata)
          → read_metadata avatar.limit_input_pixels input ≡ ok m
          → (x : Option ErrorCode) → validate_metadata m avatar ≡ x
          → transform_unless read_metadata transform input avatar x ≡ success image
          → Made image
      by_check m e (some c) v k = cc
      by_check m e none v k = by_transform m e v (transform avatar input) refl k

      by_read :
          (x : Outcome Metadata)
          → read_metadata avatar.limit_input_pixels input ≡ x
          → check_and_transform read_metadata transform input avatar x ≡ success image
          → Made image
      by_read (ok m) e k = by_check m e (validate_metadata m avatar) refl k
      by_read (err y) e k = cc

  abbrev translate : Exception → M Pool ProcessedImage
  translate e = if is_unprocessable e then throw e else throw processing_unavailable

  abbrev task : WorkerResult
  task = process_image_task read_metadata transform input avatar

  delivered :
      (name : String) (pool after : Pool)
      → name ≡ "avatar"
      → pool.closing ≡ false
      → queue_size < pool.max_queue
      → after.closing ≡ pool.closing
      → (d : Delivery) → delivery ≡ d
      → (x : WorkerResult) → task ≡ x
      → Processes name pool
          (catch_with ((λ (_ : Pool). deliver d x after) >>= accept_result) translate pool)
  delivered name pool after n o r same answered d (success image) k =
      (n, record { is_open = o; has_room = r; delivers = d }, process_image_task-Made image k, same)
  delivered name pool after n o r same answered d (failure c) k =
      (same, inr (inl (refl, record { is_open = o; has_room = r; delivers = d }, (c, k))))
  delivered name pool after n o r same failed d x k =
      (same, inr (inr (refl, inr (inr (inr (λ a. cc))))))
  delivered name pool after n o r same timed_out d x k =
      (same, inr (inr (refl, inr (inr (inr (λ a. cc))))))

  -- The two assertions, by what they test.
  abbrev tested_pool : Pool → Bool → Bool → Outcome (Unit {0}) × Pool
  tested_pool pool closing full =
      if closing
      then (err shutting_down, pool)
      else if full
      then (err at_capacity, pool)
      else (ok tt, pool)

  abbrev tested_path : Pool → Bool → Bool → Outcome (Unit {0}) × Pool
  tested_path pool known there =
      if known then (ok tt, pool) else if not there then (err worker_not_found, pool) else (
        ok tt,
        record pool { validated_worker_paths = worker_path ∷ pool.validated_worker_paths },
      )

  placed :
      (name : String) (pool : Pool)
      → name ≡ "avatar"
      → pool.closing ≡ false
      → queue_size < pool.max_queue
      → Processes name pool (
          catch_with
            (assert_worker_path exists worker_path >> deliver delivery task >>= accept_result)
            translate
            pool)
  placed name pool n o r =
      by_path (some_is (λ q. str_eq q worker_path) pool.validated_worker_paths) (exists worker_path)
        refl
    where
      by_path :
          (known there : Bool)
          → exists worker_path ≡ there
          → Processes name pool (
              catch_with
                ((λ (_ : Pool). tested_path pool known there)
                  >> deliver delivery task
                  >>= accept_result)
                translate
                pool)
      by_path true there e = delivered name pool pool n o r refl delivery refl task refl
      by_path false true e =
          delivered name pool
            (record pool { validated_worker_paths = worker_path ∷ pool.validated_worker_paths }) n o
            r refl delivery refl task refl
      by_path false false e = (refl, inr (inr (refl, inr (inr (inl e)))))

  -- An image is processed only for the profile of avatars, on a pool that is not shutting down and has
  -- room in its queue, and only if its metadata could be read and say that it is a JPEG, PNG or WebP of
  -- one frame, with at most sixteen million pixels and sides of 256 at least, as it is oriented; what is
  -- answered is then the transformed image, as WebP. A 422 says that the worker has refused the image,
  -- and a 503 that the pool has not taken the task or has got no answer; the only other exception is
  -- that of an unknown profile. No processing opens or closes the pool.
  pub process_image_lem :
      (name : String) (pool : Pool)
      → Processes name pool (
          process_image read_metadata transform exists worker_path queue_size delivery input name
            pool)
  unfolding process_image run_task
  process_image_lem name pool = named (str_eq name "avatar") refl
    where
      taken :
          name ≡ "avatar"
          → (closing full : Bool) → pool.closing ≡ closing
          → leb pool.max_queue queue_size ≡ full
          → Processes name pool (
              catch_with
                ((λ (_ : Pool). tested_pool pool closing full)
                  >> (assert_worker_path exists worker_path >> deliver delivery task)
                  >>= accept_result)
                translate
                pool)
      taken n true full o r = (refl, inr (inr (refl, inl o)))
      taken n false true o r = (refl, inr (inr (refl, inr (inl (ground arith)))))
      taken n false false o r = placed name pool n o (ground arith)

      named :
          (b : Bool)
          → str_eq name "avatar" ≡ b
          → Processes name pool (
              process_with read_metadata transform exists worker_path queue_size delivery input
                (if b then some avatar else none)
                pool)
      named false e = (refl, inl (refl, λ is. cc ((eq_iff name "avatar").1 is)))
      named true e =
          taken ((eq_iff name "avatar").0 e) pool.closing (leb pool.max_queue queue_size) refl refl
