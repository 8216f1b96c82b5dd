-- ===== src/Images/Processing.antt =====
-- src/image-processing/image-processing.service.ts: a named profile, the run on the pool, and what the
-- client is told.
use realworld_tutorial.Base.{
  ℕ, String, Bool, false, Option, none, some, ◌==◌, str_eq, if◌then◌else◌, Codes, Exception, http,
  prisma, error, Outcome, M, pure, throw, catch_with, ◌>>=◌,
}
use realworld_tutorial.Images.{
  ImageProcessingProfile, avatar, Metadata, Transformed, ProcessedImage, WorkerResult, success,
  failure, process_image_task,
}
use realworld_tutorial.Images.Pool.{Pool, Delivery, run_task}

abbrev pub invalid_image_message : Exception
invalid_image_message = http 422 "Invalid avatar image"

abbrev pub processing_unavailable : Exception
processing_unavailable = http 503 "Image processing unavailable"

abbrev pub unknown_profile : Exception
unknown_profile = error "Unknown image processing profile"

abbrev pub is_unprocessable : Exception → Bool
is_unprocessable (http code message) = code == 422
is_unprocessable (prisma code target) = false
is_unprocessable (error message) = false

abbrev pub profile_named : String → Option ImageProcessingProfile
profile_named name = if str_eq name "avatar" then some avatar else none

abbrev pub accept_result : WorkerResult → M Pool ProcessedImage
accept_result (success image) = pure image
accept_result (failure code) = throw invalid_image_message

module _ (read_metadata : ℕ → Codes → Outcome Metadata)
    (transform : ImageProcessingProfile → Codes → Outcome Transformed) (exists : String → Bool)
    (worker_path : String) where
  -- The queue's length at the call, and what Piscina makes of the task, are arguments.
  abbrev pub process_with :
      ℕ → Delivery → Codes → Option ImageProcessingProfile → M Pool ProcessedImage
  process_with queue_size delivery input none = throw unknown_profile
  process_with queue_size delivery input (some profile) =
      catch_with
        (run_task queue_size exists worker_path delivery
            (process_image_task read_metadata transform input profile)
          >>= accept_result)
        (λ e. if is_unprocessable e then throw e else throw processing_unavailable)

  unfoldable pub process_image : ℕ → Delivery → Codes → String → M Pool ProcessedImage
  unfolding run_task process_image_task
  process_image queue_size delivery input name =
      process_with queue_size delivery input (profile_named name)
