-- ===== src/Images/Tests.antt =====
-- Images: runs, and the theorem at a concrete input.
use realworld_tutorial.Base.{
  ℕ, String, ◌≡◌, refl, Bool, true, some, [], ◌∷◌, Codes, codes, error, Outcome, ok, err,
}
use realworld_tutorial.Images.{
  ImageProcessingProfile, Metadata, Transformed, image_too_small, failure, avatar,
  process_image_task,
}
use realworld_tutorial.Images.Pool.{Pool, answered, new_pool}
use realworld_tutorial.Images.Processing.{process_image}
use realworld_tutorial.Images.Acceptance.{Processes, process_image_lem}

-- An image is here its width, and is 400 units high.
abbrev read_metadata : ℕ → Codes → Outcome Metadata
read_metadata limit [] = err (error "empty")
read_metadata limit (c ∷ rest) = ok (record {
  format = some "png";
  pages = some 1;
  oriented_width = some c;
  oriented_height = some 400;
})

abbrev transform : ImageProcessingProfile → Codes → Outcome Transformed
transform p image =
    ok (record { bytes = codes "webp"; width = p.width; height = p.height; size = 4 })

abbrev exists : String → Bool
exists path = true

abbrev pool : Pool
pool = new_pool 4

narrow : process_image_task read_metadata transform (255 ∷ []) avatar ≡ failure image_too_small
unfolding process_image_task
narrow = refl

process_image_lem_example :
    Processes read_metadata transform exists "worker" 3 answered
      (256 ∷ [])
      "avatar"
      pool
      (process_image read_metadata transform exists "worker" 3 answered (256 ∷ []) "avatar" pool)
process_image_lem_example =
    process_image_lem read_metadata transform exists "worker" 3 answered (256 ∷ []) "avatar" pool
