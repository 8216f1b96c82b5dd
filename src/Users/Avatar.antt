-- ===== src/Users/Avatar.antt =====
-- src/users/avatar-replacement.service.ts, src/users/users.repository.ts and src/file-storage: a new
-- avatar is uploaded and the user's row refers to it; the object that nothing refers to any more is
-- deleted. The storage driver, the processing of the image, `toLowerCase` and the random part of a key
-- are parameters, and so is what the request sets beside the image. The driver is given the data of an
-- object; its type and its size go with them unseen. The log is not modelled.
pub mod Replacement
use realworld_tutorial.Base.{
  ℕ, ◌≡◌, Bool, true, false, not, ◌&&◌, ◌||◌, Option, none, some, List, [], ◌∷◌, ◌++◌, ◌==◌, leb,
  if◌then◌else◌, Codes, codes, drop_leading, drop_trailing, Exception, http, error, Outcome, ok,
  err, M, pure, throw, reads, ◌>>=◌, ◌>>◌, lift_fst, catch_with,
}
use realworld_tutorial.Base.Decimal.{decimal}
use realworld_tutorial.Base.Prisma.{Delegate, Transactor}
use realworld_tutorial.Users.{UserRow, user_clash}

pub record ProcessedImage : Type 0 where
  pub data' : Codes
  pub extension : Codes

-- `[a-z0-9]`
abbrev pub is_extension_char : ℕ → Bool
is_extension_char c = (leb b'a' c && leb c b'z') || (leb b'0' c && leb c b'9')

abbrev pub all_true : (ℕ → Bool) → Codes → Bool
all_true p [] = true
all_true p (c ∷ s) = p c && all_true p s

-- `/^[a-z0-9]+$/`
abbrev pub is_extension : Codes → Bool
is_extension [] = false
is_extension (c ∷ s) = all_true is_extension_char (c ∷ s)

abbrev pub is_slash : ℕ → Bool
is_slash c = c == b'/'

abbrev pub is_dot : ℕ → Bool
is_dot c = c == b'.'

unfoldable pub build_storage_key : (Codes → Codes) → Codes → Codes → Codes → Outcome Codes
build_storage_key lower uuid folder extension =
    let clean_folder = drop_trailing is_slash (drop_leading is_slash folder) in
    let clean_extension = lower (drop_leading is_dot extension) in
    if not (is_extension clean_extension)
    then err (error "Invalid storage extension")
    else ok (clean_folder ++ (b'/' ∷ uuid ++ (b'.' ∷ clean_extension)))

abbrev pub upload_failed : Exception
upload_failed = http 502 "File upload failed"

abbrev pub deletion_failed : Exception
deletion_failed = http 502 "File deletion failed"

abbrev pub image_of : Option UserRow → Option Codes
image_of none = none
image_of (some u) = u.image

-- `{ ...updateData, image }`
abbrev pub with_image : (UserRow → UserRow) → Option Codes → UserRow → UserRow
with_image set image u = record (set u) { image = image }

module _ (udb : Delegate UserRow user_clash) where
  abbrev pub SameUsers : udb.Store → udb.Store → Type 0
  SameUsers s t = udb.rows t ≡ udb.rows s

  unfoldable pub lock_image : ℕ → M udb.Store (Option Codes)
  lock_image id = do found ← reads (udb.find_first (λ u. u.id == id)); pure (image_of found)

  unfoldable pub update_user : ℕ → (UserRow → UserRow) → M udb.Store UserRow
  update_user id set = udb.update (λ u. u.id == id) set

  unfoldable pub swap_image :
      ℕ → (UserRow → UserRow) → Option Codes → M udb.Store (UserRow × Option Codes)
  unfolding lock_image update_user
  swap_image id set image = do
    previous ← lock_image id
    user ← update_user id (with_image set image)
    pure (user, previous)

  module _ (tx : Transactor udb.Store SameUsers) {O : Type 0} (put : Codes → Codes → M O (Unit {0}))
      (del : Codes → M O (Unit {0})) where
    abbrev pub atomic_update_avatar :
        ℕ → (UserRow → UserRow) → Option Codes → M udb.Store (UserRow × Option Codes)
    atomic_update_avatar id set image s =
        let (r, u) =
          tx.transact (Unit {0}) (UserRow × Option Codes) (lift_fst (swap_image id set image))
            (s, tt) in
        (r, u.0)

    abbrev pub on_objects {ℓ} : {A : Type ℓ} → M O A → M (udb.Store × O) A
    on_objects m s = let (r, o) = m s.1 in (r, (s.0, o))

    -- `upload` and `delete` of `FileStorageService`
    abbrev pub upload : Codes → Codes → M (udb.Store × O) (Unit {0})
    upload key data' = catch_with (on_objects (put key data')) (λ _. throw upload_failed)

    abbrev pub delete_object : Codes → M (udb.Store × O) (Unit {0})
    delete_object key = catch_with (on_objects (del key)) (λ _. throw deletion_failed)

    abbrev pub cleanup_failed_upload : Codes → M (udb.Store × O) (Unit {0})
    cleanup_failed_upload key = catch_with (delete_object key) (λ _. pure tt)

    abbrev pub cleanup_previous_avatar : Option Codes → M (udb.Store × O) (Unit {0})
    cleanup_previous_avatar none = pure tt
    cleanup_previous_avatar (some key) = catch_with (delete_object key) (λ _. pure tt)

    abbrev pub finish_swap : UserRow × Option Codes → M (udb.Store × O) UserRow
    finish_swap result = cleanup_previous_avatar result.1 >> pure result.0

    unfoldable pub clear_avatar : ℕ → (UserRow → UserRow) → M (udb.Store × O) UserRow
    unfolding swap_image
    clear_avatar id set = do
      result ← lift_fst (atomic_update_avatar id set none)
      finish_swap result

    module _ (lower : Codes → Codes) where
      abbrev pub store_image :
          ℕ → (UserRow → UserRow) → ProcessedImage → Codes → M (udb.Store × O) UserRow
      store_image id set processed key = do
        _ ← upload key processed.data'
        result ←
            catch_with (lift_fst (atomic_update_avatar id set (some key)))
              (λ e. cleanup_failed_upload key >> throw e)
        finish_swap result

      unfoldable pub replace_avatar :
          Outcome ProcessedImage → Codes → ℕ → (UserRow → UserRow) → M (udb.Store × O) UserRow
      unfolding build_storage_key swap_image
      replace_avatar process uuid id set = do
        processed ← reads (λ _. process)
        key ←
            reads (λ _.
              build_storage_key lower uuid (codes "avatars/" ++ decimal id) processed.extension)
        store_image id set processed key
