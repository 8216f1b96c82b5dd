-- ===== src/Articles.antt =====
-- src/articles: the slugs, the tags, the rows and the service of the articles.
pub mod Slug
pub mod Tags
pub mod Repository
pub mod Service
pub mod Frames
pub mod Owner
pub mod Removal
pub mod Creation
pub mod Update
pub mod Spares
pub mod Listing
mod Tests
