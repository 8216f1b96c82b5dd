-- ===== src/Api.antt =====
-- What the components of the API share: pages of a listing, and the answers to exceptions.
pub mod Pagination
pub mod Filter
pub mod Validation
pub mod Response
mod Tests
