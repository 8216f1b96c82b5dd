-- ===== src/Auth.antt =====
-- src/auth: sessions, accounts and the linking of provider identities.
pub mod Token
pub mod Linking
pub mod Username
pub mod Accounts
pub mod Resolver
pub mod Google
mod Tests
