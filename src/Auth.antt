-- ===== src/Auth.antt =====
-- Request authentication and authorisation (backend/app/auth).
pub mod Permissions
pub mod Middleware
pub mod Dependencies
pub mod BruteForce
mod Tests
