-- ===== src/Http.antt =====
-- The HTTP shell of app.js: which request reaches which handler, and what is logged of an error.
pub mod Express
pub mod Routes
pub mod Errors
pub mod Table
pub mod Access
pub mod Admitted
pub mod Limits
pub mod Waf
pub mod Redacted
pub mod Tests
