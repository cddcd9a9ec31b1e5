-- ===== src/App.antt =====
-- The application of quickapi/app.
pub mod Authorize
pub mod Access
pub mod Finalize
pub mod Builtin
pub mod Parts
pub mod Pipeline
