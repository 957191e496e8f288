-- ===== src/Server.antt =====
-- server/: the HTTP interface of the program.
pub mod Types
pub mod Http
pub mod Auth
pub mod Stats
pub mod Response
pub mod Extract
pub mod Leftovers
pub mod Upload
pub mod Thumbnail
pub mod Ocr
pub mod Routes
pub mod Setup
pub mod Main
pub use Types.*
