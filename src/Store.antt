-- ===== src/Store.antt =====
-- imagestore/: where the images are kept.
pub mod Types
pub mod Mapper
pub mod Single
pub mod Cloud
pub mod Multi
pub mod Saves
pub mod Gets
pub mod Existence
pub mod Keeps
pub mod Hash
pub mod Factory
pub use Types.*
