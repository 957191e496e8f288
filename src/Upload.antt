-- ===== src/Upload.antt =====
-- uploadedfile/: an upload with its thumbnails, on the disk of the host.
pub mod Types
pub mod File
pub mod Ratio
pub mod Thumb
pub use Types.*
