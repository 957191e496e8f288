-- ===== src/ThumbType.antt =====
-- The image formats of imageprocessor/thumbType/thumbType.go.
pub mod Formats
pub mod Laws
pub use Formats.{ThumbType, unknown, jpg, png, gif, webp, ThumbType-discrete}
unfoldable pub use Formats.{to_string, from_mime, from_string}
