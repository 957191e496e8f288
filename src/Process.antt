-- ===== src/Process.antt =====
-- imageprocessor/: the steps that an upload goes through.
pub mod Types
pub mod Ocr
pub mod Simple
pub mod Scaler
pub mod Async
pub mod Strategy
pub use Types.*
