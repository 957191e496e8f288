-- ===== src/Command.antt =====
-- imageprocessor/processorcommand: the external commands that the program starts.
pub mod Runner
pub mod Gm
pub mod Tools
pub mod Words
pub mod Ocr
pub use Runner.*
