-- ===== src/Concurrent.antt =====
-- The goroutines that imageprocessor/imageprocessor.go and imagestore/store.go start, step by step.
pub mod Runs
pub mod Gather
