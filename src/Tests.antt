-- ===== src/Tests.antt =====
-- Concrete machines, requests, stores and uploads on which the theorems are applied.
pub mod Data
mod Uploads
mod Processes
mod Stores
mod Runs
mod Names
mod Launches
mod Gathers
mod Requests
