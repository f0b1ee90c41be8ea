-- ===== src/Tests.antt =====
-- Runs of the model at concrete inputs.
pub mod Filters
pub mod Samples
pub mod Toys
pub mod Demos
pub mod Labels
pub mod Searches
pub mod Cuckoos
pub mod Groups
pub mod Fillings
pub mod Sizes
pub mod Bytes
