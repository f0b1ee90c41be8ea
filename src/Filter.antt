-- ===== src/Filter.antt =====
-- `PairedVacuumFilter` of paired_vlse/include/paired_vacuum_filter.h.
pub mod Bucket
pub mod Store
pub mod State
pub mod Layout
pub mod Metadata
pub mod Invariant
pub mod Insert
pub mod Query
pub mod Answers
pub mod Retrieval
pub mod Finds
pub mod Sizes
pub mod Fill
pub mod Total
