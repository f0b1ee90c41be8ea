-- ===== src/Lib.antt =====
-- Verification of VLSE's C++ core: the paired vacuum filter, the authenticated labels, the OPRF, and
-- the derivation and collection of results.
--
-- A data owner inserts records into a table under 128-bit tokens; a query reads the two candidate
-- buckets of a token and opens the labels found there. Tokens and label keys come from OPRF outputs.
-- The parts:
-- - Base, Bits: numbers with Boolean tests, words, lists, `Result` for code that may throw, bits.
-- - Storage: `detail::ReadBits` and `detail::WriteBits` of paired_vlse/include/paired_vacuum_filter.h,
--   on a vector of bytes; Codec: `SemiSortCodec` of the same file.
-- - Filter: the class `PairedVacuumFilter` there. Filter.Bucket has its slots and the sort,
--   Filter.Store `ReadBucket` and `WriteBucket`, Filter.State the fields, `Alternate`, `Metadata`,
--   `JournalWrite` and `RollBack`, Filter.Insert `Insert`, Filter.Query `QueryAll`, `Contains` and the
--   two diagnostics of tokens, Filter.Fill `FillEmptySlots`, Filter.Layout `InitializeLayout`, its
--   formulas and the constructor, Filter.Sizes the accessors that compute. The record `Filter` has
--   the class's fields; an operation takes the
--   fields before and gives those after, with the result. Filter.Invariant, Filter.Total and
--   Filter.Metadata have the predicates and lemmas that the operations share,
--   Filter.Answers, Filter.Retrieval and Filter.Finds what queries find along the operations.
-- - Aead: paired_vlse/include/aead_label.h. Oprf: common/src/ntl_oprf.cpp; Oprf.Powers states what is
--   asked of NTL's arithmetic (`IsGroup`: facts of modular powers and inverses for a prime modulus and
--   a prime subgroup order), Oprf.Draws when its rejection loops end. Derivation:
--   common/include/protocol_derivation.h, common/include/protocol_record.h and
--   benchmarks/authenticated_results.h.
-- - Demo: the program paired_vlse/demo.cpp, which runs all parts in turn: keywords are inserted under
--   labels from the OPRF's direct evaluation, found again by its prepared one, and the table is
--   padded. Its libraries are the record `Libraries`; `run_items` is `main` with a number of items in
--   place of 256.
-- - Cuckoo, Lse: the baseline of benchmarks/lse_protocol_benchmark.cpp that the filter is compared
--   with. Cuckoo is its `CuckooTable`, Lse the phases of its `Run`: setup, padding and search, with
--   the libraries in the record `Baseline`.
-- - Tests: runs at concrete inputs, with small stand-ins for the libraries in Tests.Toys.
--
-- Code outside the repository is a parameter: `HashUtil::MurmurHash64` and `std::mt19937_64` in
-- `Setting`, floating point in `Double`, OpenSSL in `Cipher` and `Entropy`, NTL and the SHAKE and
-- random pool of Crypto++ in `Group`, SipHash in `Hashing`, AES and SHA-256 as functions. Words of
-- 64 and 128 bits wrap as in the source; counters that cannot pass the number of buckets or slots are
-- plain numbers. Memory is little-endian.
--
-- Fuel: the loops of `UpperPowerOfTwo` and `ProperAlternateRange` have 65 rounds, which is more than
-- a 64-bit word can be doubled; the source's loop does not end on values above 2 ^ 63.
-- `rehash_fuel` bounds the rehashing of a zero fingerprint, and `rejections` the draws of scalars,
-- group elements and dummy fingerprints, loops that the source leaves unbounded; a run out of fuel is
-- the error `out_of_fuel`. The eviction loop has the bound of the source.
--
-- Not modelled: benchmarks/vlse_protocol_benchmark.cpp, the option parsing and the timings of the other
-- benchmark, the C++ tests and the scripts, what the programs print, and failures of allocation, as of
-- `reserve`. The `assert`s of the filter are left out: the Release build of the README drops them.
pub mod Aead
pub mod Base
pub mod Bits
pub mod Codec
pub mod Cuckoo
pub mod Demo
pub mod Derivation
pub mod Filter
pub mod Lse
pub mod Oprf
pub mod Storage
pub mod Tests
