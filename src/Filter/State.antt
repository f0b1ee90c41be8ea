-- ===== src/Filter/State.antt =====
-- The fields of `PairedVacuumFilter`, the hashing of tokens to buckets, and the journal, from
-- paired_vlse/include/paired_vacuum_filter.h.
pub mod Alternate
pub mod Journal
use vlse.Base.{
  ℕ, zero, suc, ◌+◌, ◌-◌, ◌*◌, ◌%◌, ◌^◌, bit_and, bit_or, bit_xor, Bool, ◌==◌, if◌then◌else◌, List,
  [], ◌∷◌, get_or, Result, ok, throw, out_of_fuel, ◌>>=◌, u32, u64, ◌<<<◌, ◌>>>◌,
}
use vlse.Filter.Bucket.{Record, Bucket, slots_per_bucket}
use vlse.Filter.Store.{Store, read_bucket, write_bucket}

-- The template parameters, and the code outside the repository: `HashUtil::MurmurHash64` of the
-- submodule's hashutil.h, and `std::mt19937_64` as states with a draw. `rehash_fuel` bounds the
-- rehashing of `Metadata`.
pub record Setting : Type 1 where
  pub fingerprint_bits : ℕ
  pub Payload : Type 0
  pub empty_payload : Payload
  pub murmur_hash64 : ℕ → ℕ
  pub Engine : Type 0
  pub seed_engine : ℕ → Engine
  pub draw : Engine → ℕ × Engine
  pub rehash_fuel : ℕ

pub record Statistics : Type 0 where
  pub successful_inserts : ℕ
  pub failed_inserts : ℕ
  pub eviction_steps : ℕ
  pub rollback_count : ℕ
  pub maximum_eviction_chain : ℕ

pub record KeyMetadata : Type 0 where
  pub fingerprint : ℕ
  pub first_bucket : ℕ
  pub second_bucket : ℕ

pub record Layout : Type 0 where
  pub bucket_count : ℕ
  pub alternate_masks : List ℕ
  pub logical_fingerprint_bytes : ℕ

module _ (c : Setting) where
  open c use {Payload, Engine}

  pub record Filter : Type 0 where
    pub layout : Layout
    pub maximum_evictions : ℕ
    pub hash_seed : ℕ
    pub random_engine : Engine
    pub store : Store Payload
    pub filled_slots : ℕ
    pub padded : Bool
    pub statistics : Statistics

  pub record Snapshot : Type 0 where
    pub bucket_index : ℕ
    pub bucket : Bucket Payload

  -- The storage with the journal of one operation, the last snapshot first.
  pub record Journaled : Type 0 where
    pub store : Store Payload
    pub journal : List Snapshot

unfoldable pub rotate_left64 : ℕ → ℕ → ℕ
rotate_left64 value shift = bit_or (u64 (value <<< shift)) (value >>> (64 - shift))

-- The assertion that the result is inside the table is left out: a Release build, which the README
-- asks for, has none.
unfoldable pub alternate : Layout → ℕ → ℕ → ℕ
alternate layout position fingerprint =
    let fingerprint_hash = u32 (u32 fingerprint * 0x5bd1e995) in
    let mask = get_or layout.alternate_masks (bit_and fingerprint 3) 0 in
    bit_xor position (bit_and fingerprint_hash mask)

module _ (c : Setting) where
  open c use {Payload, fingerprint_bits, empty_payload, murmur_hash64}

  unfoldable pub hash_token128 : ℕ → ℕ → ℕ
  hash_token128 token seed =
      let hi = u64 (token >>> 64) in
      let lo = u64 token in
      murmur_hash64 (bit_xor (bit_xor hi (rotate_left64 lo 29)) (murmur_hash64 seed))

  unfoldable pub fingerprint_mask : ℕ
  fingerprint_mask = (2 ^ 64 - 1) >>> (64 - fingerprint_bits)

  -- The loop of `Metadata` on a zero fingerprint.
  unfoldable pub rehash : ℕ → ℕ → Result ℕ
  rehash zero state = throw out_of_fuel
  rehash (suc fuel) state =
      let fingerprint = bit_and state fingerprint_mask in
      let again = rehash fuel (murmur_hash64 (bit_xor state 0x9e3779b97f4a7c15)) in
      if fingerprint == 0 then again else ok fingerprint

  unfoldable pub metadata : Filter c → ℕ → Result KeyMetadata
  metadata s token =
      let element = hash_token128 token s.hash_seed in
      do
        fingerprint ← rehash c.rehash_fuel (murmur_hash64 (bit_xor element 0x192837319273))
        let first = element % s.layout.bucket_count
        ok (record {
          fingerprint = fingerprint;
          first_bucket = first;
          second_bucket = alternate s.layout first fingerprint;
        })

  abbrev pub read : Store Payload → ℕ → Bucket Payload
  read = read_bucket fingerprint_bits empty_payload

  abbrev pub write : Store Payload → ℕ → Bucket Payload → Store Payload
  write = write_bucket fingerprint_bits empty_payload

  unfoldable pub journal_write : ℕ → Bucket Payload → Journaled c → Journaled c
  journal_write position bucket j = record {
    store = write j.store position bucket;
    journal = record { bucket_index = position; bucket = read j.store position } ∷ j.journal;
  }

  unfoldable pub roll_back : List (Snapshot c) → Store Payload → Store Payload
  roll_back [] store = store
  roll_back (snapshot ∷ journal) store =
      roll_back journal (write store snapshot.bucket_index snapshot.bucket)

  unfoldable pub capacity : Filter c → ℕ
  capacity s = u64 (s.layout.bucket_count * slots_per_bucket)
