-- ===== src/Filter/Store.antt =====
-- The packed buckets of `PairedVacuumFilter`: `ReadBucket` and `WriteBucket` of
-- paired_vlse/include/paired_vacuum_filter.h over the fingerprint bytes and the payload vector.
-- A payload read outside the vector, which C++ leaves undefined, is the value-initialised payload.
pub mod Fields
pub mod Nibbles
pub mod Writes
pub mod Payloads
pub mod Laws
use vlse.Base.{
  ℕ, ◌+◌, ◌-◌, ◌*◌, bit_and, bit_or, List, map, get_or, set, range, for_each, u16, u64, ◌<<<◌,
  ◌>>>◌,
}
use vlse.Codec.{codec}
use vlse.Filter.Bucket.{Record, Bucket, slots_per_bucket, stable_sort}
use vlse.Storage.{low_mask, read_bits, write_bits}

pub record Store (Payload : Type 0) : Type 0 where
  pub fingerprint_storage : List ℕ
  pub payloads : List Payload

-- The template parameter `FingerprintBits`.
module _ (fingerprint_bits : ℕ) where
  abbrev pub low_width : ℕ
  low_width = fingerprint_bits - 4

  abbrev pub encoded_bits_per_bucket : ℕ
  encoded_bits_per_bucket = slots_per_bucket * (fingerprint_bits - 1)

  -- `start + k * low_width`: field 4 of a bucket holds the code of the high nibbles, the fields
  -- below it the low bits of a slot each.
  unfoldable pub field_start : ℕ → ℕ → ℕ
  field_start position k = u64 (u64 (position * encoded_bits_per_bucket) + k * low_width)

module _ (fingerprint_bits : ℕ) {Payload : Type 0} (empty_payload : Payload) where
  -- The loop body of `ReadBucket`.
  unfoldable pub read_slot : Store Payload → ℕ → ℕ → ℕ → Record Payload
  read_slot store position decoded_high slot =
      let width = low_width fingerprint_bits in
      let reverse_slot = slots_per_bucket - 1 - slot in
      let low =
        read_bits store.fingerprint_storage (field_start fingerprint_bits position reverse_slot)
          width in
      let high = bit_and (decoded_high >>> (reverse_slot * 4)) 0xf in
      record {
        fingerprint = bit_or low (u64 (high <<< width));
        payload = get_or store.payloads (position * slots_per_bucket + slot) empty_payload;
      }

  unfoldable pub read_bucket : Store Payload → ℕ → Bucket Payload
  unfolding read_slot
  read_bucket store position =
      let encoded_high =
        u16 (read_bits store.fingerprint_storage (field_start fingerprint_bits position 4) 12) in
      let decoded_high = codec.decode encoded_high in
      map (read_slot store position decoded_high) (range slots_per_bucket)

-- The variables of `WriteBucket`: the filter's vectors and `high_plain`.
pub record Writing (Payload : Type 0) : Type 0 where
  pub store : Store Payload
  pub high_plain : ℕ

module _ (fingerprint_bits : ℕ) {Payload : Type 0} (empty_payload : Payload) where
  -- The loop body of `WriteBucket`.
  unfoldable pub write_slot : ℕ → Bucket Payload → ℕ → Writing Payload → Writing Payload
  write_slot position bucket slot w =
      let width = low_width fingerprint_bits in
      let reverse_slot = slots_per_bucket - 1 - slot in
      let entry : Record Payload =
        get_or bucket slot (record { fingerprint = 0; payload = empty_payload }) in
      record {
        store = record {
          fingerprint_storage =
              write_bits w.store.fingerprint_storage
                (field_start fingerprint_bits position reverse_slot) width
                (bit_and entry.fingerprint (low_mask width));
          payloads = set w.store.payloads (position * slots_per_bucket + slot) entry.payload;
        };
        high_plain =
            bit_or w.high_plain
              (u16 (bit_and (entry.fingerprint >>> width) 0xf <<< (reverse_slot * 4)));
      }

  unfoldable pub write_bucket : Store Payload → ℕ → Bucket Payload → Store Payload
  unfolding write_slot
  write_bucket store position bucket =
      let w =
        for_each (range slots_per_bucket) (write_slot position (stable_sort bucket))
          (record { store = store; high_plain = 0 }) in
      record w.store {
        fingerprint_storage =
            write_bits w.store.fingerprint_storage (field_start fingerprint_bits position 4) 12
              (codec.encode w.high_plain);
      }
