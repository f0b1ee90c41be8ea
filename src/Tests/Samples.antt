-- ===== src/Tests/Samples.antt =====
-- Filters with a small hash: one of four buckets, and one of a single bucket that is filled step
-- by step.
use vlse.Base.{
  ℕ, ◌+◌, ◌*◌, ◌≡◌, refl, arith, Bool, true, false, replicate, Result, ok, throw, u64, subst,
  for_each,
}
use vlse.Filter.Bucket.{stable_sort, insert_sorted, occupied, place, first_empty, first_empty_from}
use vlse.Filter.Insert.Laws.{insert-IsFilter}
use vlse.Filter.Invariant.{IsFilter}
use vlse.Filter.Insert.{insert, insert_unpadded, insert_at, insert_direct}
use vlse.Filter.Layout.Blank.{blank-IsFilter}
use vlse.Filter.Layout.Laws.{segment_layout}
use vlse.Filter.Layout.{blank_filter, storage_bytes}
use vlse.Filter.State.Alternate.{IsLayout}
use vlse.Filter.State.{
  Setting, KeyMetadata, Layout, Filter, metadata, rehash, hash_token128, rotate_left64,
  fingerprint_mask, alternate, capacity,
}
use vlse.Codec.{codec, fill, enter, plain}
use vlse.Filter.Store.{write_bucket, write_slot, read_bucket, read_slot, field_start}
use vlse.Storage.{
  write_bits, merge_window, store_window, to_bytes, value_mask, read_bits, load_window, from_bytes,
  low_mask,
}
use vlse.Filter.Store.Fields.{IsSized}

abbrev pub setting : Setting
setting = record {
  fingerprint_bits = 12;
  Payload = ℕ;
  empty_payload = 0;
  murmur_hash64 = λ x. u64 (x * 2654435761 + 12345);
  Engine = ℕ;
  seed_engine = λ seed. seed;
  draw = λ engine. (engine, u64 (engine * 6364136223846793005 + 1));
  rehash_fuel = 8;
}

abbrev pub layout : Layout
layout = record {
  bucket_count = 4;
  alternate_masks = replicate 4 3;
  logical_fingerprint_bytes = storage_bytes 12 4;
}

abbrev pub empty_filter : Filter setting
empty_filter = blank_filter setting layout 4 1 2

pub laid : IsLayout layout
laid = segment_layout 12 4 1 2 4 (omega arith) refl refl

pub sized : IsSized 12 4
sized = record { wide = omega arith; narrow = omega arith; addressable = omega arith }

pub empty-IsFilter : IsFilter setting empty_filter
empty-IsFilter = blank-IsFilter setting layout laid sized refl (omega arith) 4 1 2

abbrev pub metadata_of : Result KeyMetadata → KeyMetadata
metadata_of (ok m) = m
metadata_of (throw e) = record { fingerprint = 0; first_bucket = 0; second_bucket = 0 }

abbrev pub known : KeyMetadata
known = metadata_of (metadata setting empty_filter 7)

pub known_run : metadata setting empty_filter 7 ≡ ok known
unfolding metadata rehash hash_token128 rotate_left64 fingerprint_mask blank_filter
known_run = refl

abbrev pub filter_of : Result (Bool × Filter setting) → Filter setting
filter_of (ok r) = r.1
filter_of (throw e) = empty_filter

abbrev pub filled : Filter setting
filled = filter_of (insert setting empty_filter 7 99)

pub inserted_run : insert setting empty_filter 7 99 ≡ ok (true, filled)
unfolding insert insert_unpadded insert_at insert_direct metadata rehash hash_token128 rotate_left64
    fingerprint_mask blank_filter capacity read_bucket read_slot read_bits load_window from_bytes
    low_mask field_start codec fill for_each enter plain occupied place first_empty first_empty_from
    storage_bytes alternate
inserted_run = refl

-- An insertion from a valid unpadded filter leaves a valid filter.
pub after-IsFilter :
    (s s' : Filter setting) (b : Bool) (token payload : ℕ) (m : KeyMetadata)
    → IsFilter setting s
    → s.padded ≡ false
    → metadata setting s token ≡ ok m
    → insert setting s token payload ≡ ok (b, s')
    → IsFilter setting s'
after-IsFilter s s' b token payload m v unpadded known e =
    let (r, run, valid) = insert-IsFilter setting s token payload m v unpadded known in
    let same : r ≡ (b, s') = cc in
    subst (λ (t : Bool × Filter setting). IsFilter setting t.1) same valid

pub filled-IsFilter : IsFilter setting filled
unfolding blank_filter
filled-IsFilter =
    after-IsFilter empty_filter filled true 7 99 known empty-IsFilter refl known_run inserted_run

-- A table of one bucket, and the fillings of it.
abbrev pub narrow_layout : Layout
narrow_layout = record {
  bucket_count = 1;
  alternate_masks = replicate 4 0;
  logical_fingerprint_bytes = storage_bytes 12 1;
}

abbrev pub one_bucket : Filter setting
one_bucket = blank_filter setting narrow_layout 4 1 2

pub one_bucket-IsFilter : IsFilter setting one_bucket
one_bucket-IsFilter =
    blank-IsFilter setting narrow_layout (segment_layout 12 1 1 0 1 (omega arith) refl refl)
      (record { wide = omega arith; narrow = omega arith; addressable = omega arith }) refl
      (omega arith) 4 1 2

abbrev pub one : Filter setting
one = filter_of (insert setting one_bucket 1 11)

abbrev pub two : Filter setting
two = filter_of (insert setting one 2 22)

pub one_run : insert setting one_bucket 1 11 ≡ ok (true, one)
unfolding insert insert_unpadded insert_at insert_direct metadata rehash hash_token128 rotate_left64
    fingerprint_mask blank_filter capacity read_bucket read_slot read_bits load_window from_bytes
    low_mask field_start codec fill for_each enter plain occupied place first_empty first_empty_from
    storage_bytes alternate
one_run = refl

pub two_run : insert setting one 2 22 ≡ ok (true, two)
unfolding insert insert_unpadded insert_at insert_direct metadata rehash hash_token128 rotate_left64
    fingerprint_mask blank_filter capacity read_bucket read_slot read_bits load_window from_bytes
    low_mask field_start codec fill for_each enter plain occupied place first_empty first_empty_from
    storage_bytes alternate write_bucket write_slot stable_sort insert_sorted write_bits
    merge_window store_window to_bytes value_mask
two_run = refl

abbrev pub three : Filter setting
three = filter_of (insert setting two 3 33)

pub three_run : insert setting two 3 33 ≡ ok (true, three)
unfolding insert insert_unpadded insert_at insert_direct metadata rehash hash_token128 rotate_left64
    fingerprint_mask blank_filter capacity read_bucket read_slot read_bits load_window from_bytes
    low_mask field_start codec fill for_each enter plain occupied place first_empty first_empty_from
    storage_bytes alternate write_bucket write_slot stable_sort insert_sorted write_bits
    merge_window store_window to_bytes value_mask
three_run = refl

abbrev pub four : Filter setting
four = filter_of (insert setting three 4 44)

pub four_run : insert setting three 4 44 ≡ ok (true, four)
unfolding insert insert_unpadded insert_at insert_direct metadata rehash hash_token128 rotate_left64
    fingerprint_mask blank_filter capacity read_bucket read_slot read_bits load_window from_bytes
    low_mask field_start codec fill for_each enter plain occupied place first_empty first_empty_from
    storage_bytes alternate write_bucket write_slot stable_sort insert_sorted write_bits
    merge_window store_window to_bytes value_mask
four_run = refl

abbrev pub refused : Filter setting
refused = filter_of (insert setting four 5 55)

pub refused_run : insert setting four 5 55 ≡ ok (false, refused)
unfolding insert insert_unpadded insert_at insert_direct metadata rehash hash_token128 rotate_left64
    fingerprint_mask blank_filter capacity read_bucket read_slot read_bits load_window from_bytes
    low_mask field_start codec fill for_each enter plain occupied place first_empty first_empty_from
    storage_bytes alternate write_bucket write_slot stable_sort insert_sorted write_bits
    merge_window store_window to_bytes value_mask
refused_run = refl

pub unpadded_run :
    (one.padded ≡ false) × ((two.padded ≡ false) × ((three.padded ≡ false) × (four.padded ≡ false)))
unfolding insert insert_unpadded insert_at insert_direct metadata rehash hash_token128 rotate_left64
    fingerprint_mask blank_filter capacity read_bucket read_slot read_bits load_window from_bytes
    low_mask field_start codec fill for_each enter plain occupied place first_empty first_empty_from
    storage_bytes alternate write_bucket write_slot stable_sort insert_sorted write_bits
    merge_window store_window to_bytes value_mask
unpadded_run = (refl, (refl, (refl, refl)))

abbrev pub one_bucket_known : KeyMetadata
one_bucket_known = metadata_of (metadata setting one_bucket 1)

pub one_bucket_described : metadata setting one_bucket 1 ≡ ok one_bucket_known
unfolding insert insert_unpadded insert_at insert_direct metadata rehash hash_token128 rotate_left64
    fingerprint_mask blank_filter capacity read_bucket read_slot read_bits load_window from_bytes
    low_mask field_start codec fill for_each enter plain occupied place first_empty first_empty_from
    storage_bytes alternate write_bucket write_slot stable_sort insert_sorted write_bits
    merge_window store_window to_bytes value_mask
one_bucket_described = refl

abbrev pub one_known : KeyMetadata
one_known = metadata_of (metadata setting one 2)

pub one_described : metadata setting one 2 ≡ ok one_known
unfolding insert insert_unpadded insert_at insert_direct metadata rehash hash_token128 rotate_left64
    fingerprint_mask blank_filter capacity read_bucket read_slot read_bits load_window from_bytes
    low_mask field_start codec fill for_each enter plain occupied place first_empty first_empty_from
    storage_bytes alternate write_bucket write_slot stable_sort insert_sorted write_bits
    merge_window store_window to_bytes value_mask
one_described = refl

abbrev pub two_known : KeyMetadata
two_known = metadata_of (metadata setting two 3)

pub two_described : metadata setting two 3 ≡ ok two_known
unfolding insert insert_unpadded insert_at insert_direct metadata rehash hash_token128 rotate_left64
    fingerprint_mask blank_filter capacity read_bucket read_slot read_bits load_window from_bytes
    low_mask field_start codec fill for_each enter plain occupied place first_empty first_empty_from
    storage_bytes alternate write_bucket write_slot stable_sort insert_sorted write_bits
    merge_window store_window to_bytes value_mask
two_described = refl

abbrev pub three_known : KeyMetadata
three_known = metadata_of (metadata setting three 4)

pub three_described : metadata setting three 4 ≡ ok three_known
unfolding insert insert_unpadded insert_at insert_direct metadata rehash hash_token128 rotate_left64
    fingerprint_mask blank_filter capacity read_bucket read_slot read_bits load_window from_bytes
    low_mask field_start codec fill for_each enter plain occupied place first_empty first_empty_from
    storage_bytes alternate write_bucket write_slot stable_sort insert_sorted write_bits
    merge_window store_window to_bytes value_mask
three_described = refl

abbrev pub four_known : KeyMetadata
four_known = metadata_of (metadata setting four 5)

pub four_described : metadata setting four 5 ≡ ok four_known
unfolding insert insert_unpadded insert_at insert_direct metadata rehash hash_token128 rotate_left64
    fingerprint_mask blank_filter capacity read_bucket read_slot read_bits load_window from_bytes
    low_mask field_start codec fill for_each enter plain occupied place first_empty first_empty_from
    storage_bytes alternate write_bucket write_slot stable_sort insert_sorted write_bits
    merge_window store_window to_bytes value_mask
four_described = refl

pub four-IsFilter : IsFilter setting four
unfolding blank_filter
four-IsFilter =
    let first =
      after-IsFilter one_bucket one true 1 11 one_bucket_known one_bucket-IsFilter refl
        one_bucket_described one_run in
    let second =
      after-IsFilter one two true 2 22 one_known first unpadded_run.0 one_described two_run in
    let third =
      after-IsFilter two three true 3 33 two_known second unpadded_run.1.0 two_described
        three_run in
    after-IsFilter three four true 4 44 three_known third unpadded_run.1.1.0 three_described
      four_run

abbrev pub again_known : KeyMetadata
again_known = metadata_of (metadata setting four 4)

pub again_described : metadata setting four 4 ≡ ok again_known
unfolding insert insert_unpadded insert_at insert_direct metadata rehash hash_token128 rotate_left64
    fingerprint_mask blank_filter capacity read_bucket read_slot read_bits load_window from_bytes
    low_mask field_start codec fill for_each enter plain occupied place first_empty first_empty_from
    storage_bytes alternate write_bucket write_slot stable_sort insert_sorted write_bits
    merge_window store_window to_bytes value_mask
again_described = refl
