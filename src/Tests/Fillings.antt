-- ===== src/Tests/Fillings.antt =====
-- Runs of the padding with generators that never throw.
use vlse.Base.{ℕ, ◌≤◌, ◌≡◌, refl, true, ok, Returns, ◌==◌, ◌+◌, ◌*◌, for_each}
use vlse.Codec.{codec, fill, enter, plain}
use vlse.Filter.Answers.{count_if}
use vlse.Filter.Bucket.{stable_sort, insert_sorted, occupied, place, first_empty, first_empty_from}
use vlse.Filter.Fill.Completed.{IsPadded, fill_empty_slots-IsPadded}
use vlse.Filter.Fill.Willing.{IsWilling, fill_empty_slots-Returns}
use vlse.Filter.Fill.Retrieval.{query_all-fill_empty_slots}
use vlse.Filter.Fill.{
  Generators, fill_empty_slots, end_fill, fill_buckets, fill_next, fill_bucket, fill_record,
  draw_fingerprint,
}
use vlse.Filter.Insert.{insert, insert_unpadded, insert_at, insert_direct}
use vlse.Filter.Layout.{blank_filter, storage_bytes}
use vlse.Filter.Invariant.{IsFilter}
use vlse.Filter.Query.{query_all}
use vlse.Filter.State.{
  KeyMetadata, metadata, rehash, hash_token128, rotate_left64, fingerprint_mask, alternate,
  capacity,
}
use vlse.Filter.Store.{write_bucket, write_slot, read_bucket, read_slot, field_start}
use vlse.Storage.{
  write_bits, merge_window, store_window, to_bytes, value_mask, read_bits, load_window, from_bytes,
  low_mask,
}
use vlse.Tests.Samples.{
  setting, empty_filter, empty-IsFilter, one_bucket, one_bucket-IsFilter, one, one_run,
  one_bucket_known, one_bucket_described, after-IsFilter, metadata_of,
}

-- The same fingerprint for every slot, and payloads that count the slots.
abbrev same_fingerprint : Generators ℕ
same_fingerprint = record {
  State = ℕ;
  fingerprint = λ state. ok (4095, state);
  payload = λ state. ok (state * 100, state + 1);
  allowed = λ fingerprint. true;
  rejections = 1;
}

willing : IsWilling setting same_fingerprint
unfolding draw_fingerprint fingerprint_mask
willing = record {
  draws = λ state. ((4095, state), refl, tt);
  pays = λ state. ((state * 100, state + 1), refl, tt);
}

one-IsFilter : IsFilter setting one
unfolding blank_filter
one-IsFilter =
    after-IsFilter one_bucket one true 1 11 one_bucket_known one_bucket-IsFilter refl
      one_bucket_described one_run

abbrev one_known : KeyMetadata
one_known = metadata_of (metadata setting one 1)

one_described : metadata setting one 1 ≡ ok one_known
unfolding insert insert_unpadded insert_at insert_direct metadata rehash hash_token128 rotate_left64
    fingerprint_mask blank_filter capacity read_bucket read_slot read_bits load_window from_bytes
    low_mask field_start codec fill for_each enter plain occupied place first_empty first_empty_from
    storage_bytes alternate write_bucket write_slot stable_sort insert_sorted write_bits
    merge_window store_window to_bytes value_mask
one_described = refl

fill_run : (fill_empty_slots setting same_fingerprint one 5).1 ≡ ok (3, 8)
unfolding fill_empty_slots end_fill fill_buckets fill_next fill_bucket fill_record draw_fingerprint
    insert insert_unpadded insert_at insert_direct metadata rehash hash_token128 rotate_left64
    fingerprint_mask blank_filter capacity read_bucket read_slot read_bits load_window from_bytes
    low_mask field_start codec fill for_each enter plain occupied place first_empty first_empty_from
    storage_bytes alternate write_bucket write_slot stable_sort insert_sorted write_bits
    merge_window store_window to_bytes value_mask
fill_run = refl

fill_empty_slots-IsPadded_example :
    IsPadded setting same_fingerprint one (fill_empty_slots setting same_fingerprint one 5).0 3
fill_empty_slots-IsPadded_example =
    fill_empty_slots-IsPadded setting same_fingerprint one 5 (3, 8) one-IsFilter fill_run

fill_empty_slots-Returns_example :
    Returns (fill_empty_slots setting same_fingerprint empty_filter 5).1 λ done.
      IsPadded setting same_fingerprint empty_filter
        (fill_empty_slots setting same_fingerprint empty_filter 5).0
        done.0
unfolding blank_filter
fill_empty_slots-Returns_example =
    fill_empty_slots-Returns setting same_fingerprint willing empty_filter 5 empty-IsFilter refl

query_all-fill_empty_slots_example : Returns (query_all setting one 1) λ before.
    Returns
      (query_all setting (fill_empty_slots setting same_fingerprint one 5).0 1)
      λ after. count_if (λ p. p == 11) before ≤ count_if (λ p. p == 11) after
query_all-fill_empty_slots_example =
    query_all-fill_empty_slots setting same_fingerprint one 5 (3, 8) 1 one_known (λ p. p == 11)
      one-IsFilter one_described fill_run
