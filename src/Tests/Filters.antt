-- ===== src/Tests/Filters.antt =====
-- Runs of the filter with four buckets and a small hash.
use vlse.Base.{
  ℕ, ◌+◌, ◌*◌, ◌^◌, ◌<◌, ◌≡◌, refl, arith, true, [], ◌∷◌, ok, throw, Returns, ◌==◌, not, ltb,
  if◌then◌else◌, runtime_error, length, for_each,
}
use vlse.Filter.Bucket.{Bucket, stable_sort}
use vlse.Filter.Insert.Laws.{insert-IsFilter}
use vlse.Filter.Invariant.{IsFilter}
use vlse.Filter.Answers.{count_if}
use vlse.Filter.Retrieval.{query_all-insert, query_all-insert_failed}
use vlse.Filter.Query.Laws.{found, query_all-found, contains-found}
use vlse.Filter.Query.{query_all, contains}
use vlse.Filter.Metadata.{IsMetadata, metadata-IsMetadata}
use vlse.Filter.Bucket.Laws.{AllBelow}
use vlse.Filter.Store.Laws.{IsStore, read_bucket-write_bucket_self, read_bucket-write_bucket_ne}
use vlse.Filter.Fill.{
  Generators, fill_empty_slots, end_fill, fill_buckets, fill_next, fill_bucket, fill_record,
  draw_fingerprint,
}
use vlse.Filter.Fill.Laws.{IsUntouched, fill_empty_slots-IsUntouched}
use vlse.Filter.Insert.{insert}
use vlse.Filter.Layout.Blank.{IsFresh, make_filter-IsFresh}
use vlse.Filter.Layout.Laws.{
  IsUpperPower, upper_power_of_two-Returns, IsSmall, small_layout-IsSmall,
}
use vlse.Filter.Layout.{
  make_filter, upper_power_of_two, small_layout, requested_buckets, blank_filter, storage_bytes,
}
use vlse.Filter.State.Alternate.{alternate-alternate, alternate-lt}
use vlse.Filter.State.{metadata, rehash, hash_token128, rotate_left64, fingerprint_mask, alternate}
use vlse.Codec.{codec, fill, enter, plain}
use vlse.Filter.Store.{write_bucket, read_bucket, read_slot, field_start}
use vlse.Storage.{read_bits, load_window, from_bytes, low_mask}
use vlse.Tests.Toys.{thousandths}
use vlse.Tests.Samples.{
  setting, layout, empty_filter, laid, sized, empty-IsFilter, known, known_run, filled,
  inserted_run, four, refused, refused_run, unpadded_run, four_known, four_described, four-IsFilter,
  again_known, again_described,
}

query_all-insert_example : Returns (query_all setting empty_filter 7) λ before.
    Returns
      (query_all setting filled 7)
      λ after. count_if (λ p. p == 99) after ≡ count_if (λ p. p == 99) before + 1
unfolding metadata rehash hash_token128 rotate_left64 fingerprint_mask blank_filter alternate
query_all-insert_example =
    query_all-insert setting empty_filter empty-IsFilter refl 7 99 known known_run filled 7 known
      (λ p. p == 99) known_run inserted_run

query_all-insert_failed_example :
    (query_all setting refused 4 ≡ query_all setting four 4)
    × (refused.filled_slots ≡ four.filled_slots)
query_all-insert_failed_example =
    query_all-insert_failed setting four four-IsFilter unpadded_run.1.1.1 5 55 four_known
      four_described refused 4 again_known again_described refused_run

insert-IsFilter_example : Returns (insert setting four 5 55) (λ r. IsFilter setting r.1)
insert-IsFilter_example =
    insert-IsFilter setting four 5 55 four_known four-IsFilter unpadded_run.1.1.1 four_described

query_all-found_example : query_all setting four 5 ≡ ok (found setting four four_known)
query_all-found_example = query_all-found setting four 5 four_known four_described

contains-found_example :
    contains setting four 5 ≡ ok (not (length (found setting four four_known) == 0))
contains-found_example = contains-found setting four 5 four_known four_described

metadata-IsMetadata_example : IsMetadata 12 empty_filter.layout known
unfolding blank_filter
metadata-IsMetadata_example =
    metadata-IsMetadata setting empty_filter 7 {m = known} laid sized known_run

alternate-alternate_example : alternate layout (alternate layout 2 1234) 1234 ≡ 2
alternate-alternate_example = alternate-alternate layout 2 1234

alternate-lt_example : alternate layout 2 1234 < 4
alternate-lt_example = alternate-lt layout 2 1234 laid (omega arith)

-- Three records and an empty slot.
abbrev bucket : Bucket ℕ
bucket =
    record { fingerprint = 5; payload = 50 }
    ∷ record { fingerprint = 0; payload = 0 }
    ∷ record { fingerprint = 4095; payload = 70 }
    ∷ record { fingerprint = 5; payload = 60 }
    ∷ []

bucket_small : AllBelow (2 ^ 12) bucket
bucket_small = (omega arith, (omega arith, (omega arith, (omega arith, tt))))

empty_store : IsStore {Payload = ℕ} 12 4 empty_filter.store
unfolding blank_filter
empty_store = empty-IsFilter.table.valid

read_bucket-write_bucket_self_example :
    read_bucket 12 0 (write_bucket 12 0 empty_filter.store 2 bucket) 2 ≡ stable_sort bucket
read_bucket-write_bucket_self_example =
    read_bucket-write_bucket_self 12 4 sized 0 empty_filter.store empty_store 2 (omega arith) bucket
      refl bucket_small

read_bucket-write_bucket_ne_example :
    read_bucket 12 0 (write_bucket 12 0 empty_filter.store 2 bucket) 3
    ≡ read_bucket 12 0 empty_filter.store 3
read_bucket-write_bucket_ne_example =
    read_bucket-write_bucket_ne 12 4 sized 0 empty_filter.store empty_store 2 (omega arith) bucket
      refl bucket_small 3 (omega arith) (λ e. absurd (omega (arith, e)))

-- Fingerprints 1, 2, ..., of which the generator gives three and then throws.
abbrev generators : Generators ℕ
generators = record {
  State = ℕ;
  fingerprint = λ state. if ltb state 4 then ok (state, state + 1) else throw runtime_error;
  payload = λ state. ok (state * 100, state);
  allowed = λ fingerprint. true;
  rejections = 4;
}

fill_throws : (fill_empty_slots setting generators empty_filter 1).1 ≡ throw runtime_error
unfolding fill_empty_slots end_fill fill_buckets fill_next fill_bucket fill_record draw_fingerprint
    fingerprint_mask blank_filter read_bucket read_slot read_bits load_window from_bytes low_mask
    field_start codec fill for_each enter plain storage_bytes
fill_throws = refl

fill_empty_slots-IsUntouched_example :
    IsUntouched setting generators empty_filter
      (fill_empty_slots setting generators empty_filter 1).0
fill_empty_slots-IsUntouched_example =
    fill_empty_slots-IsUntouched setting generators empty_filter 1 runtime_error empty-IsFilter
      fill_throws

make_filter-IsFresh_example :
    Returns
      (make_filter setting thousandths 100 950 500 1 2)
      (IsFresh setting thousandths (omega arith) (omega arith) 27)
unfolding requested_buckets
make_filter-IsFresh_example =
    make_filter-IsFresh setting thousandths (omega arith) (omega arith) 100 950 500 1 2 refl refl
      refl (omega arith)

upper_power_of_two-Returns_example : Returns (upper_power_of_two 27) (IsUpperPower 27)
upper_power_of_two-Returns_example = upper_power_of_two-Returns 27 (omega arith) (omega arith)

small_layout-IsSmall_example : Returns (small_layout 12 1000) (IsSmall 12 1000)
small_layout-IsSmall_example = small_layout-IsSmall 12 1000 (omega arith) (omega arith)
