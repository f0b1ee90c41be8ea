-- ===== src/Tests/Demos.antt =====
-- The demo with small stand-ins for the libraries.
use vlse.Aead.{encrypt_label, sealed_label}
use vlse.Base.{
  ℕ, ◌+◌, ◌*◌, ◌%◌, ◌^◌, ◌<◌, ◌≤◌, zero, suc, ◌≡◌, ◌≢◌, refl, arith, false, List, [], ◌∷◌,
  replicate, get_or, none, some, Result, ok, throw, Returns, for_each,
}
use vlse.Codec.{codec, fill, enter, plain}
use vlse.Demo.Numerals.{make_keywords-apart}
use vlse.Demo.Passes.{IsExpected, run_items-Returns, run_items-passes}
use vlse.Demo.Steps.{IsLive}
use vlse.Demo.Queries.{IsSound, query_keywords-insert_keywords}
use vlse.Demo.{
  Libraries, Index, Loaded, loaded, not_inserted, index_setting, make_keywords, run_items,
  make_index, passed, to_string, to_string_from, insert_keywords, insert_keyword, query_keywords,
}
use vlse.Derivation.{derive_token_and_key, domain_hash}
use vlse.Filter.Bucket.{stable_sort, insert_sorted, occupied, place, first_empty, first_empty_from}
use vlse.Filter.Insert.{insert, insert_unpadded, insert_at, insert_direct}
use vlse.Filter.Invariant.{IsFilter}
use vlse.Filter.Layout.Blank.{blank-IsFilter}
use vlse.Filter.Layout.Laws.{segment_layout}
use vlse.Filter.Layout.{
  requested_buckets, blank_filter, storage_bytes, make_filter, initialize_layout, small_layout,
  upper_power_of_two, double_until, round_up,
}
use vlse.Filter.State.{
  Layout, metadata, rehash, hash_token128, rotate_left64, fingerprint_mask, alternate, capacity,
}
use vlse.Filter.Store.{write_bucket, write_slot, read_bucket, read_slot, field_start}
use vlse.Oprf.Draws.{pool_after}
use vlse.Filter.Metadata.{rehashed}
use vlse.Oprf.{
  PreparedBlind, random_secret_key, direct_evaluate, hash_candidate, hash_to_group,
  hash_to_group_from, to_big_endian, big_endian_bytes, prepare_blind, prepare_blind_pool,
  random_scalar, from_big_endian, from_big_endian_after,
}
use vlse.Storage.{
  write_bits, merge_window, store_window, to_bytes, value_mask, read_bits, load_window, from_bytes,
  low_mask,
}
use vlse.Tests.Toys.{keeping, keeping_opens, group, group-IsGroup, thousandths}

abbrev toys : Libraries
toys = record {
  group = group;
  cipher = keeping;
  entropy = record { State = ℕ; rand_bytes = λ size state. some (replicate size 0, state) };
  double = thousandths;
  sha256 = λ message. message;
  murmur_hash64 = λ x. 1;
  Engine = ℕ;
  seed_engine = λ seed. seed;
  draw = λ engine. (engine, engine + 1);
  rehash_fuel = 2;
  rejections = 1;
}

toys-IsSound : IsSound toys
toys-IsSound = record {
  opens_sealed = keeping_opens;
  makes_context = λ key nonce aad ciphertext tag. (some ciphertext, refl, tt);
  powers = group-IsGroup;
}

square_other : (r : ℕ) → r < 4 → (r + 2) ^ 2 % 7 ≢ 1
square_other zero below e = omega (arith, e)
square_other (suc zero) below e = omega (arith, e)
square_other (suc (suc zero)) below e = omega (arith, e)
square_other (suc (suc (suc zero))) below e = omega (arith, e)
square_other (suc (suc (suc (suc r)))) below e = omega arith

toys-IsLive : IsLive toys 5
unfolding hash_candidate rehashed fingerprint_mask pool_after from_big_endian from_big_endian_after
toys-IsLive = record {
  fits = omega arith;
  elements = λ i below. (0, omega arith, omega arith, square_other _ (omega arith));
  scalars = λ pool. (0, omega arith, (omega arith, omega arith));
  seals = λ key nonce aad text. ((text, key), refl);
  gives_bytes = λ size state. ((replicate size 0, state), refl);
  hashes = λ state. (1, omega arith, λ e. absurd (omega (arith, e)));
  draws_dummies = omega arith;
  above = refl;
  below = refl;
}

toys_few : (requested_buckets thousandths 5 (thousandths.decimal 95 2)) < 10000
unfolding requested_buckets
toys_few = omega arith

run_items-Returns_example : Returns (run_items toys 5 0 0) (IsExpected toys 5)
run_items-Returns_example =
    run_items-Returns toys toys-IsSound 5 toys-IsLive (omega arith) toys_few 0 0

make_keywords-apart_example : get_or (make_keywords 256) 12 [] ≢ get_or (make_keywords 256) 120 []
make_keywords-apart_example =
    make_keywords-apart 256 12 120 (omega arith) (omega arith) (omega arith)
      (λ e. absurd (omega (arith, e)))

abbrev toy_layout : Layout
toy_layout = record {
  bucket_count = 4;
  alternate_masks = replicate 4 3;
  logical_fingerprint_bytes = storage_bytes 43 4;
}

abbrev empty_index : Index toys
empty_index = blank_filter (index_setting toys) toy_layout 4 1 2

empty_index-IsFilter : IsFilter (index_setting toys) empty_index
empty_index-IsFilter =
    blank-IsFilter (index_setting toys) toy_layout
      (segment_layout 43 4 1 2 4 (omega arith) refl refl)
      (record { wide = omega arith; narrow = omega arith; addressable = omega arith }) refl
      (omega arith) 4 1 2

abbrev two_keywords : List (List ℕ)
two_keywords = (65 ∷ []) ∷ (66 ∷ []) ∷ []

abbrev index_of : Result (Loaded toys) → Index toys
index_of (ok (loaded index)) = index
index_of (ok (not_inserted i)) = empty_index
index_of (throw e) = empty_index

abbrev loaded_index : Index toys
loaded_index = index_of (insert_keywords toys 2 two_keywords 0 empty_index)

loaded_run : insert_keywords toys 2 two_keywords 0 empty_index ≡ ok (loaded loaded_index)
unfolding insert_keywords insert_keyword direct_evaluate hash_to_group hash_to_group_from
    hash_candidate to_big_endian big_endian_bytes derive_token_and_key domain_hash encrypt_label
    sealed_label from_big_endian from_big_endian_after insert insert_unpadded insert_at
    insert_direct metadata rehash hash_token128 rotate_left64 fingerprint_mask blank_filter capacity
    read_bucket read_slot read_bits load_window from_bytes low_mask field_start codec fill for_each
    enter plain occupied place first_empty first_empty_from storage_bytes alternate write_bucket
    write_slot stable_sort insert_sorted write_bits merge_window store_window to_bytes value_mask
loaded_run = refl

abbrev blinds : List PreparedBlind
blinds = replicate 2 (record { scalar = 2; inverse = 2; consumed = false })

blinds_run : prepare_blind_pool group 2 0 ≡ ok (blinds, 2)
unfolding prepare_blind_pool prepare_blind random_scalar from_big_endian from_big_endian_after
blinds_run = refl

query_keywords-insert_keywords_example :
    query_keywords toys 2 two_keywords blinds 0 loaded_index ≡ ok none
unfolding blank_filter
query_keywords-insert_keywords_example =
    query_keywords-insert_keywords toys toys-IsSound 2 two_keywords empty_index loaded_index blinds
      0 2 empty_index-IsFilter refl loaded_run blinds_run

abbrev made_index : Index toys
made_index = elim (make_index toys 5) [ ok index ↦ index | throw e ↦ empty_index ]

made_run : make_index toys 5 ≡ ok made_index
unfolding make_index make_filter initialize_layout requested_buckets small_layout upper_power_of_two
    double_until round_up
made_run = refl

abbrev finished_index : Index toys
finished_index = index_of (insert_keywords toys 2 (make_keywords 5) 0 made_index)

finished_run : insert_keywords toys 2 (make_keywords 5) 0 made_index ≡ ok (loaded finished_index)
unfolding make_index make_filter initialize_layout requested_buckets small_layout upper_power_of_two
    double_until round_up make_keywords to_string to_string_from insert_keywords insert_keyword
    direct_evaluate hash_to_group hash_to_group_from hash_candidate to_big_endian big_endian_bytes
    derive_token_and_key domain_hash encrypt_label sealed_label from_big_endian
    from_big_endian_after insert insert_unpadded insert_at insert_direct metadata rehash
    hash_token128 rotate_left64 fingerprint_mask blank_filter capacity read_bucket read_slot
    read_bits load_window from_bytes low_mask field_start codec fill for_each enter plain occupied
    place first_empty first_empty_from storage_bytes alternate write_bucket write_slot stable_sort
    insert_sorted write_bits merge_window store_window to_bytes value_mask
finished_run = refl

secret_run : random_secret_key group 0 ≡ ok (2, 1)
unfolding random_secret_key random_scalar from_big_endian from_big_endian_after
secret_run = refl

run_items-passes_example :
    (dummy_records : ℕ) × (run_items toys 5 0 0 ≡ ok (passed dummy_records))
    × (5 + dummy_records ≡ made_index.layout.bucket_count * 4)
    × (requested_buckets thousandths 5 (thousandths.decimal 95 2) ≤ made_index.layout.bucket_count)
run_items-passes_example =
    run_items-passes toys toys-IsSound 5 toys-IsLive (omega arith) toys_few 0 1 0 2 made_index
      finished_index secret_run made_run finished_run
