-- ===== src/Tests/Cuckoos.antt =====
-- Runs of the cuckoo table with a hash that keeps the message.
use vlse.Aead.{load_little_endian64}
use vlse.Base.{
  ℕ, ◌+◌, ◌≡◌, ◌⊎◌, refl, arith, true, false, List, [], ◌∷◌, ◌++◌, replicate, for_each, Result, ok,
  throw,
}
use vlse.Cuckoo.Insertion.{Found, insert_token-Found, insert_token-drops}
use vlse.Cuckoo.Filling.{count_taken, fill_empty-Found}
use vlse.Cuckoo.Positions.{IsShaped}
use vlse.Cuckoo.{
  Hashing, CuckooTable, make_table, insert_token, relocate, end_round, swap_random, first_free,
  settle, position, low128_little_endian, hash_key, count_failure, fill_empty, fill_from,
}

abbrev pub keeping_hash : Hashing
keeping_hash = record {
  siphash = λ key message. message;
  Engine = ℕ;
  seed_engine = λ seed. seed;
  draw = λ engine. (engine, engine + 1);
}

abbrev token_of : ℕ → List ℕ
token_of byte = replicate 15 0 ++ (byte ∷ [])

abbrev three_bins : CuckooTable keeping_hash
three_bins = make_table keeping_hash 2 7

three_bins-IsShaped : IsShaped keeping_hash 3 three_bins
unfolding make_table
three_bins-IsShaped = record { some_bins = omega arith; bins = refl; flags = refl }

abbrev with_five : CuckooTable keeping_hash
with_five = (insert_token keeping_hash three_bins (token_of 5)).1

five_run : insert_token keeping_hash three_bins (token_of 5) ≡ (true, with_five)
unfolding insert_token relocate end_round swap_random first_free settle position
    low128_little_endian hash_key load_little_endian64 for_each make_table
five_run = refl

insert_token-Found_example :
    IsShaped keeping_hash 3 with_five
    × ((t : List ℕ)
        → (Found keeping_hash three_bins t) ⊎ (t ≡ token_of 5)
        → Found keeping_hash with_five t)
insert_token-Found_example =
    insert_token-Found keeping_hash 3 three_bins with_five (token_of 5) three_bins-IsShaped five_run

five-IsShaped : IsShaped keeping_hash 3 with_five
five-IsShaped =
    (insert_token-Found keeping_hash 3 three_bins with_five (token_of 5) three_bins-IsShaped
      five_run).0

abbrev without_eight : CuckooTable keeping_hash
without_eight = (insert_token keeping_hash with_five (token_of 8)).1

eight_run : insert_token keeping_hash with_five (token_of 8) ≡ (false, without_eight)
unfolding insert_token relocate end_round swap_random first_free settle position
    low128_little_endian hash_key load_little_endian64 for_each make_table count_failure
eight_run = refl

insert_token-drops_example :
    IsShaped keeping_hash 3 without_eight
    × ((carried : List ℕ) × ((t : List ℕ)
          → (Found keeping_hash with_five t) ⊎ (t ≡ token_of 8)
          → (Found keeping_hash without_eight t) ⊎ (t ≡ carried)))
insert_token-drops_example =
    insert_token-drops keeping_hash 3 with_five without_eight (token_of 8) five-IsShaped eight_run

abbrev count_up : ℕ → Result (List ℕ × ℕ)
count_up state = ok (token_of state, state + 1)

abbrev full_table : CuckooTable keeping_hash
full_table = elim (fill_empty keeping_hash count_up with_five 20) [
  | ok r ↦ r.1.0
  | throw e ↦ with_five
]

filling_run : fill_empty keeping_hash count_up with_five 20 ≡ ok (2, (full_table, 22))
unfolding fill_empty fill_from insert_token relocate end_round swap_random first_free settle
    position low128_little_endian hash_key load_little_endian64 for_each make_table
filling_run = refl

fill_empty-Found_example :
    IsShaped keeping_hash 3 full_table
    × ((t : List ℕ) → Found keeping_hash with_five t → Found keeping_hash full_table t)
    × (count_taken with_five.occupied + 2 ≡ 3)
    × (count_taken full_table.occupied ≡ 3)
fill_empty-Found_example =
    fill_empty-Found keeping_hash count_up 3 with_five 20 (2, (full_table, 22)) five-IsShaped
      filling_run
