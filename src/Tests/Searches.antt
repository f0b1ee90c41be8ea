-- ===== src/Tests/Searches.antt =====
-- A run of the baseline protocol with small stand-ins for the libraries.
use vlse.Aead.{store_little_endian, load_little_endian64}
use vlse.Base.{
  ℕ, ◌≡◌, ◌≢◌, refl, arith, false, ap, List, [], ◌∷◌, get_or, take, replicate, Result, ok, throw,
  for_each,
}
use vlse.Cuckoo.Positions.{IsShaped}
use vlse.Cuckoo.{
  CuckooTable, make_table, insert_token, relocate, end_round, swap_random, first_free, settle,
  position, low128_little_endian, hash_key, fill_empty, fill_from, encode_document, decode_document,
  same_token,
}
use vlse.Derivation.{lse_aes_key}
use vlse.Lse.Lookups.{decode_document-encode_document}
use vlse.Lse.Searches.{search_items-load_items}
use vlse.Lse.Setup.{IsFaithful, Distinct, Each}
use vlse.Lse.{
  Baseline, Drawing, TokenMap, load_items, dummy_token, draw_unused, random_blocks, emplace,
  emplace_new, lookup, is_known, encrypt_documents, search_items,
}
use vlse.Oprf.{
  Group, PreparedBlind, direct_evaluate, hash_candidate, hash_to_group, hash_to_group_from,
  to_big_endian, big_endian_bytes, prepare_blind, prepare_blind_pool, random_scalar,
  from_big_endian, from_big_endian_after,
}
use vlse.Tests.Cuckoos.{keeping_hash}
use vlse.Tests.Toys.{group, group-IsGroup}

-- The group of the toys with a hash that is the first character of the input.
abbrev initials : Group
initials = record group { shake256 = λ message size. get_or message 28 0 ∷ [] }

abbrev plain_aes : Baseline
plain_aes = record {
  group = initials;
  hashing = keeping_hash;
  aes_encrypt = λ key block. block;
  aes_decrypt = λ key block. block;
}

plain_aes-IsFaithful : IsFaithful plain_aes
plain_aes-IsFaithful = record {
  aes = λ key block sized. refl;
  powers = record {
    above_three = group-IsGroup.above_three;
    cofactor_whole = group-IsGroup.cofactor_whole;
    power_mod-lt = group-IsGroup.power_mod-lt;
    power_mod-power_mod = group-IsGroup.power_mod-power_mod;
    fermat = group-IsGroup.fermat;
    mul-inv_mod = group-IsGroup.mul-inv_mod;
  };
}

abbrev letters : List (List ℕ)
letters = (64 ∷ []) ∷ (65 ∷ []) ∷ []

abbrev empty_table : CuckooTable keeping_hash
empty_table = make_table keeping_hash 2 7

empty_table-IsShaped : IsShaped keeping_hash 3 empty_table
unfolding make_table
empty_table-IsShaped = record { some_bins = omega arith; bins = refl; flags = refl }

letters-Distinct : Distinct (direct_evaluate initials 2) letters
unfolding Distinct Each direct_evaluate hash_to_group hash_to_group_from hash_candidate
    to_big_endian big_endian_bytes from_big_endian from_big_endian_after
letters-Distinct = ((apart, tt), (tt, tt))
  where
    last : Result (List ℕ) → ℕ
    last (ok output) = get_or output 383 0
    last (throw e) = 0

    apart : direct_evaluate initials 2 (64 ∷ []) ≢ direct_evaluate initials 2 (65 ∷ [])
    apart e = let no : 2 ≡ 4 = ap last e in omega (arith, no)

abbrev genuine : CuckooTable keeping_hash × TokenMap
genuine = elim (load_items plain_aes 2 1 2 letters 0 empty_table []) [
  | ok r ↦ r
  | throw e ↦ (empty_table, [])
]

genuine_run : load_items plain_aes 2 1 2 letters 0 empty_table [] ≡ ok genuine
unfolding load_items direct_evaluate hash_to_group hash_to_group_from hash_candidate to_big_endian
    big_endian_bytes from_big_endian from_big_endian_after emplace emplace_new lookup same_token
    lse_aes_key encrypt_documents encode_document store_little_endian insert_token relocate
    end_round swap_random first_free settle position low128_little_endian hash_key
    load_little_endian64 for_each make_table
genuine_run = refl

abbrev filled : ℕ × (CuckooTable keeping_hash × Drawing plain_aes)
filled = elim (fill_empty keeping_hash (dummy_token plain_aes 2) genuine.0 (genuine.1, (0, 0))) [
  | ok r ↦ r
  | throw e ↦ (0, (empty_table, ([], (0, 0))))
]

filled_run :
    fill_empty keeping_hash (dummy_token plain_aes 2) genuine.0 (genuine.1, (0, 0)) ≡ ok filled
unfolding load_items direct_evaluate hash_to_group hash_to_group_from hash_candidate to_big_endian
    big_endian_bytes from_big_endian from_big_endian_after emplace emplace_new lookup same_token
    lse_aes_key encrypt_documents encode_document store_little_endian insert_token relocate
    end_round swap_random first_free settle position low128_little_endian hash_key
    load_little_endian64 for_each make_table fill_empty fill_from dummy_token draw_unused
    random_blocks is_known
filled_run = refl

abbrev two_blinds : List PreparedBlind
two_blinds = replicate 2 (record { scalar = 2; inverse = 2; consumed = false })

blinds_made : prepare_blind_pool initials 2 0 ≡ ok (two_blinds, 2)
unfolding prepare_blind_pool prepare_blind random_scalar from_big_endian from_big_endian_after
blinds_made = refl

search_items-load_items_example :
    search_items plain_aes 2 1 2 (take 2 letters) two_blinds two_blinds 0 filled.1.0 filled.1.1.0
    ≡ ok (2, 4)
search_items-load_items_example =
    search_items-load_items plain_aes plain_aes-IsFaithful 2 1 2 letters 2 3 empty_table genuine
      (0, 0) filled two_blinds two_blinds 0 2 0 2 empty_table-IsShaped letters-Distinct genuine_run
      filled_run blinds_made blinds_made

decode_document-encode_document_example : decode_document (encode_document 258) ≡ 258
decode_document-encode_document_example = decode_document-encode_document 258 (omega arith)
