-- ===== src/Tests/Bytes.antt =====
-- Runs of the storage, codec, cipher, OPRF and derivation models.

use vlse.Aead.Laws.{
  Binding, make_component_nonce-apart, make_associated_data-apart, decrypt_label-encrypt_label,
}
use vlse.Aead.{
  store_little_endian, reserved_clear, load_little_endian64, AeadLabel, make_component_nonce,
  make_associated_data, make_plaintext, encrypt_label, decrypt_label, sealed_label, parse_plaintext,
}
use vlse.Base.{
  ℕ, for_each, ◌+◌, ◌*◌, ◌%◌, ◌^◌, ◌≤◌, ◌≡◌, ◌≢◌, refl, ap, arith, true, false, List, [], ◌∷◌,
  replicate, get_or-replicate, length, Result, ok, throw, Returns, u64, inl, logic_error,
}
use vlse.Codec.Laws.{decode-encode}
use vlse.Codec.{codec, plain}
use vlse.Derivation.Laws.{opens_anywhere, collect_authenticated_results-opens}
use vlse.Derivation.Sorting.{has, IsAscending}
use vlse.Derivation.{
  TokenKeyPair, Collecting, collect_authenticated_results, attempt_candidates, attempt_all, attempt,
  count_attempt, deduplicate, sort, unique, unique_after, insert_document,
}
use vlse.Oprf.Laws.{from_big_endian-to_big_endian, evaluate_prepared-prepare_blind}
use vlse.Oprf.{
  PreparedBlind, to_big_endian, from_big_endian, from_big_endian_after, prepare_blind,
  random_scalar, evaluate_prepared, direct_evaluate,
}
use vlse.Tests.Toys.{keeping, keeping_opens, group, group-IsGroup}
use vlse.Storage.Fields.{read_bits-write_bits_self, read_bits-write_bits_disjoint}
use vlse.Storage.Laws.{IsBytes}
use vlse.Storage.{read_bits, write_bits}

abbrev zeros : List ℕ
zeros = replicate 32 0

zeros-IsBytes : IsBytes zeros
zeros-IsBytes i = ground (arith, get_or-replicate {A = ℕ} 32 i 0)

read_bits-write_bits_self_example : read_bits (write_bits zeros 37 11 1500) 37 11 ≡ 1500 % 2 ^ 11
read_bits-write_bits_self_example =
    read_bits-write_bits_self zeros zeros-IsBytes 37 11 1500 (omega arith) (omega arith)

read_bits-write_bits_disjoint_example :
    read_bits (write_bits zeros 37 11 1500) 48 8 ≡ read_bits zeros 48 8
read_bits-write_bits_disjoint_example =
    read_bits-write_bits_disjoint zeros zeros-IsBytes 37 11 1500 (omega arith) (omega arith) 48 8
      (omega arith) (inl (omega arith))

decode-encode_example : codec.decode (codec.encode (plain 15 9 9 2)) ≡ plain 15 9 9 2
decode-encode_example =
    decode-encode 15 9 9 2 (record {
      nibble = omega arith;
      second = omega arith;
      third = omega arith;
      last = omega arith;
    })

make_component_nonce-apart_example : make_component_nonce 300 ≢ make_component_nonce 301
make_component_nonce-apart_example =
    make_component_nonce-apart 300 301 (omega arith) (omega arith) (λ e. absurd (omega (arith, e)))

make_associated_data-apart_example : make_associated_data 1 2 3 ≢ make_associated_data 1 2 4
make_associated_data-apart_example =
    make_associated_data-apart (record { epoch = 1; token = 2; component_index = 3 })
      (record { epoch = 1; token = 2; component_index = 4 })
      (record { epoch_fits = omega arith; token_fits = omega arith; index_fits = omega arith })
      (record { epoch_fits = omega arith; token_fits = omega arith; index_fits = omega arith })
      (λ e. absurd (omega (arith, ap (λ (b : Binding). b.component_index) e)))

abbrev label : AeadLabel
label = record {
  nonce = make_component_nonce 2;
  ciphertext = make_plaintext true 77;
  tag = replicate 16 9;
}

label_run : encrypt_label keeping (replicate 16 9) 5 6 2 true 77 ≡ ok label
unfolding encrypt_label sealed_label
label_run = refl

decrypt_label-encrypt_label_example :
    decrypt_label keeping
      (replicate 16 9)
      5
      6
      2
      label
      (record { valid = false; document_identifier = 0 })
    ≡ ok (true, record { valid = true; document_identifier = 77 })
decrypt_label-encrypt_label_example =
    decrypt_label-encrypt_label keeping keeping_opens (replicate 16 9) 5 6 2 true 77
      (record { valid = false; document_identifier = 0 }) label (omega arith) label_run

from_big_endian-to_big_endian_example :
    Returns (to_big_endian group 5) λ output. (length output ≡ 384) × (from_big_endian output ≡ 5)
from_big_endian-to_big_endian_example =
    from_big_endian-to_big_endian group 5 (omega arith) (omega arith)

abbrev blind : PreparedBlind
blind = record { scalar = 2; inverse = 2; consumed = false }

blind_run : prepare_blind group 2 ≡ ok (blind, 3)
unfolding prepare_blind random_scalar from_big_endian from_big_endian_after
blind_run = refl

evaluate_prepared-prepare_blind_example :
    ((evaluate_prepared group 2 (65 ∷ []) blind).1 ≡ direct_evaluate group 2 (65 ∷ []))
    × (evaluate_prepared group 2 (66 ∷ []) (evaluate_prepared group 2 (65 ∷ []) blind).0
        ≡ ((evaluate_prepared group 2 (65 ∷ []) blind).0, throw logic_error))
evaluate_prepared-prepare_blind_example =
    evaluate_prepared-prepare_blind group group-IsGroup 2 (65 ∷ []) (66 ∷ []) 2 3 blind blind_run

abbrev pair : TokenKeyPair
pair = record { token = 6; key = replicate 16 9 }

abbrev dummy : AeadLabel
dummy = record { nonce = replicate 12 0; ciphertext = replicate 16 0; tag = replicate 16 0 }

abbrev collected : Result Collecting → Collecting
collected (ok results) = results
collected (throw e) = record { documents = []; component_attempts = 0 }

abbrev records : List (List AeadLabel)
records = (label ∷ dummy ∷ []) ∷ (dummy ∷ label ∷ []) ∷ []

collecting_run :
    collect_authenticated_results keeping 2 4 pair 5 records 10
    ≡ ok (record { documents = 77 ∷ []; component_attempts = 14 })
unfolding for_each store_little_endian reserved_clear load_little_endian64
    collect_authenticated_results attempt_candidates attempt_all attempt count_attempt deduplicate
    sort unique unique_after insert_document decrypt_label parse_plaintext make_plaintext
collecting_run = refl

collect_authenticated_results-opens_example :
    (2 ≤ 4)
    × (IsAscending (77 ∷ [])
        × ((has 77 (77 ∷ []) ≡ opens_anywhere keeping 2 4 pair 5 77 records)
            × (u64 14 ≡ u64 (10 + 2 * 2))))
collect_authenticated_results-opens_example =
    collect_authenticated_results-opens keeping 2 4 pair 5 77 records 10
      (record { documents = 77 ∷ []; component_attempts = 14 }) collecting_run
