-- ===== src/Derivation.antt =====
-- Tokens, keys and result collection: common/include/protocol_derivation.h,
-- common/include/protocol_record.h and benchmarks/authenticated_results.h. SHA-256 of Crypto++ is
-- a function on byte lists; `std::sort` and `std::unique` are insertion and the removal of equal
-- neighbours.
pub mod Sorting
pub mod Laws
use vlse.Aead.{AeadLabel, Cipher, Outputs, decrypt_label}
use vlse.Base.{
  ℕ, zero, suc, ◌+◌, ◌-◌, ◌*◌, Bool, true, false, if◌then◌else◌, ◌&&◌, ◌==◌, ltb, List, [], ◌∷◌,
  ◌++◌, length, replicate, get_or, set, drop, take, range, for_each, bit_or, u32, u64, u128, ◌<<<◌,
  Result, ok, throw, runtime_error, ◌>>=◌, codes,
}

pub record TokenKeyPair : Type 0 where
  pub token : ℕ
  pub key : List ℕ

module _ (sha256 : List ℕ → List ℕ) where
  unfoldable pub domain_hash : List ℕ → List ℕ → List ℕ
  domain_hash domain input = sha256 (domain ++ ((0 ∷ []) ++ input))

  abbrev pub token_domain : List ℕ
  token_domain = codes "VLSE-H1-token-v1"

  abbrev pub key_domain : List ℕ
  key_domain = codes "VLSE-H2-key-v1"

  unfoldable pub derive_token_and_key : List ℕ → TokenKeyPair
  derive_token_and_key output =
      let token_digest = domain_hash token_domain output in
      let key_digest = domain_hash key_domain output in
      for_each (range 16)
        (λ i result. record {
          token = bit_or (u128 (result.token <<< 8)) (get_or token_digest i 0);
          key = set result.key i (get_or key_digest i 0);
        })
        (record { token = 0; key = replicate 16 0 })

unfoldable pub lse_aes_key : List ℕ → List ℕ
lse_aes_key output = drop (length output - 16) output

unfoldable pub serialized_record_bytes : ℕ → ℕ
serialized_record_bytes d_max = d_max * 44

-- `documents` up to `size`, in the order of the array.
pub record Collecting : Type 0 where
  pub documents : List ℕ
  pub component_attempts : ℕ

unfoldable pub insert_document : ℕ → List ℕ → List ℕ
insert_document x [] = x ∷ []
insert_document x (y ∷ ys) =
    let later = y ∷ insert_document x ys in if ltb y x then later else x ∷ y ∷ ys

unfoldable pub sort : List ℕ → List ℕ
sort [] = []
sort (x ∷ xs) = insert_document x (sort xs)

-- `std::unique` after the element `last`.
unfoldable pub unique_after : ℕ → List ℕ → List ℕ
unique_after last [] = []
unique_after last (x ∷ xs) =
    let dropped = unique_after last xs in
    let kept = x ∷ unique_after x xs in if last == x then dropped else kept

unfoldable pub unique : List ℕ → List ℕ
unique [] = []
unique (x ∷ xs) = x ∷ unique_after x xs

-- The documents after the loops.
unfoldable pub deduplicate : List ℕ → List ℕ
deduplicate documents = if ltb 1 (length documents) then unique (sort documents) else documents

abbrev pub no_label : AeadLabel
no_label = record { nonce = replicate 12 0; ciphertext = replicate 16 0; tag = replicate 16 0 }

-- What the inner loop's body does with the outcome of a decryption.
unfoldable pub count_attempt : Bool × Outputs → Collecting → Collecting
count_attempt decoded results = record {
  documents =
      if decoded.0 && decoded.1.valid
      then results.documents ++ (decoded.1.document_identifier ∷ [])
      else results.documents;
  component_attempts = u64 (results.component_attempts + 1);
}

module _ (cipher : Cipher) (d_max max_candidates : ℕ) (derived : TokenKeyPair) (epoch : ℕ) where
  -- The inner loop's body.
  unfoldable pub attempt : List AeadLabel → ℕ → Collecting → Result Collecting
  attempt components j results = do
    decoded ←
        decrypt_label cipher derived.key epoch derived.token (u32 j) (get_or components j no_label)
          (record { valid = false; document_identifier = 0 })
    ok (count_attempt decoded results)

  unfoldable pub attempt_all : List AeadLabel → List ℕ → Collecting → Result Collecting
  attempt_all components [] results = ok results
  attempt_all components (j ∷ js) results = do
    next ← attempt components j results
    attempt_all components js next

  unfoldable pub attempt_candidates : List (List AeadLabel) → Collecting → Result Collecting
  attempt_candidates [] results = ok results
  attempt_candidates (candidate ∷ candidates) results = do
    next ← attempt_all candidate (range d_max) results
    attempt_candidates candidates next

  unfoldable pub collect_authenticated_results : List (List AeadLabel) → ℕ → Result Collecting
  collect_authenticated_results candidates component_attempts =
      if ltb max_candidates (length candidates) then throw runtime_error else do
        results ←
            attempt_candidates candidates
              (record { documents = []; component_attempts = component_attempts })
        ok (record results { documents = deduplicate results.documents })
