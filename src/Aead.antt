-- ===== src/Aead.antt =====
-- The labels of paired_vlse/include/aead_label.h: byte encodings, `EncryptLabel` and
-- `DecryptLabel`. OpenSSL's AES-128-GCM and RAND_bytes are a record of operations, and arrays of
-- bytes are lists. The outputs of `DecryptLabel` are references here, so its null test has no case.
pub mod Bytes
pub mod Laws
pub mod Canonical
use vlse.Base.{
  ℕ, suc, ◌+◌, ◌-◌, ◌*◌, Bool, true, false, if◌then◌else◌, not, ◌==◌, ltb, List, [], ◌∷◌, ◌++◌,
  Option, none, some, replicate, get_or, set, take, drop, range, range_from, for_each, bit_and,
  bit_or, u8, u64, ◌<<<◌, ◌>>>◌, Result, ok, throw, runtime_error, ◌>>=◌, to_nat, codes,
}

pub record AeadLabel : Type 0 where
  pub nonce : List ℕ
  pub ciphertext : List ℕ
  pub tag : List ℕ

abbrev pub nonce_bytes : ℕ
nonce_bytes = 12

abbrev pub plaintext_bytes : ℕ
plaintext_bytes = 16

unfoldable pub make_component_nonce : ℕ → List ℕ
make_component_nonce component_index =
    let position = u64 (component_index + 1) in
    for_each (range 8)
      (λ index nonce.
        set nonce (nonce_bytes - 1 - index) (u8 (bit_and (position >>> (8 * index)) 0xff)))
      (replicate nonce_bytes 0)

-- The loops of `StoreLittleEndian64`, `StoreLittleEndian32` and of the token in
-- `MakeAssociatedData`, on `size` bytes from an offset of the array.
unfoldable pub store_little_endian : ℕ → ℕ → ℕ → List ℕ → List ℕ
store_little_endian size value offset output =
    for_each (range size) (λ index out. set out (offset + index) (u8 (value >>> (8 * index))))
      output

unfoldable pub load_little_endian64 : List ℕ → ℕ
load_little_endian64 input =
    for_each (range 8) (λ index value. bit_or value (u64 (get_or input index 0 <<< (8 * index)))) 0

-- `kDomain`.
abbrev pub domain : List ℕ
domain = codes "VLSE-label-v1!!"

unfoldable pub make_associated_data : ℕ → ℕ → ℕ → List ℕ
make_associated_data epoch token component_index =
    store_little_endian 4 component_index 39
      (store_little_endian 16 token 23 (store_little_endian 8 epoch 15 (domain ++ replicate 28 0)))

-- Arguments in the order key, nonce, associated data, text. `seal` gives ciphertext and tag, or
-- none when a call fails; `unseal` takes them, throws when no context is made, and gives none when
-- a call fails, as on a wrong tag.
pub record Cipher : Type 0 where
  pub seal : List ℕ → List ℕ → List ℕ → List ℕ → Option (List ℕ × List ℕ)
  pub unseal : List ℕ → List ℕ → List ℕ → List ℕ → List ℕ → Result (Option (List ℕ))

-- The state of OpenSSL's random generator; `RAND_bytes` gives the bytes, or none when it fails.
pub record Entropy : Type 1 where
  pub State : Type 0
  pub rand_bytes : ℕ → State → Option (List ℕ × State)

-- The array `plaintext` of `EncryptLabel`.
unfoldable pub make_plaintext : Bool → ℕ → List ℕ
make_plaintext valid document_identifier =
    store_little_endian 8 document_identifier 8
      (set (set (replicate plaintext_bytes 0) 0 1) 1 (to_nat valid))

-- `*valid` and `*document_identifier`.
pub record Outputs : Type 0 where
  pub valid : Bool
  pub document_identifier : ℕ

-- The loop over the reserved bytes.
unfoldable pub reserved_clear : List ℕ → List ℕ → Bool
reserved_clear plaintext [] = true
reserved_clear plaintext (index ∷ indices) =
    if not (get_or plaintext index 0 == 0) then false else reserved_clear plaintext indices

-- `DecryptLabel` from the authenticated plaintext on.
unfoldable pub parse_plaintext : List ℕ → Outputs → Bool × Outputs
parse_plaintext plaintext outputs =
    if not (get_or plaintext 0 0 == 1)
    then (false, outputs)
    else if not (reserved_clear plaintext (range_from 2 6))
    then (false, outputs)
    else if ltb 1 (get_or plaintext 1 0)
    then (false, record outputs { valid = get_or plaintext 1 0 == 1 })
    else (
      true,
      record {
        valid = get_or plaintext 1 0 == 1;
        document_identifier = load_little_endian64 (drop 8 plaintext);
      },
    )

unfoldable pub sealed_label : List ℕ → Option (List ℕ × List ℕ) → Result AeadLabel
sealed_label nonce none = throw runtime_error
sealed_label nonce (some sealed) =
    ok (record { nonce = nonce; ciphertext = sealed.0; tag = sealed.1 })

module _ (cipher : Cipher) where
  unfoldable pub encrypt_label : List ℕ → ℕ → ℕ → ℕ → Bool → ℕ → Result AeadLabel
  encrypt_label key epoch token component_index valid document_identifier =
      let nonce = make_component_nonce component_index in
      let aad = make_associated_data epoch token component_index in
      sealed_label nonce (cipher.seal key nonce aad (make_plaintext valid document_identifier))

  unfoldable pub decrypt_label : List ℕ → ℕ → ℕ → ℕ → AeadLabel → Outputs → Result (Bool × Outputs)
  decrypt_label key epoch token component_index input outputs = do
    opened ←
        cipher.unseal key input.nonce (make_associated_data epoch token component_index)
          input.ciphertext input.tag
    ok (elim opened [
      | none ↦ (false, outputs)
      | some plaintext ↦ parse_plaintext plaintext outputs
    ])

module _ (entropy : Entropy) where
  open entropy use {State, rand_bytes}

  unfoldable pub random_dummy_label : State → Result (AeadLabel × State)
  random_dummy_label state = elim (rand_bytes 44 state) [
    | none ↦ throw runtime_error
    | some (bytes, next) ↦ ok (
      record { nonce = take 12 bytes; ciphertext = take 16 (drop 12 bytes); tag = drop 28 bytes },
      next,
    )
  ]
