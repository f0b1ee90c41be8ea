-- ===== src/Aead/Laws.antt =====
-- Lemmas on the nonces, associated data and labels of paired_vlse/include/aead_label.h.
use native.Mathlib.Nat.{mod-eq_of_lt}
use vlse.Aead.Bytes.{SameBytes, same_low, Spells, load_loop}
use vlse.Aead.{
  AeadLabel, Cipher, Outputs, make_component_nonce, store_little_endian, load_little_endian64,
  make_associated_data, make_plaintext, reserved_clear, parse_plaintext, encrypt_label,
  decrypt_label, sealed_label,
}
use vlse.Bits.{bit_and-low_bits}
use vlse.Base.{
  ◌≢◌, range, bit_or, ◌<<<◌, ℕ, ◌+◌, ◌*◌, ◌%◌, ◌^◌, ◌<◌, ◌≡◌, refl, sym, ap, ◌∙◌, arith, Bool, true,
  false, List, get_or, for_each, bit_and, u8, u64, ◌>>>◌, Option, none, some, ok, subst,
}

same_whole : (n v w : ℕ) → v < 2 ^ (8 * n) → w < 2 ^ (8 * n) → SameBytes 0 n v w → v ≡ w
same_whole n v w v_small w_small s =
    let h : 0 + n ≡ n = omega arith in
    sym (mod-eq_of_lt v_small)
    ∙ subst (λ t. v % 2 ^ (8 * t) ≡ w % 2 ^ (8 * t)) h (same_low 0 n v w (omega arith) s)
    ∙ mod-eq_of_lt w_small

abbrev nonce_byte : ℕ → ℕ → ℕ
nonce_byte i k = u8 (bit_and (u64 (i + 1) >>> (8 * k)) 0xff)

unmask : (p q : ℕ) → u8 (bit_and p 0xff) ≡ u8 (bit_and q 0xff) → u8 p ≡ u8 q
unmask p q e = omega (arith, e, bit_and-low_bits 8 p, bit_and-low_bits 8 q)

pub load_bytes :
    (input : List ℕ) (v : ℕ) → v < 2 ^ 64 → Spells input 0 8 v → load_little_endian64 input ≡ v
unfolding load_little_endian64
load_bytes input v small s =
    let start : 0 ≡ v % 2 ^ (8 * 0) = omega arith in
    ap (for_each (range 8) λ index value. bit_or value (u64 (get_or input index 0 <<< (8 * index))))
      start
    ∙ load_loop input 0 8 v (omega arith) s
    ∙ mod-eq_of_lt small

make_component_nonce_injective :
    (i j : ℕ) → i < 2 ^ 32 → j < 2 ^ 32 → make_component_nonce i ≡ make_component_nonce j → i ≡ j
unfolding make_component_nonce for_each
make_component_nonce_injective i j i_small j_small e =
    let same = λ (k : ℕ) (h : nonce_byte i k ≡ nonce_byte j k). unmask _ _ h in
    let at = λ (k : ℕ). ap (λ (nonce : List ℕ). get_or nonce k 0) e in
    let s : SameBytes 0 8 (u64 (i + 1)) (u64 (j + 1)) = (
      same 0 (at 11),
      (
        same 1 (at 10),
        (
          same 2 (at 9),
          (same 3 (at 8), (same 4 (at 7), (same 5 (at 6), (same 6 (at 5), (same 7 (at 4), tt))))),
        ),
      ),
    ) in
    omega (arith, same_whole 8 (u64 (i + 1)) (u64 (j + 1)) (omega arith) (omega arith) s)

make_associated_data_injective :
    (epoch token i epoch' token' j : ℕ)
    → epoch < 2 ^ 64
    → epoch' < 2 ^ 64
    → token < 2 ^ 128
    → token' < 2 ^ 128
    → i < 2 ^ 32
    → j < 2 ^ 32
    → make_associated_data epoch token i ≡ make_associated_data epoch' token' j
    → (epoch ≡ epoch') × (token ≡ token') × (i ≡ j)
unfolding make_associated_data store_little_endian for_each
make_associated_data_injective epoch token i epoch' token' j e64 e64' t128 t128' i32 j32 e =
    let at = λ (k : ℕ). ap (λ (aad : List ℕ). get_or aad k 0) e in
    (
      same_whole 8 epoch epoch' e64 e64'
          (at 15, (at 16, (at 17, (at 18, (at 19, (at 20, (at 21, (at 22, tt)))))))),
      same_whole 16 token token' t128 t128' (
        at 23,
        (
          at 24,
          (
            at 25,
            (
              at 26,
              (
                at 27,
                (
                  at 28,
                  (
                    at 29,
                    (
                      at 30,
                      (at 31, (at 32, (at 33, (at 34, (at 35, (at 36, (at 37, (at 38, tt)))))))),
                    ),
                  ),
                ),
              ),
            ),
          ),
        ),
      ),
      same_whole 4 i j i32 j32 (at 39, (at 40, (at 41, (at 42, tt)))),
    )

-- Different component indices of 32 bits have different nonces.
pub make_component_nonce-apart :
    (i j : ℕ) → i < 2 ^ 32 → j < 2 ^ 32 → i ≢ j → make_component_nonce i ≢ make_component_nonce j
make_component_nonce-apart i j i_small j_small ne e =
    ne (make_component_nonce_injective i j i_small j_small e)

-- What the associated data of a label bind.
pub record Binding : Type 0 where
  pub epoch : ℕ
  pub token : ℕ
  pub component_index : ℕ

-- The fields fit their integer types.
pub record IsFitting (b : Binding) : Type 0 where
  pub epoch_fits : b.epoch < 2 ^ 64
  pub token_fits : b.token < 2 ^ 128
  pub index_fits : b.component_index < 2 ^ 32

-- Two different triples of a 64-bit epoch, a 128-bit token and a 32-bit component index have
-- different associated data.
pub make_associated_data-apart :
    (a b : Binding)
    → IsFitting a
    → IsFitting b
    → a ≢ b
    → make_associated_data a.epoch a.token a.component_index
      ≢ make_associated_data b.epoch b.token b.component_index
make_associated_data-apart a b v w ne e =
    let (epochs, tokens, indices) =
      make_associated_data_injective a.epoch a.token a.component_index b.epoch b.token
        b.component_index v.epoch_fits w.epoch_fits v.token_fits w.token_fits v.index_fits
        w.index_fits e in
    ne (λ i. record { epoch = epochs i; token = tokens i; component_index = indices i })

-- The plaintext of a label parses back to what it was made from.
pub parse_plaintext-make_plaintext :
    (valid : Bool) (document_identifier : ℕ) (outputs : Outputs)
    → document_identifier < 2 ^ 64
    → parse_plaintext (make_plaintext valid document_identifier) outputs
      ≡ (true, record { valid = valid; document_identifier = document_identifier })
unfolding parse_plaintext make_plaintext store_little_endian for_each reserved_clear
parse_plaintext-make_plaintext true document_identifier outputs small =
    ap (λ d. (true, record { valid = true; document_identifier = d }))
      (load_bytes _ document_identifier small
        (refl, (refl, (refl, (refl, (refl, (refl, (refl, (refl, tt)))))))))
parse_plaintext-make_plaintext false document_identifier outputs small =
    ap (λ d. (true, record { valid = false; document_identifier = d }))
      (load_bytes _ document_identifier small
        (refl, (refl, (refl, (refl, (refl, (refl, (refl, (refl, tt)))))))))

module _ (cipher : Cipher)
    (unseal-seal : (key nonce aad text ciphertext tag : List ℕ)
      → cipher.seal key nonce aad text ≡ some (ciphertext, tag)
      → cipher.unseal key nonce aad ciphertext tag ≡ ok (some text)) where
  -- With a cipher that opens what it sealed under the same key, nonce and associated data, a label
  -- that was encrypted decrypts, under the key, epoch, token and component index of its encryption,
  -- to the validity flag and the 64-bit document identifier that went in.
  pub decrypt_label-encrypt_label :
      (key : List ℕ) (epoch token component_index : ℕ) (valid : Bool) (document_identifier : ℕ)
      (outputs : Outputs) (label : AeadLabel)
      → document_identifier < 2 ^ 64
      → encrypt_label cipher key epoch token component_index valid document_identifier ≡ ok label
      → decrypt_label cipher key epoch token component_index label outputs
        ≡ ok (true, record { valid = valid; document_identifier = document_identifier })
  unfolding encrypt_label decrypt_label sealed_label
  decrypt_label-encrypt_label key epoch token component_index valid document_identifier outputs
        label small run =
      opens _ refl run
    where
      opens :
          (o : Option (List ℕ × List ℕ))
          → cipher.seal key
              (make_component_nonce component_index)
              (make_associated_data epoch token component_index)
              (make_plaintext valid document_identifier)
            ≡ o
          → sealed_label (make_component_nonce component_index) o ≡ ok label
          → decrypt_label cipher key epoch token component_index label outputs
            ≡ ok (true, record { valid = valid; document_identifier = document_identifier })
      opens none e made = absurd cc
      opens (some (ciphertext, tag)) e made =
          let built : AeadLabel = record {
            nonce = make_component_nonce component_index;
            ciphertext = ciphertext;
            tag = tag;
          } in
          let same : built ≡ label = cc in
          subst
            (λ l.
              decrypt_label cipher key epoch token component_index l outputs
              ≡ ok (true, record { valid = valid; document_identifier = document_identifier }))
            same
            (rw (unseal-seal _ _ _ _ ciphertext tag e)
              (ap ok (parse_plaintext-make_plaintext valid document_identifier outputs small)))
