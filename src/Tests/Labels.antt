-- ===== src/Tests/Labels.antt =====
-- A cipher that opens everything to one label's plaintext.
use vlse.Aead.Canonical.{decrypt_label_accepts}
use vlse.Aead.{
  AeadLabel, Cipher, make_component_nonce, make_associated_data, make_plaintext, decrypt_label,
  parse_plaintext, reserved_clear, load_little_endian64, store_little_endian,
}
use vlse.Base.{
  ℕ, zero, suc, ◌<◌, ◌≡◌, refl, arith, Bool, true, false, ◌&&◌, ltb, ltb→lt, Bool-cases, inl, inr,
  List, [], ◌∷◌, length, get_or, replicate, some, ok, for_each, subst,
}

all_bytes : List ℕ → Bool
all_bytes [] = true
all_bytes (x ∷ xs) = ltb x 256 && all_bytes xs

all_bytes-lt : (xs : List ℕ) → all_bytes xs ≡ true → (i : ℕ) → get_or xs i 0 < 256
unfolding all_bytes
all_bytes-lt [] e i = omega arith
all_bytes-lt (x ∷ xs) e zero = elim (Bool-cases (ltb x 256)) [
  | inr large ↦ absurd (let no = rw large at e in cc)
  | inl small ↦ ltb→lt x 256 small
]
all_bytes-lt (x ∷ xs) e (suc i) = elim (Bool-cases (ltb x 256)) [
  | inr large ↦ absurd (let no = rw large at e in cc)
  | inl small ↦ all_bytes-lt xs (rw small at e) i
]

abbrev one_plaintext : Cipher
one_plaintext = record {
  seal = λ key nonce aad text. some (text, key);
  unseal = λ key nonce aad ciphertext tag. ok (some (make_plaintext true 77));
}

one_plaintext_blocks :
    (key nonce aad ciphertext tag text : List ℕ)
    → one_plaintext.unseal key nonce aad ciphertext tag ≡ ok (some text)
    → (length text ≡ 16) × ((i : ℕ) → get_or text i 0 < 256)
unfolding make_plaintext store_little_endian for_each all_bytes
one_plaintext_blocks key nonce aad ciphertext tag text e =
    let same : make_plaintext true 77 ≡ text = cc in
    subst (λ (t : List ℕ). (length t ≡ 16) × ((i : ℕ) → get_or t i 0 < 256)) same
      (refl, all_bytes-lt (make_plaintext true 77) refl)

abbrev some_label : AeadLabel
some_label = record {
  nonce = make_component_nonce 2;
  ciphertext = replicate 16 3;
  tag = replicate 16 9;
}

some_label_run :
    decrypt_label one_plaintext
      (replicate 16 9)
      5
      6
      2
      some_label
      (record { valid = false; document_identifier = 0 })
    ≡ ok (true, record { valid = true; document_identifier = 77 })
unfolding decrypt_label parse_plaintext reserved_clear load_little_endian64 make_plaintext
    store_little_endian for_each
some_label_run = refl

decrypt_label_accepts_example :
    one_plaintext.unseal
      (replicate 16 9)
      some_label.nonce
      (make_associated_data 5 6 2)
      some_label.ciphertext
      some_label.tag
    ≡ ok (some (make_plaintext true 77))
decrypt_label_accepts_example =
    decrypt_label_accepts one_plaintext (replicate 16 9) 5 6 2 some_label
      (record { valid = false; document_identifier = 0 })
      (record { valid = true; document_identifier = 77 }) one_plaintext_blocks some_label_run
