-- ===== src/Aead/Canonical.antt =====
-- The plaintexts that `DecryptLabel` of paired_vlse/include/aead_label.h accepts.
use vlse.Aead.Laws.{load_bytes}
use vlse.Aead.{
  AeadLabel, Cipher, make_associated_data, decrypt_label, Outputs, make_plaintext, parse_plaintext,
  reserved_clear, load_little_endian64, store_little_endian,
}
use vlse.Base.{
  ℕ, ◌+◌, ◌*◌, ◌/◌, ◌^◌, ◌≤◌, ◌<◌, ◌≡◌, refl, sym, ap, ◌∙◌, arith, Bool, true, false, not, ◌==◌,
  ltb, ltb→ge, ==→eq, if◌then◌else◌, List, [], ◌∷◌, length, get_or, get_or_ext, get_or-map_range,
  subst, map, range, Option, none, some, Result, ok, >>=-eq-ok, for_each, u8, to_nat,
}

-- The number that eight bytes spell.
abbrev spelled : ℕ → ℕ → ℕ → ℕ → ℕ → ℕ → ℕ → ℕ → ℕ
spelled a b c d e f g h =
    a + 2 ^ 8 * b + 2 ^ 16 * c + 2 ^ 24 * d + 2 ^ 32 * e + 2 ^ 40 * f + 2 ^ 48 * g + 2 ^ 56 * h

module _ (a b c d e f g h : ℕ) (a_byte : a < 256) (b_byte : b < 256) (c_byte : c < 256)
    (d_byte : d < 256) (e_byte : e < 256) (f_byte : f < 256) (g_byte : g < 256)
    (h_byte : h < 256) where
  abbrev v : ℕ
  v = spelled a b c d e f g h

  load-eq : load_little_endian64 (a ∷ b ∷ c ∷ d ∷ e ∷ f ∷ g ∷ h ∷ []) ≡ v
  load-eq = load_bytes _ v (omega arith) (
    omega arith,
    (
      omega arith,
      (omega arith, (omega arith, (omega arith, (omega arith, (omega arith, (omega arith, tt)))))),
    ),
  )

  stored-eq :
      (first second : ℕ)
      → store_little_endian 8 v 8
          (first ∷ second ∷ 0 ∷ 0 ∷ 0 ∷ 0 ∷ 0 ∷ 0 ∷ 0 ∷ 0 ∷ 0 ∷ 0 ∷ 0 ∷ 0 ∷ 0 ∷ 0 ∷ [])
        ≡ first ∷ second ∷ 0 ∷ 0 ∷ 0 ∷ 0 ∷ 0 ∷ 0 ∷ a ∷ b ∷ c ∷ d ∷ e ∷ f ∷ g ∷ h ∷ []
  unfolding store_little_endian for_each
  stored-eq first second =
      let a_eq : u8 (v / 1) ≡ a = omega arith in
      let b_eq : u8 (v / 2 ^ 8) ≡ b = omega arith in
      let c_eq : u8 (v / 2 ^ 16) ≡ c = omega arith in
      let d_eq : u8 (v / 2 ^ 24) ≡ d = omega arith in
      let e_eq : u8 (v / 2 ^ 32) ≡ e = omega arith in
      let f_eq : u8 (v / 2 ^ 40) ≡ f = omega arith in
      let g_eq : u8 (v / 2 ^ 48) ≡ g = omega arith in
      let h_eq : u8 (v / 2 ^ 56) ≡ h = omega arith in cc

  else_of :
      (test : Bool) (p y : Bool × Outputs) (out : Outputs)
      → p.0 ≡ false
      → (if test then p else y) ≡ (true, out)
      → (test ≡ false) × (y ≡ (true, out))
  else_of true p y out failed e =
      absurd (let no = sym failed ∙ ap (λ (r : Bool × Outputs). r.0) e in cc)
  else_of false p y out failed e = (refl, e)

  both_of : (test y : Bool) → (if not test then false else y) ≡ true → (test ≡ true) × (y ≡ true)
  both_of true y e = (refl, e)
  both_of false y e = absurd cc

  not_of : (test : Bool) → not test ≡ false → test ≡ true
  not_of true e = refl
  not_of false e = absurd cc

  flag : (second : ℕ) → second ≤ 1 → to_nat (second == 1) ≡ second
  flag second few = ground arith

  accepted-eq :
      (first second i j k l m n : ℕ) (outputs out : Outputs)
      → parse_plaintext
          (first ∷ second ∷ i ∷ j ∷ k ∷ l ∷ m ∷ n ∷ a ∷ b ∷ c ∷ d ∷ e ∷ f ∷ g ∷ h ∷ [])
          outputs
        ≡ (true, out)
      → first ∷ second ∷ i ∷ j ∷ k ∷ l ∷ m ∷ n ∷ a ∷ b ∷ c ∷ d ∷ e ∷ f ∷ g ∷ h ∷ []
        ≡ make_plaintext out.valid out.document_identifier
  unfolding parse_plaintext reserved_clear make_plaintext
  accepted-eq first second i j k l m n outputs out run =
      let (version, rest) = else_of (not (first == 1)) _ _ out refl run in
      let (reserved, rest') = else_of _ _ _ out refl rest in
      let (flagged, made) = else_of (ltb 1 second) _ _ out refl rest' in
      let clear = not_of _ reserved in
      let (i_zero, clear_i) = both_of (i == 0) _ clear in
      let (j_zero, clear_j) = both_of (j == 0) _ clear_i in
      let (k_zero, clear_k) = both_of (k == 0) _ clear_j in
      let (l_zero, clear_l) = both_of (l == 0) _ clear_k in
      let (m_zero, clear_m) = both_of (m == 0) _ clear_l in
      let (n_zero, clear_n) = both_of (n == 0) _ clear_m in
      let one : first ≡ 1 = ==→eq first 1 (not_of _ version) in
      let i_eq : i ≡ 0 = ==→eq i 0 i_zero in
      let j_eq : j ≡ 0 = ==→eq j 0 j_zero in
      let k_eq : k ≡ 0 = ==→eq k 0 k_zero in
      let l_eq : l ≡ 0 = ==→eq l 0 l_zero in
      let m_eq : m ≡ 0 = ==→eq m 0 m_zero in
      let n_eq : n ≡ 0 = ==→eq n 0 n_zero in
      let valid : to_nat (second == 1) ≡ second = flag second (ltb→ge 1 second flagged) in
      let opened : record { valid = second == 1; document_identifier = v } ≡ out =
        ap (λ t. record { valid = second == 1; document_identifier = t }) (sym load-eq)
        ∙ ap (λ (r : Bool × Outputs). r.1) made in
      subst
        (λ (o : Outputs).
          first ∷ second ∷ i ∷ j ∷ k ∷ l ∷ m ∷ n ∷ a ∷ b ∷ c ∷ d ∷ e ∷ f ∷ g ∷ h ∷ []
          ≡ make_plaintext o.valid o.document_identifier)
        opened (rw (one, i_eq, j_eq, k_eq, l_eq, m_eq, n_eq, valid) (sym (stored-eq 1 second)))

spelled_out : (text : List ℕ) → length text ≡ 16 → text ≡ map (λ i. get_or text i 0) (range 16)
spelled_out text sized = get_or_ext 0 text _ sized (λ i below.
    let start : 0 + i ≡ i = omega arith in
    sym (
      get_or-map_range (λ i. get_or text i 0) 0 16 i 0 (omega (arith, below, sized))
      ∙ ap (λ k. get_or text k 0) start))

parse_plaintext_accepts :
    (text : List ℕ) (outputs out : Outputs)
    → length text ≡ 16
    → ((i : ℕ) → get_or text i 0 < 256)
    → parse_plaintext text outputs ≡ (true, out)
    → text ≡ make_plaintext out.valid out.document_identifier
parse_plaintext_accepts text outputs out sized bytes run =
    let same = spelled_out text sized in
    same
    ∙ accepted-eq (get_or text 8 0) (get_or text 9 0) (get_or text 10 0) (get_or text 11 0)
        (get_or text 12 0) (get_or text 13 0) (get_or text 14 0) (get_or text 15 0) (bytes 8)
        (bytes 9) (bytes 10) (bytes 11) (bytes 12) (bytes 13) (bytes 14) (bytes 15)
        (get_or text 0 0) (get_or text 1 0) (get_or text 2 0) (get_or text 3 0) (get_or text 4 0)
        (get_or text 5 0) (get_or text 6 0) (get_or text 7 0) outputs out
        (ap (λ t. parse_plaintext t outputs) (sym same) ∙ run)

-- If every text that the cipher opens has 16 bytes, and a label decrypts, then the cipher opens its
-- ciphertext, under its nonce and the associated data of the epoch, token and component index, to
-- exactly the plaintext that the encryption makes of the validity flag and document identifier that
-- came out.
pub decrypt_label_accepts :
    (cipher : Cipher) (key : List ℕ) (epoch token component_index : ℕ) (label : AeadLabel)
    (outputs out : Outputs)
    → ((key nonce aad ciphertext tag text : List ℕ)
        → cipher.unseal key nonce aad ciphertext tag ≡ ok (some text)
        → (length text ≡ 16) × ((i : ℕ) → get_or text i 0 < 256))
    → decrypt_label cipher key epoch token component_index label outputs ≡ ok (true, out)
    → cipher.unseal key label.nonce
        (make_associated_data epoch token component_index)
        label.ciphertext
        label.tag
      ≡ ok (some (make_plaintext out.valid out.document_identifier))
unfolding decrypt_label
decrypt_label_accepts cipher key epoch token component_index label outputs out blocks run =
    let (opened, unsealed, parsed) = >>=-eq-ok {From = Option (List ℕ)} _ _ run in
    accepts opened unsealed parsed
  where
    accepts :
        (opened : Option (List ℕ))
        → cipher.unseal key label.nonce
            (make_associated_data epoch token component_index)
            label.ciphertext
            label.tag
          ≡ ok opened
        → (let decoded : Bool × Outputs = elim opened as (λ _. Bool × Outputs) [
          | none ↦ (false, outputs)
          | some plaintext ↦ parse_plaintext plaintext outputs
        ] in
            let returned : Result (Bool × Outputs) = ok decoded in returned ≡ ok (true, out))
        → cipher.unseal key label.nonce
            (make_associated_data epoch token component_index)
            label.ciphertext
            label.tag
          ≡ ok (some (make_plaintext out.valid out.document_identifier))
    accepts none unsealed parsed = absurd cc
    accepts (some text) unsealed parsed =
        let (sized, bytes) = blocks _ _ _ _ _ text unsealed in
        let opens : parse_plaintext text outputs ≡ (true, out) = cc in
        unsealed
        ∙ ap (λ t. ok (some t)) (parse_plaintext_accepts text outputs out sized bytes opens)
